-- ===== src/Flow/Verdict.antt =====
-- The status of a run is the worst of its results, whatever order they come in.
use jardin.Base.{
  ℕ, zero, suc, ◌-◌, Bool, true, false, ◌||◌, List, [], ◌∷◌, ◌++◌, ◌≡◌, refl, ap, ◌∙◌, arith,
}
use jardin.Base.{ltb, leb, length, remove, Bool-cases, inl, inr, if◌then◌else◌}
use jardin.Base.Int.{is_zero}
use jardin.Flow.Types.{Step, StepResult, Status, ok, failed, unresolved, timeout, status_rank}
use jardin.Flow.Schedule.{
  Outcome, Plan, Sched, Surroundings, start, worsen, judge, file_outcome, stamped, allows_failure,
  never_ran, skip, launch, turn, sweep, collect, drive,
}
use jardin.Flow.Needs.{resolve}
use jardin.Flow.Sweep.{Turn-cases, Resolved-cases}
use jardin.Flow.Drive.{IsFair}

-- What one result alone says of a run.
unfoldable pub verdict : Plan → StepResult → Status
verdict plan r =
    if r.timed_out
    then timeout
    else if r.skipped
    then ok
    else if r.not_started
    then unresolved
    else if is_zero r.exit_code || allows_failure plan.steps r.name
    then ok
    else failed

abbrev pub max : ℕ → ℕ → ℕ
max a b = if ltb a b then b else a

-- The worst rank among the results.
unfoldable pub worst : Plan → List StepResult → ℕ
worst plan [] = 0
worst plan (r ∷ rs) = max (status_rank (verdict plan r)) (worst plan rs)

max_zero : (a : ℕ) → max a 0 ≡ max 0 a
max_zero a = ground arith

max_assoc : (a b c : ℕ) → max a (max b c) ≡ max (max a b) c
max_assoc a b c = ground arith

worst-add_last :
    (plan : Plan) (rs : List StepResult) (r : StepResult)
    → worst plan (rs ++ (r ∷ [])) ≡ max (worst plan rs) (status_rank (verdict plan r))
unfolding worst
worst-add_last plan [] r = max_zero (status_rank (verdict plan r))
worst-add_last plan (q ∷ rs) r =
    ap (max (status_rank (verdict plan q))) (worst-add_last plan rs r)
    ∙ max_assoc (status_rank (verdict plan q)) (worst plan rs) (status_rank (verdict plan r))

abbrev pub IsJudged : Plan → Sched → Type 0
IsJudged plan s = status_rank s.status ≡ worst plan s.results

rank-judge :
    (plan : Plan) (out : Outcome) (s : Sched)
    → out.result.name ≡ out.name
    → status_rank (judge plan out s).status
      ≡ max (status_rank s.status) (status_rank (verdict plan out.result))
unfolding judge worsen verdict status_rank
rank-judge plan out s named = ground (arith, named)

module _ (plan : Plan) (now : ℕ) (out : Outcome) (s : Sched)
    (named : out.result.name ≡ out.name) where
  abbrev stamped_result : StepResult
  stamped_result = record (out.result) { started_at = stamped now out.result.started_at }

  results-file_outcome : (file_outcome plan now out s).results ≡ s.results ++ (stamped_result ∷ [])
  unfolding file_outcome judge worsen
  results-file_outcome = ground arith

  rank-file_outcome :
      status_rank (file_outcome plan now out s).status
      ≡ max (status_rank s.status) (status_rank (verdict plan out.result))
  unfolding file_outcome
  rank-file_outcome = rank-judge plan out _ named

  file_outcome-IsJudged : IsJudged plan s → IsJudged plan (file_outcome plan now out s)
  unfolding verdict
  file_outcome-IsJudged j =
      rw results-file_outcome
        (ground (arith, j, rank-file_outcome, worst-add_last plan s.results stamped_result))

module _ (env : Surroundings) (plan : Plan) where
  launch-IsJudged :
      (step : Step) (s : Sched) → IsJudged plan s → IsJudged plan (launch env plan step s)
  unfolding launch
  launch-IsJudged step s j = elim (Resolved-cases (resolve env.itoa step s.outputs)) [
    | inl (x, e) ↦ rw (e, launch) j
    | inr (x, e) ↦
        rw (e, launch)
          (file_outcome-IsJudged plan (env.now s)
            (never_ran step.name (env.describe step.name x) false) s refl j)
  ]

  sweep-IsJudged :
      (steps : List Step) (changed : Bool) (s : Sched)
      → IsJudged plan s
      → IsJudged plan (sweep env plan steps changed s).0
  unfolding sweep skip
  sweep-IsJudged [] changed s j = j
  sweep-IsJudged (step ∷ steps) changed s j = elim (Turn-cases (turn env plan step s)) [
    | inl (inl e) ↦ rw (e, sweep) (sweep-IsJudged steps changed s j)
    | inl (inr (reason, e)) ↦
        rw (e, sweep)
          (sweep-IsJudged steps true (skip env plan step.name reason s)
            (file_outcome-IsJudged plan (env.now s) (never_ran step.name reason true) s refl j))
    | inr (inl e) ↦ rw (e, sweep) j
    | inr (inr e) ↦
        rw (e, sweep)
          (sweep-IsJudged steps true (launch env plan step s) (launch-IsJudged step s j))
  ]

  collect-IsJudged :
      (out : Outcome) (s : Sched)
      → out.result.name ≡ out.name
      → IsJudged plan s
      → IsJudged plan (collect env plan out s)
  unfolding collect
  collect-IsJudged out s named j =
      file_outcome-IsJudged plan (env.now s) out
        (record s { inflight = s.inflight - 1; running = remove out.name s.running }) named j

module _ (env : Surroundings) (plan : Plan) (arrive : Sched → Outcome) (fair : IsFair arrive) where
  drive-IsJudged :
      (fuel : ℕ) (s : Sched) → IsJudged plan s → IsJudged plan (drive env plan arrive fuel s)
  unfolding drive
  drive-IsJudged zero s j = j
  drive-IsJudged (suc fuel) s j =
      let s' : Sched = (sweep env plan plan.steps false s).0 in
      let j' : IsJudged plan s' = sweep-IsJudged env plan plan.steps false s j in
      elim (Bool-cases (leb (length plan.steps) (length s.done))) [
        | inl e ↦ rw (e, drive) j
        | inr e ↦ elim (Bool-cases (ltb 0 s'.inflight)) [
          | inl some_fly ↦
              rw (e, some_fly, drive)
                (drive-IsJudged fuel (collect env plan (arrive s') s')
                  (collect-IsJudged env plan (arrive s') s' (fair.named s') j'))
          | inr none_fly ↦ elim (Bool-cases (sweep env plan plan.steps false s).1) [
            | inl p ↦ rw (e, none_fly, p, drive) (drive-IsJudged fuel s' j')
            | inr p ↦ rw (e, none_fly, p, drive) j'
          ]
        ]
      ]

  -- If outcomes come only from steps in flight, each result with its step's name, then at the end
  -- of a run from the start, on any fuel, the rank of the run's status is the worst rank among the
  -- verdicts on its results, each verdict read from one result alone: a timeout, a step that could
  -- not start, a step that failed and may not, or none of these, from worst to best.
  pub status-worst :
      (fuel : ℕ)
      → status_rank (drive env plan arrive fuel start).status
        ≡ worst plan (drive env plan arrive fuel start).results
  unfolding worst status_rank
  status-worst fuel = drive-IsJudged fuel start refl
