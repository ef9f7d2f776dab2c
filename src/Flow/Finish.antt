-- ===== src/Flow/Finish.antt =====
-- A run on enough fuel ends with every step of an acyclic flow recorded, each once.
use jardin.Base.{
  ℕ, zero, suc, ◌+◌, ◌-◌, ◌≤◌, ◌<◌, String, true, false, List, [], ◌∷◌, ◌≡◌, refl, ap, ◌∙◌, arith,
}
use jardin.Base.{
  contains, string_eq, Within, IsNodup, Within-of_length, remove, length, leb, ltb, Bool-cases, inl,
  inr,
}
use jardin.Flow.Types.{Step}
use jardin.Flow.Graph.{names_of}
use jardin.Flow.Schedule.{Outcome, Plan, Sched, Surroundings, start, sweep, collect, drive}
use jardin.Flow.Sound.{IsSound, reported_names, file_outcome-kept}
use jardin.Flow.Sweep.{sweep-IsSound, collect-IsSound}
use jardin.Flow.Drive.{IsFair, All-known, drive-IsSound, start-IsSound}
use jardin.Flow.Complete.{IsOrdered, sweep-Grows, quiet-done}

pub length-names : (steps : List Step) → length (names_of steps) ≡ length steps
length-names [] = refl
length-names (s ∷ steps) = ap suc (length-names steps)

-- The steps of the plan can be put in an order in which each depends only on later ones.
pub record IsAcyclic (plan : Plan) : Type 0 where
  pub order : List String
  pub ordered : IsOrdered plan.deps order
  pub covers : Within (names_of plan.steps) order
  pub only : Within order (names_of plan.steps)

module _ (env : Surroundings) (plan : Plan) (arrive : Sched → Outcome) (fair : IsFair arrive) where
  length-collect :
      (out : Outcome) (s : Sched)
      → contains s.done out.name ≡ false
      → length (collect env plan out s).done ≡ suc (length s.done)
  unfolding collect
  length-collect out s new = ground (
    arith,
    file_outcome-kept plan (env.now s) out
        (record s { inflight = s.inflight - 1; running = remove out.name s.running }),
  )

  module _ (acyclic : IsAcyclic plan) (distinct : IsNodup (names_of plan.steps))
      (room : 0 < plan.limit) where
    drive-fills :
        (fuel : ℕ) (s : Sched)
        → IsSound plan s
        → length plan.steps < length s.done + fuel
        → length plan.steps ≤ length (drive env plan arrive fuel s).done
    unfolding drive
    drive-fills zero s v enough = omega arith
    drive-fills (suc fuel) s v enough =
        let s' : Sched = (sweep env plan plan.steps false s).0 in
        let v' : IsSound plan s' = sweep-IsSound env plan plan.steps false s (All-known plan) v in
        let g = sweep-Grows env plan plan.steps false s in
        elim (Bool-cases (leb (length plan.steps) (length s.done))) [
          | inl e ↦ rw (e, drive) (ground arith)
          | inr e ↦ elim (Bool-cases (ltb 0 s'.inflight)) [
            | inl some_fly ↦
                let out : Outcome = arrive s' in
                let flying : contains s'.running out.name ≡ true =
                  fair.from_running s' (ground (arith, v'.counted)) in
                rw (e, some_fly, drive)
                  (drive-fills fuel (collect env plan out s')
                    (collect-IsSound env plan out s' v' flying (fair.named s'))
                    (omega (
                      arith,
                      length-collect out s' (v'.running_open out.name flying),
                      g.0,
                      enough,
                    )))
            | inr none_fly ↦ elim (Bool-cases (sweep env plan plan.steps false s).1) [
              | inl p ↦
                  rw (e, none_fly, p, drive) (drive-fills fuel s' v' (ground (arith, g.2 p refl)))
              | inr p ↦
                  rw (e, none_fly, p, drive)
                    (omega (
                      arith,
                      length-names plan.steps,
                      g.0,
                      quiet-done env plan acyclic.order acyclic.ordered acyclic.covers acyclic.only
                          distinct room s v (ground arith) p,
                    ))
            ]
          ]
        ]

    -- Let the flow be acyclic with different step names, at least one step be allowed at a time, and
    -- outcomes come only from steps in flight, each result with its step's name. Then a run from the
    -- start, with fuel one more than the number of steps, ends with exactly one result for each step
    -- and none for any other name, whatever order the outcomes arrive in.
    pub drive-reports_all :
        ((n : String)
          → contains
              (reported_names (drive env plan arrive (suc (length plan.steps)) start).results)
              n
            ≡ contains (names_of plan.steps) n)
        × IsNodup (reported_names (drive env plan arrive (suc (length plan.steps)) start).results)
    drive-reports_all =
        let end : Sched = drive env plan arrive (suc (length plan.steps)) start in
        let v : IsSound plan end =
          drive-IsSound env plan arrive fair (suc (length plan.steps)) start (start-IsSound plan) in
        let long = drive-fills (suc (length plan.steps)) start (start-IsSound plan) (omega arith) in
        let known : Within end.done (names_of plan.steps) = λ n h. v.known n (v.done_started n h) in
        let all =
          Within-of_length end.done (names_of plan.steps) v.done_nodup known
            (omega (arith, long, length-names plan.steps)) in
        (λ n. v.reported n ∙ ground (arith, known n, all n), v.reported_once)
