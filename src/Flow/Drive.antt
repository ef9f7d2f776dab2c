-- ===== src/Flow/Drive.antt =====
-- The run: the invariant holds at its end, and enough fuel lets every step finish.
use jardin.Base.{ℕ, zero, suc, ◌<◌, String, true, false, List, [], ◌∷◌, ◌≡◌, refl, arith}
use jardin.Base.{contains, string_eq, All, Within, length, leb, ltb, Bool-cases, inl, inr}
use jardin.Flow.Types.{Step}
use jardin.Flow.Graph.{names_of}
use jardin.Flow.Schedule.{Outcome, Plan, Sched, Surroundings, start, sweep, collect, drive}
use jardin.Flow.Sound.{IsSound}
use jardin.Flow.Sweep.{sweep-IsSound, collect-IsSound}

-- Outcomes come from steps in flight, each with its step's name.
pub record IsFair (arrive : Sched → Outcome) : Type 0 where
  pub from_running : (s : Sched) → 0 < length s.running → contains s.running (arrive s).name ≡ true
  pub named : (s : Sched) → (arrive s).result.name ≡ (arrive s).name

pub start-IsSound : (plan : Plan) → IsSound plan start
start-IsSound plan = record {
  counted = refl;
  bounded = omega arith;
  running_nodup = tt;
  done_nodup = tt;
  running_started = λ n h. absurd (cc);
  running_open = λ n h. refl;
  open_running = λ n h o l. absurd (cc);
  done_started = λ n h. h;
  known = λ n h. absurd (cc);
  reported = λ n. refl;
  reported_once = tt;
  waited = λ n h. absurd (cc);
  unblocked = λ n h. absurd (cc);
}

names_known :
    (steps : List Step) (names : List String)
    → Within (names_of steps) names
    → All (λ step. contains names step.name ≡ true) steps
names_known [] names w = tt
names_known (s ∷ steps) names w =
    (w s.name (ground arith), names_known steps names (λ q h. w q (ground arith)))

pub All-known :
    (plan : Plan) → All (λ step. contains (names_of plan.steps) step.name ≡ true) plan.steps
All-known plan = names_known plan.steps (names_of plan.steps) (λ q h. h)

module _ (env : Surroundings) (plan : Plan) (arrive : Sched → Outcome) (fair : IsFair arrive) where
  -- If outcomes come only from steps in flight, each result with its step's name, then a run from a
  -- state with the scheduler's invariant ends in one, on any fuel and in any order of outcomes: no
  -- more steps are in flight than the limit allows; each step is recorded at most once; a step was
  -- started only when all that it depends on was done; and no step in flight depends on a blocked
  -- one.
  pub drive-IsSound :
      (fuel : ℕ) (s : Sched) → IsSound plan s → IsSound plan (drive env plan arrive fuel s)
  unfolding drive
  drive-IsSound zero s v = v
  drive-IsSound (suc fuel) s v =
      let s' : Sched = (sweep env plan plan.steps false s).0 in
      let v' : IsSound plan s' = sweep-IsSound env plan plan.steps false s (All-known plan) v in
      elim (Bool-cases (leb (length plan.steps) (length s.done))) [
        | inl e ↦ rw (e, drive) v
        | inr e ↦ elim (Bool-cases (ltb 0 s'.inflight)) [
          | inl some_fly ↦
              rw (e, some_fly, drive)
                (drive-IsSound fuel (collect env plan (arrive s') s') (
                  collect-IsSound env plan (arrive s') s' v'
                    (fair.from_running s' (ground (arith, v'.counted))) (fair.named s')))
          | inr none_fly ↦ elim (Bool-cases (sweep env plan plan.steps false s).1) [
            | inl p ↦ rw (e, none_fly, p, drive) (drive-IsSound fuel s' v')
            | inr p ↦ rw (e, none_fly, p, drive) v'
          ]
        ]
      ]
