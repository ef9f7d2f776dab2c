-- ===== src/Flow/Sweep.antt =====
-- Sweeping and collecting keep the invariant.
use jardin.Base.{
  ◌+◌, ◌-◌, ◌<◌, String, Bool, true, false, none, List, [], ◌∷◌, ◌≡◌, refl, ◌⊎◌, arith,
}
use jardin.Base.{
  string_eq, contains, remove, contains-remove, length-remove, contains-of_remove, remove-IsNodup,
  contains-remove_self, All, inl, inr,
}
use jardin.Flow.Types.{Step}
use jardin.Flow.Needs.{Resolved, Problem, resolve, value, problem}
use jardin.Flow.Graph.{deps_at, names_of}
use jardin.Flow.Schedule.{
  Outcome, Plan, Sched, Surroundings, add, file_outcome, all_done, first_blocked, ready, Turn, pass,
  skips, halt, launches, turn, skip, launch, sweep, collect, never_ran,
}
use jardin.Flow.Sound.{IsSound, IsSoundBut}
use jardin.Flow.Filing.{file_outcome-IsSound}

pub Resolved-cases :
    {A : Type 0} (r : Resolved A) → ((a : A) × (r ≡ value a)) ⊎ ((e : Problem) × (r ≡ problem e))
Resolved-cases (value a) = inl (a, refl)
Resolved-cases (problem e) = inr (e, refl)

pub Turn-cases :
    (t : Turn)
    → ((t ≡ pass) ⊎ ((reason : String) × (t ≡ skips reason))) ⊎ ((t ≡ halt) ⊎ (t ≡ launches))
Turn-cases pass = inl (inl refl)
Turn-cases (skips reason) = inl (inr (reason, refl))
Turn-cases halt = inr (inl refl)
Turn-cases launches = inr (inr refl)

module _ (env : Surroundings) (plan : Plan) (step : Step) (s : Sched) where
  -- What holds of a step that a turn of the loop skips or launches.
  pub record IsUp : Type 0 where
    pub new : contains s.started step.name ≡ false
    pub open_yet : contains s.done step.name ≡ false
    pub waits : all_done (deps_at plan.deps step.name) s.done ≡ true

  pub turn_skips : (reason : String) → turn env plan step s ≡ skips reason → IsUp
  unfolding turn ready
  turn_skips reason e = ground arith

  pub turn_launches :
      turn env plan step s ≡ launches
      → IsUp
        × (first_blocked (deps_at plan.deps step.name) s.blocked ≡ none)
        × (s.inflight < plan.limit)
        × (s.stopped ≡ false)
  unfolding turn ready
  turn_launches e = ground arith

module _ (env : Surroundings) (plan : Plan) (step : Step) (s : Sched) (v : IsSound plan s)
    (in_flow : contains (names_of plan.steps) step.name ≡ true) where
  landed : IsUp env plan step s → contains s.running step.name ≡ false
  landed up = ground (arith, v.running_started step.name)

  skip-IsSound :
      (reason : String) → IsUp env plan step s → IsSound plan (skip env plan step.name reason s)
  unfolding skip
  skip-IsSound reason up =
      file_outcome-IsSound plan (env.now s) (never_ran step.name reason true) s [] v (λ n ne. refl)
        up.open_yet (landed up) up.waits in_flow refl

  starting-IsSound :
      IsUp env plan step s
      → first_blocked (deps_at plan.deps step.name) s.blocked ≡ none
      → s.inflight < plan.limit
      → IsSound plan (record s {
        started = add step.name s.started;
        inflight = s.inflight + 1;
        running = step.name ∷ s.running;
      })
  starting-IsSound up fine room =
      let new = up.new in
      let open_yet = up.open_yet in
      let l = landed up in
      record {
        counted = ground arith;
        bounded = ground arith;
        running_nodup = ground arith;
        done_nodup = v.done_nodup;
        running_started = λ n h. ground (arith, v.running_started n);
        running_open = λ n h. ground (arith, v.running_open n, up.open_yet);
        open_running = λ n h o k. ground (arith, v.open_running n);
        done_started = λ n h. ground (arith, v.done_started n);
        known = λ n h. ground (arith, v.known n);
        reported = v.reported;
        reported_once = v.reported_once;
        waited = λ n h. ground (arith, v.waited n, up.waits);
        unblocked = λ n h. ground (arith, v.unblocked n);
      }

  problem-IsSound :
      (reason : String)
      → IsUp env plan step s
      → IsSound plan (file_outcome plan (env.now s) (never_ran step.name reason false) s)
  problem-IsSound reason up =
      file_outcome-IsSound plan (env.now s) (never_ran step.name reason false) s [] v (λ n ne. refl)
        up.open_yet (landed up) up.waits in_flow refl

  launch-IsSound :
      IsUp env plan step s
      → first_blocked (deps_at plan.deps step.name) s.blocked ≡ none
      → s.inflight < plan.limit
      → IsSound plan (launch env plan step s)
  unfolding launch
  launch-IsSound up fine room = elim (Resolved-cases (resolve env.itoa step s.outputs)) [
    | inl (x, e) ↦ rw (e, launch) (starting-IsSound up fine room)
    | inr (x, e) ↦ rw (e, launch) (problem-IsSound (env.describe step.name x) up)
  ]

module _ (env : Surroundings) (plan : Plan) where
  pub sweep-IsSound :
      (steps : List Step) (changed : Bool) (s : Sched)
      → All (λ step. contains (names_of plan.steps) step.name ≡ true) steps
      → IsSound plan s
      → IsSound plan (sweep env plan steps changed s).0
  unfolding sweep
  sweep-IsSound [] changed s a v = v
  sweep-IsSound (step ∷ steps) changed s a v = elim (Turn-cases (turn env plan step s)) [
    | inl (inl e) ↦ rw (e, sweep) (sweep-IsSound steps changed s a.1 v)
    | inl (inr (reason, e)) ↦
        rw (e, sweep)
          (sweep-IsSound steps true (skip env plan step.name reason s) a.1
            (skip-IsSound env plan step s v a.0 reason (turn_skips env plan step s reason e)))
    | inr (inl e) ↦ rw (e, sweep) v
    | inr (inr e) ↦
        let l = turn_launches env plan step s e in
        rw (e, sweep)
          (sweep-IsSound steps true (launch env plan step s) a.1
            (launch-IsSound env plan step s v a.0 l.0 l.1 l.2))
  ]

  -- An outcome arrives from a step in flight.
  pub collect-IsSound :
      (out : Outcome) (s : Sched)
      → IsSound plan s
      → contains s.running out.name ≡ true
      → out.result.name ≡ out.name
      → IsSound plan (collect env plan out s)
  unfolding collect
  collect-IsSound out s v flying named =
      let gone = contains-remove_self out.name s.running v.running_nodup in
      let fewer = length-remove out.name s.running flying in
      let landing : Sched = record s {
        inflight = s.inflight - 1;
        running = remove out.name s.running;
      } in
      let v' : IsSoundBut (out.name ∷ []) plan landing = record {
        counted = ground (arith, v.counted);
        bounded = ground (arith, v.bounded);
        running_nodup = remove-IsNodup out.name s.running v.running_nodup;
        done_nodup = v.done_nodup;
        running_started = λ n h. v.running_started n (contains-of_remove out.name n s.running h);
        running_open = λ n h. v.running_open n (contains-of_remove out.name n s.running h);
        open_running = λ n h o k.
            contains-remove out.name n s.running (v.open_running n h o refl) (ground arith);
        done_started = v.done_started;
        known = v.known;
        reported = v.reported;
        reported_once = v.reported_once;
        waited = v.waited;
        unblocked = λ n h. v.unblocked n (contains-of_remove out.name n s.running h);
      } in
      file_outcome-IsSound plan (env.now s) out landing (out.name ∷ []) v' (λ n ne. ground arith)
        (v.running_open out.name flying) gone
        (v.waited out.name (v.running_started out.name flying))
        (v.known out.name (v.running_started out.name flying)) named
