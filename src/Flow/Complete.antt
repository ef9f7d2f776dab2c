-- ===== src/Flow/Complete.antt =====
-- A run on enough fuel records every step of an acyclic flow exactly once.
use jardin.Base.{
  ◌≤◌, ◌<◌, String, Bool, true, false, List, [], ◌∷◌, ◌≡◌, refl, ap, sym, ◌∙◌, ◌⊎◌, arith,
}
use jardin.Base.{
  contains, string_eq, All, Within, IsNodup, length-le-of_Within, length, Bool-cases, inl, inr,
}
use jardin.Base.Dict.{Dict}
use jardin.Flow.Types.{Step}
use jardin.Flow.Needs.{resolve}
use jardin.Flow.Graph.{deps_at, names_of}
use jardin.Flow.Schedule.{
  Plan, Sched, Surroundings, pass, halt, all_done, ready, turn, skip, launch, sweep, never_ran,
}
use jardin.Flow.Sound.{IsSound, file_outcome-kept}
use jardin.Flow.Sweep.{Resolved-cases, Turn-cases, turn_skips, turn_launches}

-- Each name in the list depends only on names that stand behind it.
abbrev pub IsOrdered : Dict String (List String) → List String → Type 0
IsOrdered deps [] = Unit
IsOrdered deps (n ∷ ns) = (all_done (deps_at deps n) ns ≡ true) × IsOrdered deps ns

all_done-Within :
    (ds ns done : List String) → all_done ds ns ≡ true → Within ns done → all_done ds done ≡ true
unfolding all_done
all_done-Within [] ns done h w = refl
all_done-Within (d ∷ ds) ns done h w = ground (arith, w d, all_done-Within ds ns done)

-- Either all is done, or some step is not that has nothing left to wait for.
frontier :
    (deps : Dict String (List String)) (ns done : List String)
    → IsOrdered deps ns
    → Within ns done
      ⊎ ((n : String) × (contains ns n ≡ true)
          × (contains done n ≡ false)
          × (all_done (deps_at deps n) done ≡ true))
frontier deps [] done o = inl (λ q h. absurd (cc))
frontier deps (n ∷ ns) done (waits, o) = elim (frontier deps ns done o) [
  | inl all ↦ elim (Bool-cases (contains done n)) [
    | inl old ↦ inl (λ q h. ground (arith, all q))
    | inr new ↦ inr (n, ground arith, new, all_done-Within (deps_at deps n) ns done waits all)
  ]
  | inr (m, here, new, w) ↦ inr (m, ground arith, new, w)
]

module _ (env : Surroundings) (plan : Plan) where
  sweep_changed : (steps : List Step) (s : Sched) → (sweep env plan steps true s).1 ≡ true
  unfolding sweep
  sweep_changed [] s = refl
  sweep_changed (step ∷ steps) s = elim (Turn-cases (turn env plan step s)) [
    | inl (inl e) ↦ rw (e, sweep) (sweep_changed steps s)
    | inl (inr (reason, e)) ↦ rw (e, sweep) (sweep_changed steps (skip env plan step.name reason s))
    | inr (inl e) ↦ rw (e, sweep)
    | inr (inr e) ↦ rw (e, sweep) (sweep_changed steps (launch env plan step s))
  ]

  turn_halts : (step : Step) (s : Sched) → turn env plan step s ≡ halt → plan.limit ≤ s.inflight
  unfolding turn
  turn_halts step s e = ground arith

  turn_passes :
      (step : Step) (s : Sched)
      → turn env plan step s ≡ pass
      → contains s.started step.name ≡ false
      → contains s.done step.name ≡ false
      → all_done (deps_at plan.deps step.name) s.done ≡ false
  unfolding turn ready
  turn_passes step s e new open_yet = ground arith

  -- A sweep that changes nothing passes every step, if there is room to launch.
  quiet_sweep :
      (steps : List Step) (s : Sched)
      → s.inflight < plan.limit
      → (sweep env plan steps false s).1 ≡ false
      → ((sweep env plan steps false s).0 ≡ s) × All (λ step. turn env plan step s ≡ pass) steps
  unfolding sweep
  quiet_sweep [] s room q = (refl, tt)
  quiet_sweep (step ∷ steps) s room q = elim (Turn-cases (turn env plan step s)) [
    | inl (inl e) ↦
        let same : sweep env plan (step ∷ steps) false s ≡ sweep env plan steps false s =
          rw (e, sweep) in
        let r = quiet_sweep steps s room (ap (λ t. t.1) (sym same) ∙ q) in
        (ap (λ t. t.0) same ∙ r.0, (e, r.1))
    | inl (inr (reason, e)) ↦
        absurd (cc (q, e, sweep_changed steps (skip env plan step.name reason s)))
    | inr (inl e) ↦ absurd (omega (arith, turn_halts step s e))
    | inr (inr e) ↦ absurd (cc (q, e, sweep_changed steps (launch env plan step s)))
  ]

  -- What a sweep adds.
  record Grows (s t : Sched) (changed : Bool) : Type 0 where
    done : length s.done ≤ length t.done
    inflight : s.inflight ≤ t.inflight
    more : changed ≡ true → (length s.done < length t.done) ⊎ (0 < t.inflight)

  launch-Grows :
      (step : Step) (s : Sched)
      → contains s.done step.name ≡ false
      → Grows s (launch env plan step s) true
  unfolding launch
  launch-Grows step s new = elim (Resolved-cases (resolve env.itoa step s.outputs)) [
    | inl (x, e) ↦ rw (e, launch) (omega arith)
    | inr (x, e) ↦
        rw (e, launch)
          (ground (
            arith,
            file_outcome-kept plan (env.now s)
                (never_ran step.name (env.describe step.name x) false) s,
          ))
  ]

  skip-Grows :
      (name reason : String) (s : Sched)
      → contains s.done name ≡ false
      → Grows s (skip env plan name reason s) true
  unfolding skip
  skip-Grows name reason s new =
      ground (arith, file_outcome-kept plan (env.now s) (never_ran name reason true) s)

  joined :
      (steps : List Step) (changed : Bool) (s t : Sched)
      → Grows s t true
      → (length t.done ≤ length (sweep env plan steps true t).0.done)
        × (t.inflight ≤ (sweep env plan steps true t).0.inflight)
        × ((sweep env plan steps true t).1 ≡ true
            → true ≡ false
            → (length t.done < length (sweep env plan steps true t).0.done)
              ⊎ (0 < (sweep env plan steps true t).0.inflight))
      → (length s.done ≤ length (sweep env plan steps true t).0.done)
        × (s.inflight ≤ (sweep env plan steps true t).0.inflight)
        × ((sweep env plan steps true t).1 ≡ true
            → changed ≡ false
            → (length s.done < length (sweep env plan steps true t).0.done)
              ⊎ (0 < (sweep env plan steps true t).0.inflight))
  joined steps changed s t g h = ground arith

  pub sweep-Grows :
      (steps : List Step) (changed : Bool) (s : Sched)
      → (length s.done ≤ length (sweep env plan steps changed s).0.done)
        × (s.inflight ≤ (sweep env plan steps changed s).0.inflight)
        × ((sweep env plan steps changed s).1 ≡ true
            → changed ≡ false
            → (length s.done < length (sweep env plan steps changed s).0.done)
              ⊎ (0 < (sweep env plan steps changed s).0.inflight))
  unfolding sweep
  sweep-Grows [] changed s = (omega arith, omega arith, λ e f. absurd (cc))
  sweep-Grows (step ∷ steps) changed s = elim (Turn-cases (turn env plan step s)) [
    | inl (inl e) ↦ rw (e, sweep) (sweep-Grows steps changed s)
    | inl (inr (reason, e)) ↦
        let t : Sched = skip env plan step.name reason s in
        rw (e, sweep)
          (joined steps changed s t
            (skip-Grows step.name reason s (turn_skips env plan step s reason e).open_yet)
            (sweep-Grows steps true t))
    | inr (inl e) ↦ rw (e, sweep) (omega arith, omega arith, λ x f. absurd (cc))
    | inr (inr e) ↦
        let t : Sched = launch env plan step s in
        rw (e, sweep)
          (joined steps changed s t
            (launch-Grows step s (turn_launches env plan step s e).0.open_yet)
            (sweep-Grows steps true t))
  ]

empty : (ns : List String) (n : String) → contains ns n ≡ true → length ns ≡ 0 → ⊥
empty [] n h e = cc
empty (m ∷ ns) n h e = omega arith

-- The step of a name that a passing sweep passed.
passed :
    (env : Surroundings) (plan : Plan) (steps : List Step) (s : Sched) (n : String)
    → All (λ step. turn env plan step s ≡ pass) steps
    → contains (names_of steps) n ≡ true
    → contains s.started n ≡ false
    → contains s.done n ≡ false
    → all_done (deps_at plan.deps n) s.done ≡ false
passed env plan [] s n a here new open_yet = absurd (cc)
passed env plan (step ∷ steps) s n (p, a) here new open_yet = elim (string_eq.dec n step.name) [
  | yes e ↦ rw e (turn_passes env plan step s p (rw e at new) (rw e at open_yet))
  | no ne ↦ passed env plan steps s n a (ground arith) new open_yet
]

module _ (env : Surroundings) (plan : Plan) (order : List String)
    (ordered : IsOrdered plan.deps order) (covers : Within (names_of plan.steps) order)
    (only : Within order (names_of plan.steps)) (distinct : IsNodup (names_of plan.steps))
    (room : 0 < plan.limit) where
  -- With nothing in flight, a sweep that changes nothing finds every step done.
  pub quiet-done :
      (s : Sched)
      → IsSound plan s
      → (sweep env plan plan.steps false s).0.inflight ≡ 0
      → (sweep env plan plan.steps false s).1 ≡ false
      → length (names_of plan.steps) ≤ length s.done
  quiet-done s v still quiet =
      let none_fly : s.inflight ≡ 0 = omega (arith, sweep-Grows env plan plan.steps false s) in
      let r = quiet_sweep env plan plan.steps s (omega (arith, none_fly)) quiet in
      elim (frontier plan.deps order s.done ordered) [
        | inl all ↦
            length-le-of_Within (names_of plan.steps) s.done distinct (λ q h. all q (covers q h))
        | inr (n, here, new, w) ↦ elim (Bool-cases (contains s.started n)) [
          | inl started ↦
              absurd
                (empty s.running n (v.open_running n started new refl) (ground (arith, v.counted)))
          | inr not_started ↦
              absurd (cc (w, passed env plan plan.steps s n r.1 (only n here) not_started new))
        ]
      ]
