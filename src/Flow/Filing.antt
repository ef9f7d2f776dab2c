-- ===== src/Flow/Filing.antt =====
-- Filing the outcome of a step that was not done keeps the invariant.
use jardin.Base.{ℕ, String, true, false, List, [], ◌∷◌, ◌≡◌, ◌≢◌, arith}
use jardin.Base.{string_eq, contains, IsNodup-append, contains-append, inl, inr}
use jardin.Flow.Graph.{deps_at, names_of}
use jardin.Flow.Schedule.{Outcome, Plan, Sched, file_outcome, all_done, first_blocked}
use jardin.Flow.Sound.{
  IsSound, IsSoundBut, all_done-add, not_waited, first_blocked-add, file_outcome-kept,
  file_outcome-blocked, reported_names, reported-file_outcome,
}

module _ (plan : Plan) (now : ℕ) (out : Outcome) (s : Sched) where
  abbrev filed : Sched
  filed = file_outcome plan now out s

  filed_unblocked :
      (n : String)
      → all_done (deps_at plan.deps n) s.done ≡ true
      → contains s.done out.name ≡ false
      → first_blocked (deps_at plan.deps n) filed.blocked
        ≡ first_blocked (deps_at plan.deps n) s.blocked
  filed_unblocked n w fresh = elim (file_outcome-blocked plan now out s) [
    | inl same ↦ rw same
    | inr more ↦ rw more (
        first_blocked-add (deps_at plan.deps n) out.name s.blocked
          (not_waited (deps_at plan.deps n) out.name s.done w fresh))
  ]

  -- Its own dependencies are done, and it is no longer in flight.
  pub file_outcome-IsSound :
      (landing : List String)
      → IsSoundBut landing plan s
      → ((n : String) → n ≢ out.name → contains landing n ≡ false)
      → contains s.done out.name ≡ false
      → contains s.running out.name ≡ false
      → all_done (deps_at plan.deps out.name) s.done ≡ true
      → contains (names_of plan.steps) out.name ≡ true
      → out.result.name ≡ out.name
      → IsSound plan filed
  file_outcome-IsSound landing v only fresh landed w in_flow named =
      let k = file_outcome-kept plan now out s in
      record {
        counted = ground (arith, k);
        bounded = ground (arith, k);
        running_nodup = ground (arith, k);
        done_nodup = ground (arith, k);
        running_started = λ n h. ground (arith, k, v.running_started n);
        running_open = λ n h. ground (arith, k, v.running_open n);
        open_running = λ n h o l. ground (arith, k, v.open_running n, only n);
        done_started = λ n h. ground (arith, k, v.done_started n);
        known = λ n h. ground (arith, k, v.known n);
        reported = λ n. rw reported-file_outcome (
            ground (
              arith,
              contains-append (reported_names s.results) (out.result.name ∷ []) n,
              k,
              v.reported n,
            ));
        reported_once = rw reported-file_outcome (
            IsNodup-append (reported_names s.results) out.result.name v.reported_once
              (ground (arith, v.reported out.name)));
        waited = λ n h.
            rw k.0
              (all_done-add (deps_at plan.deps n) out.name s.done (ground (arith, k, v.waited n)));
        unblocked = λ n h.
            ground (arith, k, filed_unblocked n, v.unblocked n, v.waited n, v.running_started n);
      }
