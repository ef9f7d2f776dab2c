-- ===== src/Flow/Sound.antt =====
-- The invariant of the scheduler: what is in flight, what is done, and what each waited for.
use jardin.Base.{
  ℕ, ◌≤◌, String, true, false, ◌||◌, none, List, [], ◌∷◌, ◌++◌, map, ◌≡◌, refl, ◌⊎◌, arith,
}
use mathlib.Core.List.{map-append}
use jardin.Base.{◌==◌, string_eq, contains, length, IsNodup}
use jardin.Flow.Types.{StepResult}
use jardin.Flow.Graph.{deps_at, names_of}
use jardin.Flow.Schedule.{
  Outcome, Plan, Sched, add, judge, file_outcome, all_done, first_blocked, stamped,
}

-- The names of the recorded results.
abbrev pub reported_names : List StepResult → List String
reported_names = map (λ r. r.name)

-- `landing` names the steps whose outcome has arrived and is not yet filed.
pub record IsSoundBut (landing : List String) (plan : Plan) (s : Sched) : Type 0 where
  pub counted : s.inflight ≡ length s.running
  pub bounded : s.inflight ≤ plan.limit
  pub running_nodup : IsNodup s.running
  pub done_nodup : IsNodup s.done
  pub running_started : (n : String) → contains s.running n ≡ true → contains s.started n ≡ true
  pub running_open : (n : String) → contains s.running n ≡ true → contains s.done n ≡ false
  pub open_running :
      (n : String)
      → contains s.started n ≡ true
      → contains s.done n ≡ false
      → contains landing n ≡ false
      → contains s.running n ≡ true
  pub done_started : (n : String) → contains s.done n ≡ true → contains s.started n ≡ true
  pub known : (n : String) → contains s.started n ≡ true → contains (names_of plan.steps) n ≡ true
  pub reported : (n : String) → contains (reported_names s.results) n ≡ contains s.done n
  pub reported_once : IsNodup (reported_names s.results)
  pub waited :
      (n : String) → contains s.started n ≡ true → all_done (deps_at plan.deps n) s.done ≡ true
  pub unblocked :
      (n : String)
      → contains s.running n ≡ true
      → first_blocked (deps_at plan.deps n) s.blocked ≡ none

abbrev pub IsSound : Plan → Sched → Type 0
IsSound = IsSoundBut []

-- What `add` does to membership.
contains-add : (n q : String) (ns : List String) → contains (add n ns) q ≡ (q == n || contains ns q)
contains-add n q ns = ground arith

pub all_done-add :
    (ds : List String) (n : String) (done : List String)
    → all_done ds done ≡ true
    → all_done ds (add n done) ≡ true
unfolding all_done
all_done-add [] n done h = refl
all_done-add (d ∷ ds) n done h = ground (arith, all_done-add ds n done)

pub not_waited :
    (ds : List String) (n : String) (done : List String)
    → all_done ds done ≡ true
    → contains done n ≡ false
    → contains ds n ≡ false
unfolding all_done
not_waited [] n done h new = refl
not_waited (d ∷ ds) n done h new = ground (arith, not_waited ds n done)

pub first_blocked-add :
    (ds : List String) (n : String) (blocked : List String)
    → contains ds n ≡ false
    → first_blocked ds (add n blocked) ≡ first_blocked ds blocked
unfolding first_blocked
first_blocked-add [] n blocked h = refl
first_blocked-add (d ∷ ds) n blocked h = ground (arith, first_blocked-add ds n blocked)

-- What `judge` leaves alone, and how it may block.
module _ (plan : Plan) (out : Outcome) (s : Sched) where
  judge-kept :
      ((judge plan out s).done ≡ s.done)
      × ((judge plan out s).started ≡ s.started)
      × ((judge plan out s).running ≡ s.running)
      × ((judge plan out s).inflight ≡ s.inflight)
      × ((judge plan out s).results ≡ s.results)
  unfolding judge
  judge-kept = ground arith

  judge-blocked :
      ((judge plan out s).blocked ≡ s.blocked)
      ⊎ ((judge plan out s).blocked ≡ add out.name s.blocked)
  unfolding judge
  judge-blocked = ground arith

module _ (plan : Plan) (now : ℕ) (out : Outcome) (s : Sched) where
  pub file_outcome-kept :
      ((file_outcome plan now out s).done ≡ add out.name s.done)
      × ((file_outcome plan now out s).started ≡ add out.name s.started)
      × ((file_outcome plan now out s).running ≡ s.running)
      × ((file_outcome plan now out s).inflight ≡ s.inflight)
  unfolding file_outcome
  file_outcome-kept = ground arith

  pub file_outcome-blocked :
      ((file_outcome plan now out s).blocked ≡ s.blocked)
      ⊎ ((file_outcome plan now out s).blocked ≡ add out.name s.blocked)
  unfolding file_outcome
  file_outcome-blocked = ground arith

  pub reported-file_outcome :
      reported_names (file_outcome plan now out s).results
      ≡ reported_names s.results ++ (out.result.name ∷ [])
  unfolding file_outcome
  reported-file_outcome = rw (judge_results) (
      map-append (λ (r : StepResult). r.name) s.results
        (record (out.result) { started_at = stamped now out.result.started_at } ∷ []))
    where
      judge_results :
          (file_outcome plan now out s).results
          ≡ s.results
            ++ (record (out.result) { started_at = stamped now out.result.started_at } ∷ [])
      judge_results = ground arith
