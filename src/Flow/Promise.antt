-- ===== src/Flow/Promise.antt =====
-- A flow that passes its validation runs to its end.
use jardin.Base.{ℕ, suc, ◌<◌, String, true, false, none, some, List, [], ◌∷◌, ◌≡◌, ◌≢◌, ◌∙◌, arith}
use jardin.Base.{string_eq, contains, length, All, Within, IsNodup, inl, inr}
use jardin.Base.Dict
use jardin.Base.Dict.{Dict, NodupKeys}
use jardin.Base.Text.Sorting.{contains-sort_strings}
use jardin.Flow.Types.{Step}
use jardin.Flow.Needs.{Reference, parse_reference}
use jardin.Flow.Graph.{
  declared, dependencies, names_of, check_declared, check_steps, validate_graph, find_cycle, stuck,
  GraphError,
}
use jardin.Flow.Validate.{
  validate_need, validate_names, validate_needs, validate_step, check_names, validate_each,
  validate_steps,
}
use jardin.Flow.Schedule.{Outcome, Sched, Surroundings, start, new_plan, drive}
use jardin.Flow.Sound.{reported_names}
use jardin.Flow.Drive.{IsFair}
use jardin.Flow.Finish.{IsAcyclic, drive-reports_all}
use jardin.Flow.Topology.{IsClosed, find_cycle_lem}
use jardin.Flow.Accepted.{IsStepKnown, NeedsKnown, dependencies_from-Within}

check_names-new :
    (trim : String → String) (i : ℕ) (known : List String) (steps : List Step)
    → check_names trim i known steps ≡ none
    → IsNodup (names_of steps)
      × ((q : String) → contains (names_of steps) q ≡ true → contains known q ≡ false)
unfolding check_names
check_names-new trim i known [] e = (tt, λ q h. absurd (cc))
check_names-new trim i known (s ∷ steps) e =
    let rest = check_names-new trim (suc i) (s.name ∷ known) steps (ground (arith, e)) in
    ((ground (arith, rest.1 s.name), rest.0), λ q h. ground (arith, rest.1 q, e, h))

validate_names-each :
    (s : Step) (known names : List String)
    → validate_names s known names ≡ none
    → (name : String) → contains names name ≡ true
    → validate_need s known name ≡ none
unfolding validate_names
validate_names-each s known [] e name h = absurd (cc)
validate_names-each s known (n ∷ names) e name h =
    ground (arith, e, h, validate_names-each s known names (ground (arith, e)) name)

contains-keys :
    (needs : Dict String String) (name ref : String)
    → Dict.lookup name needs ≡ some ref
    → contains (Dict.keys needs) name ≡ true
unfolding Dict.lookup Dict.keys
contains-keys [] name ref e = absurd (cc)
contains-keys ((k, r) ∷ needs) name ref e = ground (arith, contains-keys needs name ref, e)

validate_need-known :
    (s : Step) (known : List String) (name ref : String) (parsed : Reference)
    → validate_need s known name ≡ none
    → Dict.lookup name s.needs ≡ some ref
    → parse_reference ref ≡ some parsed
    → contains known parsed.step ≡ true
unfolding validate_need
validate_need-known s known name ref parsed e l p = ground (arith, e, l, p)

validate_needs-known :
    (s : Step) (known : List String) → validate_needs s known ≡ none → NeedsKnown known s.needs
unfolding validate_needs
validate_needs-known s known e name ref l parsed p =
    validate_need-known s known name ref parsed
      (validate_names-each s known _ e name
        (contains-sort_strings _ name ∙ contains-keys s.needs name ref l))
      l p

validate_step-known :
    (trim : String → String) (known : List String) (s : Step)
    → validate_step trim known s ≡ none
    → NeedsKnown known s.needs
unfolding validate_step
validate_step-known trim known s e = validate_needs-known s known (ground (arith, e))

check_declared-known :
    (name : String) (known names : List String)
    → check_declared name known names ≡ none
    → Within names known
unfolding check_declared
check_declared-known name known [] e = λ q h. absurd (cc)
check_declared-known name known (d ∷ ds) e =
    λ q h. ground (arith, e, h, check_declared-known name known ds (ground (arith, e)) q)

All-IsStepKnown :
    (trim : String → String) (known : List String) (steps : List Step)
    → validate_each trim known steps ≡ none
    → check_steps known steps ≡ none
    → All (IsStepKnown known) steps
unfolding validate_each check_steps
All-IsStepKnown trim known [] e c = tt
All-IsStepKnown trim known (s ∷ steps) e c = (
  record {
    declared_known = check_declared-known s.name known (declared s.depends_on) (ground (arith, c));
    needs_known = validate_step-known trim known s (ground (arith, e));
  },
  All-IsStepKnown trim known steps (ground (arith, e)) (ground (arith, c)),
)

-- What an accepted flow has.
record IsAccepted (steps : List Step) : Type 0 where
  distinct : IsNodup (names_of steps)
  closed : IsClosed steps
  cycle_free : (e : GraphError) → find_cycle steps ≢ stuck e

accepted :
    (trim : String → String) (steps : List Step)
    → All (λ s. NodupKeys s.needs) steps
    → validate_steps trim steps ≡ none
    → IsAccepted steps
unfolding validate_steps validate_graph dependencies
accepted trim steps unique e =
    let known = names_of steps in
    record {
      distinct = (check_names-new trim 1 [] steps (ground (arith, e))).0;
      closed =
          dependencies_from-Within known none steps unique
            (All-IsStepKnown trim known steps (ground (arith, e)) (ground (arith, e))) (λ q h. h)
            tt;
      cycle_free = λ x stop. ground (arith, e, stop);
    }

new_plan-room : (steps : List Step) (limit : ℕ) → 0 < (new_plan steps limit).limit
unfolding new_plan
new_plan-room steps limit = ground arith

acyclic : (steps : List Step) (limit : ℕ) → IsAccepted steps → IsAcyclic (new_plan steps limit)
acyclic steps limit a = elim (find_cycle_lem steps limit a.closed) [
  | inl (w, found, order) ↦ order
  | inr (e, found, loop) ↦ absurd (a.cycle_free e found)
]

-- Let a flow's steps pass the validation, where each step's `needs` has each name once, and let
-- outcomes come only from steps in flight, each result with its step's name. Then a run of the flow
-- from the start, under any limit, with fuel one more than the number of steps, ends with exactly
-- one result for each step and none for any other name.
pub validate_steps-runs :
    (trim : String → String) (steps : List Step) (limit : ℕ)
    → (env : Surroundings) (arrive : Sched → Outcome) → All (λ s. NodupKeys s.needs) steps
    → validate_steps trim steps ≡ none
    → IsFair arrive
    → ((n : String)
        → contains
            (reported_names
              (drive env (new_plan steps limit) arrive (suc (length steps)) start).results)
            n
          ≡ contains (names_of steps) n)
      × IsNodup (
          reported_names
            (drive env (new_plan steps limit) arrive (suc (length steps)) start).results)
unfolding new_plan
validate_steps-runs trim steps limit env arrive unique e fair =
    let a : IsAccepted steps = accepted trim steps unique e in
    drive-reports_all env (new_plan steps limit) arrive fair (acyclic steps limit a) a.distinct
      (new_plan-room steps limit)
