-- ===== src/Flow/Validate.antt =====
-- internal/flow/flow.go and needs.go: what is checked of a flow before it may run.
use Prim.Native.Char.{code}
use jardin.Base.{
  ℕ, suc, String, Bool, true, false, not, ◌&&◌, ◌||◌, Option, none, some, List, [], ◌∷◌,
}
use jardin.Base.{◌==◌, string_eq, contains, leb, ◌=?◌, length, if◌then◌else◌}
use jardin.Base.Dict
use jardin.Base.Dict.{Dict}
use jardin.Base.Int.{is_negative, exceeds}
use jardin.Base.Text.{sort_strings}
use jardin.Flow.Types.{Step, Flow, max_timeout, token_env_var}
use jardin.Flow.Needs.{Reference, parse_reference}
use jardin.Flow.Graph.{GraphError, names_of, validate_graph}

-- What is wrong with a name that stands for an environment variable.
pub data NameError : Type 0 where
  empty unusable token repeated : NameError

pub data FlowError : Type 0 where
  unnamed misnamed no_steps : FlowError
  unnamed_step : ℕ → FlowError
  declared_twice : String → FlowError
  both_run_and_type nothing_to_run with_for_shell : String → FlowError
  negative_timeout long_timeout : String → FlowError
  secret_refused : String → NameError → FlowError
  need_refused : String → String → NameError → FlowError
  need_in_env need_unreadable need_of_itself : String → String → FlowError
  need_unknown : String → String → FlowError
  graph : GraphError → FlowError

abbrev in_range : ℕ → ℕ → ℕ → Bool
in_range lo hi n = leb lo n && leb n hi

abbrev is_letter : ℕ → Bool
is_letter n = (n =? b'_') || in_range b'a' b'z' n || in_range b'A' b'Z' n

-- The runes after the first.
unfoldable pub usable_rest : String → Bool
usable_rest String.[] = true
usable_rest (String.◌∷◌ c s) = (is_letter (code c) || in_range b'0' b'9' (code c)) && usable_rest s

unfoldable pub valid_env_name : String → Option NameError
unfolding usable_rest
valid_env_name String.[] = some empty
valid_env_name (String.◌∷◌ c s) =
    if is_letter (code c) && usable_rest s then none else some unusable

-- The loop of validateSecret, with the names that it has seen.
unfoldable pub check_secrets : List String → List String → Option NameError
unfolding valid_env_name
check_secrets [] seen = none
check_secrets (name ∷ names) seen =
    let rest = check_secrets names (name ∷ seen) in
    elim (valid_env_name name) [
      | some e ↦ some e
      | none ↦
          if name == token_env_var
          then some token
          else if contains seen name
          then some repeated
          else rest
    ]

module _ (step : Step) (known : List String) where
  -- The reference that a need holds, once it is read.
  abbrev pub check_reference : String → Option Reference → Option FlowError
  check_reference name none = some (need_unreadable step.name name)
  check_reference name (some parsed) =
      if parsed.step == step.name
      then some (need_of_itself step.name name)
      else if not (contains known parsed.step)
      then some (need_unknown step.name parsed.step)
      else none

  -- `step.Needs[name]`, which is "" for a missing key.
  abbrev pub reference_text : Option String → String
  reference_text none = ""
  reference_text (some text) = text

  unfoldable pub validate_need : String → Option FlowError
  unfolding valid_env_name parse_reference Dict.lookup
  validate_need name = elim (valid_env_name name) [
    | some e ↦ some (need_refused step.name name e)
    | none ↦
        if name == token_env_var
        then some (need_refused step.name name token)
        else if contains (Dict.keys step.env) name
        then some (need_in_env step.name name)
        else check_reference name (parse_reference (reference_text (Dict.lookup name step.needs)))
  ]

  unfoldable pub validate_names : List String → Option FlowError
  unfolding validate_need
  validate_names [] = none
  validate_names (name ∷ names) = elim (validate_need name) [
    | some e ↦ some e
    | none ↦ validate_names names
  ]

  unfoldable pub validate_needs : Option FlowError
  unfolding validate_names sort_strings Dict.keys
  validate_needs = validate_names (sort_strings (Dict.keys step.needs))

abbrev is_empty : Dict String String → Bool
is_empty [] = true
is_empty (_ ∷ _) = false

-- `trim_space` is strings.TrimSpace.
module _ (trim_space : String → String) where
  unfoldable pub validate_step : List String → Step → Option FlowError
  unfolding validate_needs check_secrets
  validate_step known s =
      let has_run = not (trim_space s.run == "") in
      let has_type = not (trim_space s.type == "") in
      if has_run && has_type
      then some (both_run_and_type s.name)
      else if not has_run && not has_type
      then some (nothing_to_run s.name)
      else if has_run && not (is_empty s.with)
      then some (with_for_shell s.name)
      else if is_negative s.timeout
      then some (negative_timeout s.name)
      else if exceeds max_timeout s.timeout
      then some (long_timeout s.name)
      else elim (check_secrets s.secret []) [
        | some e ↦ some (secret_refused s.name e)
        | none ↦ validate_needs s known
      ]

  -- The first loop of validateSteps, at the step of number `i`, with the names before it.
  unfoldable pub check_names : ℕ → List String → List Step → Option FlowError
  check_names i known [] = none
  check_names i known (s ∷ steps) =
      let rest = check_names (suc i) (s.name ∷ known) steps in
      if s.name == ""
      then some (unnamed_step i)
      else if contains known s.name
      then some (declared_twice s.name)
      else rest

  unfoldable pub validate_each : List String → List Step → Option FlowError
  unfolding validate_step
  validate_each known [] = none
  validate_each known (s ∷ steps) = elim (validate_step known s) [
    | some e ↦ some e
    | none ↦ validate_each known steps
  ]

  abbrev graph_error : Option GraphError → Option FlowError
  graph_error none = none
  graph_error (some e) = some (graph e)

  unfoldable pub validate_steps : List Step → Option FlowError
  unfolding check_names validate_each validate_graph
  validate_steps steps = elim (check_names 1 [] steps) [
    | some e ↦ some e
    | none ↦ elim (validate_each (names_of steps) steps) [
      | some e ↦ some e
      | none ↦ graph_error (validate_graph steps)
    ]
  ]

  -- `validate`, for a flow of the file `stem`.
  unfoldable pub validate : Flow → String → Option FlowError
  unfolding validate_steps
  validate f stem =
      if f.name == ""
      then some unnamed
      else if not (f.name == stem)
      then some misnamed
      else if length f.steps =? 0
      then some no_steps
      else validate_steps f.steps
