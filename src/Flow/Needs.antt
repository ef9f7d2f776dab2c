-- ===== src/Flow/Needs.antt =====
-- internal/flow/needs.go: references to earlier steps' outputs, and the values they resolve to.
use Prim.Native.Char.{code}
use Prim.Native.String.{len}
use jardin.Base.{ℕ, ◌+◌, String, Bool, false, ◌||◌, Option, none, some, List, [], ◌∷◌, ◌++◌}
use jardin.Base.{◌==◌, string_eq, ltb, ◌=?◌, if◌then◌else◌}
use jardin.Base.Dict
use jardin.Base.Dict.{Dict}
use jardin.Base.Int.{ℤ}
use jardin.Base.Text.{sort_strings}
use jardin.Flow.Types.{Step, Output, max_value_bytes, max_total_value_bytes}

pub data Field : Type 0 where
  stdout stderr exit_code : Field

pub record Reference : Type 0 where
  pub step : String
  pub field : Field

-- The text before and after the last dot, if there is one.
unfoldable pub cut_last_dot : String → Option (String × String)
cut_last_dot String.[] = none
cut_last_dot (String.◌∷◌ c s) = elim (cut_last_dot s) [
  | some (a, b) ↦ some (String.◌∷◌ c a, b)
  | none ↦ if code c =? b'.' then some (String.[], s) else none
]

unfoldable pub field_of : String → Option Field
unfolding string_eq
field_of name =
    if name == "stdout"
    then some stdout
    else if name == "stderr"
    then some stderr
    else if name == "exit_code"
    then some exit_code
    else none

abbrev reference_of : String → Option Field → Option Reference
reference_of step none = none
reference_of step (some f) = some (record { step = step; field = f })

abbrev reference_at : Option (String × String) → Option Reference
reference_at none = none
reference_at (some (a, b)) =
    if a == "" then none else if b == "" then none else reference_of a (field_of b)

-- parseReference: none is any of its errors.
unfoldable pub parse_reference : String → Option Reference
unfolding cut_last_dot field_of string_eq
parse_reference ref = reference_at (cut_last_dot ref)

-- Why `resolve` or a validation refuses a step.
pub data Problem : Type 0 where
  bad_reference did_not_run truncated holds_nul too_long too_much_in_total : Problem

pub data Resolved (A : Type 0) : Type 0 where
  value : A → Resolved A
  problem : Problem → Resolved A

infixl 5 ◌>>=◌
abbrev pub ◌>>=◌ : {A B : Type 0} → Resolved A → (A → Resolved B) → Resolved B
value a >>= f = f a
problem e >>= f = problem e

-- strings.TrimRight(value, "\r\n")
unfoldable pub trim_right : String → String
trim_right String.[] = String.[]
trim_right (String.◌∷◌ c s) = elim (trim_right s) [
  | String.[] ↦ if code c =? 13 || code c =? 10 then String.[] else String.◌∷◌ c String.[]
  | String.◌∷◌ d t ↦ String.◌∷◌ c (String.◌∷◌ d t)
]

unfoldable pub has_nul : String → Bool
has_nul String.[] = false
has_nul (String.◌∷◌ c s) = code c =? 0 || has_nul s

unfoldable pub stream_value : String → Bool → Resolved String
unfolding trim_right has_nul
stream_value text cut =
    let trimmed = trim_right text in
    if cut
    then problem truncated
    else if has_nul trimmed
    then problem holds_nul
    else if ltb max_value_bytes (len trimmed)
    then problem too_long
    else value trimmed

module _ (itoa : ℤ → String) where
  -- `itoa` is strconv.Itoa.
  unfoldable pub output_field : Output → Field → Resolved String
  unfolding stream_value
  output_field o stdout = stream_value o.stdout o.stdout_cut
  output_field o stderr = stream_value o.stderr o.stderr_cut
  output_field o exit_code = value (itoa o.exit_code)

  unfoldable pub resolve_one : String → Dict String Output → Resolved String
  unfolding parse_reference output_field
  resolve_one ref outputs = elim (parse_reference ref) [
    | none ↦ problem bad_reference
    | some parsed ↦ elim (Dict.lookup parsed.step outputs) [
      | none ↦ problem did_not_run
      | some out ↦ output_field out parsed.field
    ]
  ]

  -- inheritedSecrets
  unfoldable pub inherited_secrets : String → Dict String Output → String → List String
  inherited_secrets ref outputs text = elim (parse_reference ref) [
    | none ↦ []
    | some parsed ↦ elim (Dict.lookup parsed.step outputs) [
      | none ↦ []
      | some src ↦ src.secrets ++ (if src.ephemeral then text ∷ [] else [])
    ]
  ]

  -- The loop of resolve, over the names in sorted order.
  unfoldable pub resolve_names :
      Dict String String
      → Dict String Output
      → List String
      → ℕ
      → Dict String String
      → List String
      → Resolved (Dict String String × List String)
  unfolding resolve_one inherited_secrets
  resolve_names needs outputs [] total values secret = value (values, secret)
  resolve_names needs outputs (name ∷ names) total values secret =
      let ref = elim (Dict.lookup name needs) as (λ x. String) [ none ↦ "" | some r ↦ r ] in
      resolve_one ref outputs >>= λ text.
      let total' = total + len name + len text in
      let rest =
        resolve_names needs outputs names total' (Dict.insert name text values)
          (secret ++ inherited_secrets ref outputs text) in
      if ltb max_total_value_bytes total' then problem too_much_in_total else rest

  unfoldable pub resolve : Step → Dict String Output → Resolved (Dict String String × List String)
  unfolding resolve_names sort_strings Dict.keys
  resolve step outputs =
      resolve_names step.needs outputs (sort_strings (Dict.keys step.needs)) 0 [] []

-- The set that referencedSteps adds to, by one step's references.
unfoldable pub add_references : Dict String String → List String → List String
unfolding parse_reference
add_references [] acc = acc
add_references ((_, ref) ∷ needs) acc =
    add_references needs (elim (parse_reference ref) as (λ x. List String) [
      | none ↦ acc
      | some parsed ↦ parsed.step ∷ acc
    ])

unfoldable pub referenced_steps : List Step → List String
unfolding add_references
referenced_steps [] = []
referenced_steps (s ∷ steps) = add_references s.needs (referenced_steps steps)
