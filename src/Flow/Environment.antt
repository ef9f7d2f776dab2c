-- ===== src/Flow/Environment.antt =====
-- What a step finds in its environment.
use Prim.Native.Char.{code}
use Prim.Native.String.append
use jardin.Base.{
  String, ◌<>◌, Bool, true, false, not, ◌&&◌, ◌||◌, Option, none, some, List, [], ◌∷◌, ◌++◌, ◌≡◌,
  refl, ap, sym, ◌∙◌, arith,
}
use mathlib.Core.List.{append_assoc, append-nil}
use jardin.Base.{◌==◌, string_eq, contains, ◌=?◌, if◌then◌else◌, Bool-cases, inl, inr}
use jardin.Base.Dict
use jardin.Base.Dict.{Dict}
use jardin.Flow.Types.{token_env_var}
use jardin.Flow.Run.{cut_entry, is_passed, passed_on, own_entries, child_env}

-- Whether a text has an equals sign.
unfoldable pub has_equals : String → Bool
has_equals String.[] = false
has_equals (String.◌∷◌ c s) = (code c =? b'=') || has_equals s

-- The names of some variables, none with an equals sign.
abbrev pub ArePlain : Dict String String → Type 0
ArePlain [] = Unit
ArePlain ((name, value) ∷ env) = (has_equals name ≡ false) × ArePlain env

abbrev pub value_at : String → Option (String × String) → List String
value_at name none = []
value_at name (some (n, value)) = if n == name then value ∷ [] else []

-- The values that an environment gives a name, in order.
unfoldable pub values_of : String → List String → List String
unfolding cut_entry
values_of name [] = []
values_of name (entry ∷ env) = value_at name (cut_entry entry) ++ values_of name env

values_of-append :
    (name : String) (as_ bs : List String)
    → values_of name (as_ ++ bs) ≡ values_of name as_ ++ values_of name bs
unfolding values_of
values_of-append name [] bs = refl
values_of-append name (a ∷ as_) bs =
    rw (values_of-append name as_ bs)
      (sym (append_assoc (value_at name (cut_entry a)) (values_of name as_) (values_of name bs)))

cut_entry-equals : (value : String) → cut_entry (String.◌∷◌ "=" value) ≡ some ("", value)
unfolding cut_entry
cut_entry-equals value = refl

equals_first : (value : String) → "=" <> value ≡ String.◌∷◌ "=" value
equals_first value = append.cons "=" "" value ∙ ap (String.◌∷◌ "=") (append.nil value)

cut_entry-plain :
    (name value : String)
    → has_equals name ≡ false
    → cut_entry (name <> ("=" <> value)) ≡ some (name, value)
unfolding cut_entry has_equals
cut_entry-plain String.[] value h = rw (append.nil, equals_first value) refl
cut_entry-plain (String.◌∷◌ c s) value h = elim (Bool-cases (code c =? b'=')) [
  | inl equals ↦ absurd (ground (arith, h, equals))
  | inr other ↦ rw (append.cons, other, cut_entry-plain s value (ground (arith, h, other))) refl
]

abbrev chosen : Bool → List String → List String
chosen b vs = if b then vs else []

value_at-passed :
    (name : String) (names : List String) (o : Option (String × String)) (entry : String)
    (rest : List String)
    → cut_entry entry ≡ o
    → values_of name (if is_passed names o then entry ∷ rest else rest)
      ≡ chosen (is_passed names o) (value_at name o) ++ values_of name rest
unfolding values_of
value_at-passed name names none entry rest e = refl
value_at-passed name names (some (n, v)) entry rest e =
    elim (Bool-cases (is_passed names (some (n, v)))) [
      | inl passed ↦ rw (passed, e) refl
      | inr kept ↦ rw kept refl
    ]

chosen-passed :
    (name : String) (names : List String) (o : Option (String × String)) (vs : List String)
    → chosen (is_passed names o) (value_at name o)
        ++ chosen (not (name == token_env_var) && not (contains names name)) vs
      ≡ chosen (not (name == token_env_var) && not (contains names name)) (value_at name o ++ vs)
chosen-passed name names none vs = refl
chosen-passed name names (some (n, v)) vs = ground arith

values_of-passed_on :
    (name : String) (names base : List String)
    → values_of name (passed_on names base)
      ≡ chosen (not (name == token_env_var) && not (contains names name)) (values_of name base)
unfolding values_of passed_on
values_of-passed_on name names [] = ground arith
values_of-passed_on name names (entry ∷ base) =
    let o = cut_entry entry in
    value_at-passed name names o entry (passed_on names base) refl
    ∙ (ap (λ vs. chosen (is_passed names o) (value_at name o) ++ vs)
          (values_of-passed_on name names base)
        ∙ chosen-passed name names o (values_of name base))

abbrev is_none : Option String → Bool
is_none none = true
is_none (some v) = false

abbrev own_value : Option String → List String
own_value none = []
own_value (some v) = v ∷ []

values_of-own_entries :
    (name : String) (env : Dict String String)
    → ArePlain env
    → Dict.NodupKeys env
    → values_of name (own_entries env)
      ≡ chosen (not (name == token_env_var)) (own_value (Dict.lookup name env))
unfolding values_of own_entries Dict.lookup
values_of-own_entries name [] plain u = ground arith
values_of-own_entries name ((n, v) ∷ env) (h, plain) (fresh, u) =
    ground (arith, cut_entry-plain n v h, values_of-own_entries name env plain u)

contains-keys :
    (name : String) (env : Dict String String)
    → contains (Dict.keys env) name ≡ not (is_none (Dict.lookup name env))
unfolding Dict.keys Dict.lookup
contains-keys name [] = refl
contains-keys name ((n, v) ∷ env) = ground (arith, contains-keys name env)

abbrev value_or : Option String → List String → List String
value_or none vs = vs
value_or (some v) vs = v ∷ []

own_or_passed :
    (is_token : Bool) (o : Option String) (vs : List String)
    → chosen (not is_token && not (not (is_none o))) vs ++ chosen (not is_token) (own_value o)
      ≡ (if is_token then [] else value_or o vs)
own_or_passed true o vs = refl
own_or_passed false none vs = append-nil vs
own_or_passed false (some v) vs = refl

-- What a step finds under a name: its own value, or else those of this process, and never a token.
unfoldable pub expected_values : String → List String → Dict String String → List String
unfolding values_of Dict.lookup
expected_values name base env =
    if name == token_env_var then [] else value_or (Dict.lookup name env) (values_of name base)

-- In the environment that a step runs with, each name has the value that the step gives it and no other, the
-- values of this process where the step gives it none, and MYCELIUM_TOKEN has none, if the step's names
-- are different and have no equals sign.
pub values_of-child_env :
    (name : String) (base : List String) (env : Dict String String)
    → ArePlain env
    → Dict.NodupKeys env
    → values_of name (child_env base env) ≡ expected_values name base env
unfolding child_env expected_values
values_of-child_env name base env plain u =
    rw
      (
        values_of-append name (passed_on (Dict.keys env) base) (own_entries env),
        values_of-passed_on name (Dict.keys env) base,
        values_of-own_entries name env plain u,
        contains-keys name env,
      )
      (own_or_passed (name == token_env_var) (Dict.lookup name env) (values_of name base))
