-- ===== src/Flow/Sizes.antt =====
-- The values that a step is given fit into the environment of a command.
use Prim.Native.String.{len}
use jardin.Base.{ℕ, ◌+◌, ◌≤◌, String, none, some, List, [], ◌∷◌, ◌++◌, ◌≡◌, arith}
use jardin.Base.{string_eq, inl, inr}
use jardin.Base.Dict
use jardin.Base.Dict.{Dict}
use jardin.Base.Int.{ℤ}
use jardin.Flow.Types.{Step, Output}
use jardin.Flow.Needs.{value, resolve_one, inherited_secrets, resolve_names, resolve}
use jardin.Flow.Sweep.{Resolved-cases}

-- What the names and values of an environment take together.
unfoldable pub size : Dict String String → ℕ
size [] = 0
size ((name, text) ∷ values) = len name + len text + size values

size-insert :
    (name text : String) (values : Dict String String)
    → size (Dict.insert name text values) ≤ size values + len name + len text
unfolding size Dict.insert
size-insert name text [] = omega arith
size-insert name text ((k, v) ∷ values) = ground (arith, size-insert name text values)

module _ (itoa : ℤ → String) (needs : Dict String String) (outputs : Dict String Output) where
  resolve_names-bounded :
      (names : List String) (total : ℕ) (values : Dict String String) (secret : List String)
      → (r : Dict String String × List String) → size values ≤ total
      → total ≤ 262144
      → resolve_names itoa needs outputs names total values secret ≡ value r
      → size r.0 ≤ 262144
  unfolding resolve_names
  resolve_names-bounded [] total values secret r fits small e = ground (arith, e)
  resolve_names-bounded (name ∷ names) total values secret r fits small e =
      let ref : String = elim (Dict.lookup name needs) as (λ x. String) [
        | none ↦ ""
        | some r ↦ r
      ] in
      elim (Resolved-cases (resolve_one itoa ref outputs)) [
        | inl (text, found) ↦ ground (
          arith,
          e,
          found,
          size-insert name text values,
          resolve_names-bounded names (total + len name + len text) (Dict.insert name text values)
              (secret ++ inherited_secrets itoa ref outputs text) r,
        )
        | inr (x, found) ↦ ground (arith, e, found)
      ]

-- If a step's values are resolved, their names and texts are at most 262144 bytes together.
pub size-resolve :
    (itoa : ℤ → String) (step : Step) (outputs : Dict String Output)
    → (r : Dict String String × List String) → resolve itoa step outputs ≡ value r
    → size r.0 ≤ 262144
unfolding resolve size
size-resolve itoa step outputs r e =
    resolve_names-bounded itoa step.needs outputs _ 0 [] [] r (omega arith) (omega arith) e
