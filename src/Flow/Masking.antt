-- ===== src/Flow/Masking.antt =====
-- What an ephemeral step printed stays masked in the steps that are given it.
use Prim.Native.String.{len}
use jardin.Base.{ℕ, ◌+◌, String, true, none, some, List, [], ◌∷◌, ◌++◌, ◌≡◌, arith}
use jardin.Base.{string_eq, contains, contains-append, inl, inr}
use jardin.Base.Dict
use jardin.Base.Dict.{Dict, lookup-insert}
use jardin.Base.Int.{ℤ}
use jardin.Flow.Types.{Step, Output}
use jardin.Flow.Needs.{
  Reference, parse_reference, value, resolve_one, inherited_secrets, resolve_names, resolve,
}
use jardin.Flow.Sweep.{Resolved-cases}

-- The need `name` refers to the step whose output is `out`.
pub record IsFrom (needs : Dict String String) (outputs : Dict String Output) (name : String)
    (out : Output) : Type 0 where
  pub ref : String
  pub parsed : Reference
  pub is_need : Dict.lookup name needs ≡ some ref
  pub reads : parse_reference ref ≡ some parsed
  pub ran : Dict.lookup parsed.step outputs ≡ some out

-- Each value that comes from an ephemeral step is a secret.
abbrev IsMasked :
    Dict String String → Dict String Output → Dict String String → List String → Type 0
IsMasked needs outputs values secret =
    (name text : String) (out : Output)
    → Dict.lookup name values ≡ some text
    → IsFrom needs outputs name out
    → out.ephemeral ≡ true
    → contains secret text ≡ true

contains-last : (ps : List String) (q : String) → contains (ps ++ (q ∷ [])) q ≡ true
contains-last ps q = ground (arith, contains-append ps (q ∷ []) q)

module _ (itoa : ℤ → String) (needs : Dict String String) (outputs : Dict String Output) where
  inherited_secrets-masks :
      (ref text : String) (parsed : Reference) (out : Output)
      → parse_reference ref ≡ some parsed
      → Dict.lookup parsed.step outputs ≡ some out
      → out.ephemeral ≡ true
      → contains (inherited_secrets itoa ref outputs text) text ≡ true
  unfolding inherited_secrets
  inherited_secrets-masks ref text parsed out p l e =
      rw (p, l, e, inherited_secrets) (contains-last out.secrets text)

  abbrev ref_of : String → String
  ref_of name = elim (Dict.lookup name needs) as (λ x. String) [ none ↦ "" | some r ↦ r ]

  insert-IsMasked :
      (name text : String) (values : Dict String String) (secret : List String)
      → IsMasked needs outputs values secret
      → IsMasked needs outputs
          (Dict.insert name text values)
          (secret ++ inherited_secrets itoa (ref_of name) outputs text)
  insert-IsMasked name text values secret m q body out l f e = ground (
    arith,
    l,
    e,
    f.is_need,
    f.reads,
    f.ran,
    lookup-insert q name text values,
    m q body out,
    contains-append secret (inherited_secrets itoa (ref_of name) outputs text) body,
    inherited_secrets-masks f.ref text f.parsed out f.reads f.ran e,
  )

  resolve_names-IsMasked :
      (names : List String) (total : ℕ) (values : Dict String String) (secret : List String)
      → (r : Dict String String × List String) → IsMasked needs outputs values secret
      → resolve_names itoa needs outputs names total values secret ≡ value r
      → IsMasked needs outputs r.0 r.1
  unfolding resolve_names
  resolve_names-IsMasked [] total values secret r m e =
      λ q body out l f x. ground (arith, e, m q body out, l, x)
  resolve_names-IsMasked (name ∷ names) total values secret r m e =
      elim (Resolved-cases (resolve_one itoa (ref_of name) outputs)) [
        | inl (text, found) ↦
            resolve_names-IsMasked names (total + len name + len text)
              (Dict.insert name text values)
              (secret ++ inherited_secrets itoa (ref_of name) outputs text) r
              (insert-IsMasked name text values secret m) (ground (arith, e, found))
        | inr (x, found) ↦ absurd (ground (arith, e, found))
      ]

-- If a step's values are resolved, then each of them that comes from an ephemeral step is among the
-- secrets that stay masked in the step that is given it.
pub resolve-masks :
    (itoa : ℤ → String) (step : Step) (outputs : Dict String Output)
    → (r : Dict String String × List String) → (name text : String) (out : Output)
    → resolve itoa step outputs ≡ value r
    → Dict.lookup name r.0 ≡ some text
    → IsFrom step.needs outputs name out
    → out.ephemeral ≡ true
    → contains r.1 text ≡ true
unfolding resolve Dict.lookup
resolve-masks itoa step outputs r name text out e =
    resolve_names-IsMasked itoa step.needs outputs _ 0 [] [] r (λ q body o l f x. absurd (cc)) e
      name text out
