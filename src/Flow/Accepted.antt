-- ===== src/Flow/Accepted.antt =====
-- What a flow that passes its validation has: different names, and dependencies that are its steps.
use jardin.Base.{String, true, Option, none, some, List, [], ◌∷◌, ◌≡◌, sym, ◌∙◌, arith}
use jardin.Base.{string_eq, contains, All, Within, Option-cases, inl, inr}
use jardin.Base.Dict
use jardin.Base.Dict.{Dict, NodupKeys}
use jardin.Base.Text.Sorting.{contains-sort_strings}
use jardin.Flow.Types.{Step}
use jardin.Flow.Needs.{Reference, parse_reference}
use jardin.Flow.Graph.{
  add_name, add_names, add_need_steps, without, waits_of, declared_waits, declared,
  dependencies_from, deps_at, names_of,
}

-- The references in `needs` that can be read name known steps.
abbrev pub NeedsKnown : List String → Dict String String → Type 0
NeedsKnown known needs =
    (name ref : String)
    → Dict.lookup name needs ≡ some ref
    → (parsed : Reference) → parse_reference ref ≡ some parsed
    → contains known parsed.step ≡ true

pub record IsStepKnown (known : List String) (s : Step) : Type 0 where
  pub declared_known : Within (declared s.depends_on) known
  pub needs_known : NeedsKnown known s.needs

add_names-Within :
    (ns waits known : List String)
    → Within ns known
    → Within waits known
    → Within (add_names ns waits) known
unfolding add_names
add_names-Within [] waits known w v = v
add_names-Within (n ∷ ns) waits known w v =
    add_names-Within ns (add_name n waits) known (λ q h. w q (ground (arith, h)))
      (λ q h. ground (arith, v q, w q, h))

add_need_steps-Within :
    (needs : Dict String String) (waits known : List String)
    → NodupKeys needs
    → NeedsKnown known needs
    → Within waits known
    → Within (add_need_steps needs waits) known
unfolding add_need_steps Dict.lookup
add_need_steps-Within [] waits known u k v = v
add_need_steps-Within ((name, ref) ∷ needs) waits known u k v =
    let later : NeedsKnown known needs = λ m r e. k m r (ground (arith, e, u.0)) in
    elim (Option-cases (parse_reference ref)) [
      | inl bad ↦ rw (bad, add_need_steps) (add_need_steps-Within needs waits known u.1 later v)
      | inr (parsed, good) ↦
          rw (good, add_need_steps)
            (add_need_steps-Within needs (add_name parsed.step waits) known u.1 later
              (λ q h. ground (arith, v q, k name ref (ground arith) parsed good, h)))
    ]

without-Within :
    (name : String) (ns known : List String) → Within ns known → Within (without name ns) known
unfolding without
without-Within name [] known w = w
without-Within name (n ∷ ns) known w =
    λ q h. ground (arith, w q, without-Within name ns known (λ p k. w p (ground (arith, k))) q, h)

-- The step before, if there is one, is known.
abbrev IsKnown : List String → Option String → Type 0
IsKnown known none = Unit
IsKnown known (some before) = contains known before ≡ true

declared_waits-Within :
    (known : List String) (given : Option (List String)) (previous : Option String)
    → Within (declared given) known
    → IsKnown known previous
    → Within (declared_waits given previous) known
declared_waits-Within known (some names) previous w k =
    add_names-Within names [] known w (λ q h. absurd (cc))
declared_waits-Within known none none w k = λ q h. absurd (cc)
declared_waits-Within known none (some before) w k = λ q h. ground (arith, k, h)

waits_of-Within :
    (known : List String) (previous : Option String) (s : Step)
    → NodupKeys s.needs
    → IsStepKnown known s
    → IsKnown known previous
    → Within (waits_of previous s) known
unfolding waits_of
waits_of-Within known previous s u c k q h =
    without-Within s.name _ known
      (add_need_steps-Within s.needs (declared_waits s.depends_on previous) known u c.needs_known
        (declared_waits-Within known s.depends_on previous c.declared_known k))
      q (sym (contains-sort_strings _ q) ∙ h)

pub dependencies_from-Within :
    (known : List String) (previous : Option String) (steps : List Step)
    → All (λ s. NodupKeys s.needs) steps
    → All (IsStepKnown known) steps
    → Within (names_of steps) known
    → IsKnown known previous
    → (n : String) → Within (deps_at (dependencies_from previous steps) n) known
unfolding dependencies_from deps_at Dict.lookup
dependencies_from-Within known previous [] u c w k n = λ q h. absurd (cc)
dependencies_from-Within known previous (s ∷ steps) u c w k n = λ q h. ground (
  arith,
  waits_of-Within known previous s u.0 c.0 k q,
  dependencies_from-Within known (some s.name) steps u.1 c.1 (λ p j. w p (ground (arith, j)))
      (w s.name (ground arith)) n q,
  h,
)
