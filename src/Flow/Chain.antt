-- ===== src/Flow/Chain.antt =====
-- Chains of dependencies, and the one that the cycle search reports.
use jardin.Base.{String, true, List, [], ◌∷◌, ◌++◌, ◌≡◌, refl, arith, ap}
use jardin.Base.{◌==◌, string_eq, contains, Bool-cases, inl, inr}
use jardin.Base.Dict.{Dict}
use jardin.Flow.Graph.{deps_at, cycle_from, GraphError, cycle, on_itself, on_unknown, out_of_fuel}

module _ (deps : Dict String (List String)) where
  -- Each name depends on the next.
  abbrev pub IsChain : List String → Type 0
  IsChain [] = Unit
  IsChain (n ∷ []) = Unit
  IsChain (n ∷ m ∷ ns) = (contains (deps_at deps n) m ≡ true) × IsChain (m ∷ ns)

  -- The same from the innermost name outwards.
  abbrev pub IsPath : List String → Type 0
  IsPath [] = Unit
  IsPath (n ∷ []) = Unit
  IsPath (n ∷ m ∷ ns) = (contains (deps_at deps m) n ≡ true) × IsPath (m ∷ ns)

  -- The error is a cycle: a chain that ends where it starts.
  abbrev pub IsCycle : GraphError → Type 0
  IsCycle (cycle ns) =
      ((d : String) × (rest : List String) × (ns ≡ d ∷ (rest ++ (d ∷ [])))) × IsChain ns
  IsCycle (on_itself n) = ⊥
  IsCycle (on_unknown n m) = ⊥
  IsCycle out_of_fuel = ⊥

  IsChain-add_last :
      (ns : List String) (n x : String)
      → IsChain (ns ++ (n ∷ []))
      → contains (deps_at deps n) x ≡ true
      → IsChain ((ns ++ (n ∷ [])) ++ (x ∷ []))
  IsChain-add_last [] n x c e = (e, tt)
  IsChain-add_last (m ∷ []) n x c e = (c.0, (e, tt))
  IsChain-add_last (m ∷ k ∷ ns) n x c e = (c.0, IsChain-add_last (k ∷ ns) n x c.1 e)

  cycle_from-IsChain :
      (n : String) (ns : List String) (d x : String)
      → IsPath (n ∷ ns)
      → contains (n ∷ ns) d ≡ true
      → contains (deps_at deps n) x ≡ true
      → IsChain (cycle_from (n ∷ ns) d ++ (x ∷ []))
  unfolding cycle_from
  cycle_from-IsChain n [] d x p h e = ground (arith)
  cycle_from-IsChain n (m ∷ ms) d x p h e =
      let longer = cycle_from-IsChain m ms d n p.1 in
      elim (Bool-cases (n == d)) [
        | inl same ↦ ground (arith, same)
        | inr other ↦
            rw (other, cycle_from)
              (IsChain-add_last (cycle_from (m ∷ ms) d) n x (longer (ground (arith, other)) p.0) e)
      ]

cycle_from_starts :
    (ns : List String) (d : String)
    → contains ns d ≡ true
    → (rest : List String) × (cycle_from ns d ≡ d ∷ rest)
unfolding cycle_from
cycle_from_starts [] d h = absurd (cc)
cycle_from_starts (n ∷ ns) d h = elim (Bool-cases (n == d)) [
  | inl same ↦ ([], ground (arith, same))
  | inr other ↦
      let (rest, e) = cycle_from_starts ns d (ground (arith, other)) in
      (rest ++ (n ∷ []), rw (other, e, cycle_from) refl)
]

-- The way from `d` along a path, closed by one more edge to `d`.
pub cycle_from-IsCycle :
    (deps : Dict String (List String)) (path ns : List String) (n d : String)
    → path ≡ n ∷ ns
    → IsPath deps path
    → contains path d ≡ true
    → contains (deps_at deps n) d ≡ true
    → IsCycle deps (cycle (cycle_from path d ++ (d ∷ [])))
cycle_from-IsCycle deps [] ns n d e p on edge = absurd (cc)
cycle_from-IsCycle deps (m ∷ ms) ns n d e p on edge =
    let same : m ≡ n = cc e in
    let (rest, starts) = cycle_from_starts (m ∷ ms) d on in
    (
      (d, rest, ap (λ ks. ks ++ (d ∷ [])) starts),
      cycle_from-IsChain deps m ms d d p on (rw same edge),
    )
