-- ===== src/Base/Members.antt =====
-- Lists of names used as sets: no name twice, and the lemmas on what they contain.
use Prim.Native.Nat.{◌≤◌, suc}
use Prim.Native.String.{String}
use mathlib.Core.Path.{◌≡◌, refl, ap}
use mathlib.Core.Bool.{true, false, ◌||◌}
use mathlib.Core.List.{List, [], ◌∷◌, ◌++◌}
use mathlib.Core.Logic.{◌≢◌, inl, inr}
use native.Mathlib.Omega.{arith}
use jardin.Base.Tests.{if◌then◌else◌, Bool-cases}
use jardin.Base.Lists.{length}
use jardin.Base.Equality.{◌==◌, contains, string_eq}

-- No text twice.
abbrev pub IsNodup : List String → Type 0
IsNodup [] = Unit
IsNodup (p ∷ ps) = (contains ps p ≡ false) × IsNodup ps

-- Every name of the first list is in the second.
abbrev pub Within : List String → List String → Type 0
Within ps qs = (q : String) → contains ps q ≡ true → contains qs q ≡ true

unfoldable pub remove : String → List String → List String
remove p [] = []
remove p (q ∷ qs) = if p == q then qs else q ∷ remove p qs

pub contains-remove :
    (p q : String) (qs : List String)
    → contains qs q ≡ true
    → q ≢ p
    → contains (remove p qs) q ≡ true
unfolding remove
contains-remove p q [] h ne = h
contains-remove p q (r ∷ qs) h ne = ground (arith, contains-remove p q qs)

pub length-remove :
    (p : String) (qs : List String) → contains qs p ≡ true → suc (length (remove p qs)) ≡ length qs
unfolding remove
length-remove p [] h = absurd (cc)
length-remove p (q ∷ qs) h = ground (arith, length-remove p qs)

-- Different names of one list are no more than the list has places.
pub length-le-of_Within : (ps qs : List String) → IsNodup ps → Within ps qs → length ps ≤ length qs
length-le-of_Within [] qs u w = omega arith
length-le-of_Within (p ∷ ps) qs (fresh, u) w =
    let rest : Within ps (remove p qs) =
      λ q h. contains-remove p q qs (w q (ground arith)) (ground arith) in
    omega
      (arith, length-remove p qs (w p (ground arith)), length-le-of_Within ps (remove p qs) u rest)

pub contains-of_remove :
    (p q : String) (qs : List String) → contains (remove p qs) q ≡ true → contains qs q ≡ true
unfolding remove
contains-of_remove p q [] h = h
contains-of_remove p q (r ∷ qs) h = ground (arith, contains-of_remove p q qs)

pub remove-IsNodup : (p : String) (qs : List String) → IsNodup qs → IsNodup (remove p qs)
unfolding remove
remove-IsNodup p [] u = tt
remove-IsNodup p (q ∷ qs) u = ground (arith, remove-IsNodup p qs, contains-of_remove p q qs)

pub contains-remove_self :
    (p : String) (qs : List String) → IsNodup qs → contains (remove p qs) p ≡ false
unfolding remove
contains-remove_self p [] u = refl
contains-remove_self p (q ∷ qs) u = ground (arith, contains-remove_self p qs)

pub contains-append :
    (ps qs : List String) (q : String) → contains (ps ++ qs) q ≡ (contains ps q || contains qs q)
contains-append [] qs q = refl
contains-append (p ∷ ps) qs q = ground (arith, contains-append ps qs q)

pub IsNodup-append :
    (ps : List String) (q : String) → IsNodup ps → contains ps q ≡ false → IsNodup (ps ++ (q ∷ []))
IsNodup-append [] q u fresh = ground arith
IsNodup-append (p ∷ ps) q u fresh =
    ground (arith, IsNodup-append ps q, contains-append ps (q ∷ []) p)

-- A list of different names that is as long as one it lies within has all its names.
pub Within-of_length :
    (ps qs : List String) → IsNodup ps → Within ps qs → length qs ≤ length ps → Within qs ps
Within-of_length ps qs u w long q h = elim (Bool-cases (contains ps q)) [
  | inl here ↦ here
  | inr absent ↦
      let fewer : Within ps (remove q qs) =
        λ r hr. contains-remove q r qs (w r hr) (λ e. cc (ap (contains ps) e)) in
      absurd
        (omega (arith, length-remove q qs h, length-le-of_Within ps (remove q qs) u fewer, long))
]
