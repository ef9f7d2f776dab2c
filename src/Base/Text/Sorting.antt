-- ===== src/Base/Text/Sorting.antt =====
-- Sorting keeps a list's members.
use Prim.Native.String.{String}
use mathlib.Core.Path.{◌≡◌, refl}
use mathlib.Core.Bool.{◌||◌}
use mathlib.Core.List.{List, [], ◌∷◌}
use native.Mathlib.Omega.{arith}
use jardin.Base.Equality.{◌==◌, contains, string_eq}
use jardin.Base.Text.{insert_sorted, sort_strings}

pub contains-insert_sorted :
    (p q : String) (ps : List String) → contains (insert_sorted p ps) q ≡ (q == p || contains ps q)
unfolding insert_sorted
contains-insert_sorted p q [] = ground arith
contains-insert_sorted p q (r ∷ ps) = ground (arith, contains-insert_sorted p q ps)

pub contains-sort_strings :
    (ps : List String) (q : String) → contains (sort_strings ps) q ≡ contains ps q
unfolding sort_strings
contains-sort_strings [] q = refl
contains-sort_strings (p ∷ ps) q =
    ground (arith, contains-insert_sorted p q (sort_strings ps), contains-sort_strings ps q)
