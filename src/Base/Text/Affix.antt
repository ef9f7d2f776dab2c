-- ===== src/Base/Text/Affix.antt =====
-- Suffixes of joined texts.
use Prim.Native.String.append
use Prim.Native.Char.{Char}
use Prim.Native.String.{String, ◌++◌ as ◌<>◌}
use mathlib.Core.Path.{◌≡◌, refl}
use mathlib.Core.Bool.{true}
use native.Mathlib.Omega.{arith}
use jardin.Base.Equality.{string_eq}
use jardin.Base.Text.{has_suffix}

suffix_cons :
    (c : Char) (s p : String) → has_suffix s p ≡ true → has_suffix (String.◌∷◌ c s) p ≡ true
unfolding has_suffix
suffix_cons c s p h = ground arith

conflict_suffix : has_suffix ".conflict" ".conflict" ≡ true
unfolding has_suffix string_eq
conflict_suffix = refl

-- A text with ".conflict" put behind it ends in it.
pub has_suffix-conflict : (page : String) → has_suffix (page <> ".conflict") ".conflict" ≡ true
has_suffix-conflict String.[] = conflict_suffix
has_suffix-conflict (String.◌∷◌ c page) =
    rw append.cons (suffix_cons c (page <> ".conflict") ".conflict" (has_suffix-conflict page))
