-- ===== src/Base/Text.antt =====
-- Go's `strings` package on native text, by characters: what the program uses of it.
pub mod Order
pub mod Affix
pub mod Sorting
use Prim.Native.Char.{code}
use Prim.Native.String.{String}
use mathlib.Core.Bool.{Bool, true, false, ◌&&◌, ◌||◌}
use mathlib.Core.List.{List, [], ◌∷◌, map}
use mathlib.Core.Option
use mathlib.Core.Option.{Option, none, some}
use jardin.Base.Tests.{◌=?◌, ltb, if◌then◌else◌}
use jardin.Base.Equality.{◌==◌, string_eq}

abbrev pub is_some {ℓ} : {A : Type ℓ} → Option A → Bool
is_some none = false
is_some (some a) = true

-- strings.CutPrefix: what follows the prefix, if the text has it.
unfoldable pub cut_prefix : String → String → Option String
cut_prefix s String.[] = some s
cut_prefix String.[] (String.◌∷◌ p ps) = none
cut_prefix (String.◌∷◌ c s) (String.◌∷◌ p ps) =
    let rest = cut_prefix s ps in if code p =? code c then rest else none

-- strings.HasPrefix
unfoldable pub has_prefix : String → String → Bool
unfolding cut_prefix
has_prefix s p = is_some (cut_prefix s p)

-- strings.CutSuffix: what stands before the suffix, if the text has it.
unfoldable pub cut_suffix : String → String → Option String
cut_suffix String.[] p = if p == String.[] then some String.[] else none
cut_suffix (String.◌∷◌ c s) p =
    let rest = Option.map (λ t. String.◌∷◌ c t) (cut_suffix s p) in
    if String.◌∷◌ c s == p then some String.[] else rest

-- strings.HasSuffix
unfoldable pub has_suffix : String → String → Bool
unfolding cut_suffix
has_suffix s p = is_some (cut_suffix s p)

-- strings.Contains
unfoldable pub has_text : String → String → Bool
unfolding has_prefix
has_text String.[] p = has_prefix String.[] p
has_text (String.◌∷◌ c s) p = has_prefix (String.◌∷◌ c s) p || has_text s p

-- Go's `<` on strings. The order of UTF-8 bytes is the order of code points.
unfoldable pub text_lt : String → String → Bool
text_lt String.[] String.[] = false
text_lt String.[] (String.◌∷◌ d t) = true
text_lt (String.◌∷◌ c s) String.[] = false
text_lt (String.◌∷◌ c s) (String.◌∷◌ d t) =
    ltb (code c) (code d) || (code c =? code d && text_lt s t)

-- sort.Strings
unfoldable pub insert_sorted : String → List String → List String
unfolding text_lt
insert_sorted p [] = p ∷ []
insert_sorted p (q ∷ qs) = if text_lt q p then q ∷ insert_sorted p qs else p ∷ q ∷ qs

unfoldable pub sort_strings : List String → List String
unfolding insert_sorted
sort_strings [] = []
sort_strings (p ∷ ps) = insert_sorted p (sort_strings ps)

-- The directories above a slash path, outermost first: "a/b/c" lies in "a" and "a/b".
unfoldable pub parents : String → List String
parents String.[] = []
parents (String.◌∷◌ c s) =
    let deeper = map (λ t. String.◌∷◌ c t) (parents s) in
    if code c =? b'/' then String.[] ∷ deeper else deeper
