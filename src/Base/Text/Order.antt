-- ===== src/Base/Text/Order.antt =====
-- The order of texts is total.
use Prim.Native.Char.{code}
use Prim.Native.String.{String}
use mathlib.Core.Path.{◌≡◌, refl, ap₂}
use mathlib.Core.Logic.{◌≢◌}
use mathlib.Core.Bool.{true, false, not}
use native.Mathlib.Omega.{arith}
use native.Mathlib.Decide.{ℕ_discrete}
use text.Mathlib.TextEquality.{Char-path}
use jardin.Base.Text.{text_lt}

-- Of two different texts one is less, and only one.
pub text_lt_total : (s t : String) → s ≢ t → text_lt s t ≡ not (text_lt t s)
unfolding text_lt
text_lt_total String.[] String.[] ne = absurd (ne refl)
text_lt_total String.[] (String.◌∷◌ d t) ne = refl
text_lt_total (String.◌∷◌ c s) String.[] ne = refl
text_lt_total (String.◌∷◌ c s) (String.◌∷◌ d t) ne = elim (ℕ_discrete (code c) (code d)) [
  | yes e ↦ ground (arith, text_lt_total s t (λ tails. ne (ap₂ String.◌∷◌ (Char-path c d e) tails)))
  | no differ ↦ ground arith
]

pub text_lt_trans : (s t u : String) → text_lt s t ≡ true → text_lt t u ≡ true → text_lt s u ≡ true
unfolding text_lt
text_lt_trans String.[] String.[] u h k = absurd (cc)
text_lt_trans String.[] (String.◌∷◌ d t) String.[] h k = absurd (cc)
text_lt_trans String.[] (String.◌∷◌ d t) (String.◌∷◌ e u) h k = refl
text_lt_trans (String.◌∷◌ c s) String.[] u h k = absurd (cc)
text_lt_trans (String.◌∷◌ c s) (String.◌∷◌ d t) String.[] h k = absurd (cc)
text_lt_trans (String.◌∷◌ c s) (String.◌∷◌ d t) (String.◌∷◌ e u) h k =
    ground (arith, h, k, text_lt_trans s t u)

pub text_lt_irrefl : (s : String) → text_lt s s ≡ false
unfolding text_lt
text_lt_irrefl String.[] = refl
text_lt_irrefl (String.◌∷◌ c s) = ground (arith, text_lt_irrefl s)
