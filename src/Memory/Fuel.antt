-- ===== src/Memory/Fuel.antt =====
-- dropStruck ends: the length of a text is enough fuel.
use jardin.Base.{
  ℕ, zero, suc, ◌≤◌, Bool, true, false, Option, none, some, [], ◌∷◌, ◌++◌, ◌≡◌, refl, ap, arith,
}
use jardin.Base.{◌=?◌, length, Bool-cases, inl, inr}
use jardin.Memory.Struck.{
  Bytes, backtick, before, nearest, cut_backtick, cut_tildes, cut_pair, turn_span, turn_struck,
  turn_tildes, turn, drop_from, drop_struck,
}

-- What follows a cut is no longer than a bound.
abbrev Fits : ℕ → Option (Bytes × Bytes) → Type 0
Fits n none = Unit
Fits n (some (front, rest)) = length rest ≤ n

abbrev FitsRest : ℕ → Option Bytes → Type 0
FitsRest n none = Unit
FitsRest n (some rest) = length rest ≤ n

before-Fits : (b n : ℕ) (o : Option (Bytes × Bytes)) → Fits n o → Fits (suc n) (before b o)
before-Fits b n none h = tt
before-Fits b n (some (front, rest)) h = omega (arith, h)

cut_backtick-Fits : (bs : Bytes) → Fits (length bs) (cut_backtick bs)
unfolding cut_backtick
cut_backtick-Fits [] = tt
cut_backtick-Fits (b ∷ bs) = elim (Bool-cases (b =? backtick)) [
  | inl yes_ ↦ rw yes_ (omega arith)
  | inr no_ ↦ rw no_ (before-Fits b (length bs) (cut_backtick bs) (cut_backtick-Fits bs))
]

cut_tildes-FitsRest : (bs : Bytes) → FitsRest (length bs) (cut_tildes bs)
unfolding cut_tildes
cut_tildes-FitsRest [] = tt
cut_tildes-FitsRest (b ∷ []) = tt
cut_tildes-FitsRest (b ∷ c ∷ bs) = ground arith

nearest-Fits :
    (b n : ℕ) (o : Option Bytes) (later : Option (Bytes × Bytes))
    → FitsRest (suc n) o
    → Fits n later
    → Fits (suc n) (nearest b o later)
nearest-Fits b n none later h k = before-Fits b n later k
nearest-Fits b n (some rest) later h k = h

cut_pair-Fits : (bs : Bytes) → Fits (length bs) (cut_pair bs)
unfolding cut_pair
cut_pair-Fits [] = tt
cut_pair-Fits (b ∷ bs) =
    nearest-Fits b (length bs) (cut_tildes (b ∷ bs)) (cut_pair bs) (cut_tildes-FitsRest (b ∷ bs))
      (cut_pair-Fits bs)

tildes-shorter : (b : ℕ) (bs : Bytes) → FitsRest (length bs) (cut_tildes (b ∷ bs))
unfolding cut_tildes
tildes-shorter b [] = tt
tildes-shorter b (c ∷ bs) = ground arith

-- The scan is the same under any two bounds that the length keeps.
turn_span-same :
    (f g : Bytes → Bytes) (b n : ℕ) (bs : Bytes) (o : Option (Bytes × Bytes))
    → Fits n o
    → ((cs : Bytes) → length cs ≤ n → f cs ≡ g cs)
    → turn_span f b bs o ≡ turn_span g b bs o
turn_span-same f g b n bs none h same = refl
turn_span-same f g b n bs (some (span, rest)) h same =
    ap (λ l. (b ∷ (span ++ (backtick ∷ []))) ++ l) (same rest h)

turn_struck-same :
    (f g : Bytes → Bytes) (b n : ℕ) (bs : Bytes) (o : Option (Bytes × Bytes))
    → Fits n o
    → ((cs : Bytes) → length cs ≤ n → f cs ≡ g cs)
    → turn_struck f b bs o ≡ turn_struck g b bs o
turn_struck-same f g b n bs none h same = refl
turn_struck-same f g b n bs (some (struck, rest)) h same = ap (λ l. b' ' ∷ l) (same rest h)

Fits-mono : (n m : ℕ) (o : Option (Bytes × Bytes)) → n ≤ m → Fits n o → Fits m o
Fits-mono n m none le h = tt
Fits-mono n m (some (front, rest)) le h = omega (arith, le, h)

turn_tildes-same :
    (f g : Bytes → Bytes) (b : ℕ) (bs : Bytes) (o : Option Bytes)
    → FitsRest (length bs) o
    → ((cs : Bytes) → length cs ≤ length bs → f cs ≡ g cs)
    → turn_tildes f b bs o ≡ turn_tildes g b bs o
turn_tildes-same f g b bs none h same = ap (λ l. b ∷ l) (same bs (omega arith))
turn_tildes-same f g b bs (some opened) h same =
    turn_struck-same f g b (length bs) bs (cut_pair opened)
      (Fits-mono (length opened) (length bs) (cut_pair opened) h (cut_pair-Fits opened)) same

turn-same :
    (f g : Bytes → Bytes) (b : ℕ) (bs : Bytes) (ticks : Bool)
    → ((cs : Bytes) → length cs ≤ length bs → f cs ≡ g cs)
    → turn f b bs ticks ≡ turn g b bs ticks
turn-same f g b bs true same =
    turn_span-same f g b (length bs) bs (cut_backtick bs) (cut_backtick-Fits bs) same
turn-same f g b bs false same =
    turn_tildes-same f g b bs (cut_tildes (b ∷ bs)) (tildes-shorter b bs) same

drop_from-same :
    (n m : ℕ) (bs : Bytes) → length bs ≤ n → length bs ≤ m → drop_from n bs ≡ drop_from m bs
unfolding drop_from
drop_from-same zero zero bs h k = refl
drop_from-same zero (suc m) [] h k = refl
drop_from-same zero (suc m) (b ∷ bs) h k = absurd (omega (arith, h))
drop_from-same (suc n) zero [] h k = refl
drop_from-same (suc n) zero (b ∷ bs) h k = absurd (omega (arith, k))
drop_from-same (suc n) (suc m) [] h k = refl
drop_from-same (suc n) (suc m) (b ∷ bs) h k =
    turn-same (drop_from n) (drop_from m) b bs (b =? backtick)
      (λ cs le. drop_from-same n m cs (omega (arith, le, h)) (omega (arith, le, k)))

-- Any fuel from the length on gives dropStruck.
pub drop_from-enough : (n : ℕ) (bs : Bytes) → length bs ≤ n → drop_from n bs ≡ drop_struck bs
unfolding drop_struck
drop_from-enough n bs h = drop_from-same n (length bs) bs h (omega arith)
