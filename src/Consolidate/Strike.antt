-- ===== src/Consolidate/Strike.antt =====
-- A claim that is struck is no longer indexed.
use mathlib.Core.List.{append_assoc}
use jardin.Base.{
  ℕ, suc, true, false, ◌&&◌, none, some, List, [], ◌∷◌, ◌++◌, ◌≡◌, refl, ap, ◌∙◌, arith,
}
use jardin.Base.{◌=?◌, length, length-append, All, Bool-cases, inl, inr}
use jardin.Memory.Struck.{Bytes, tilde, cut_tildes, cut_pair, drop_from, drop_struck}
use jardin.Memory.Fuel.{drop_from-enough}
use jardin.Consolidate.Write.{
  is_space, trim_left, trim_right, split_paragraphs, kept_before, strike_one, tildes, strike_each,
  join_bytes, strike_paragraphs,
}

-- No tilde among some bytes.
abbrev pub IsFlat : Bytes → Type 0
IsFlat bs = All (λ b. (b =? tilde) ≡ false) bs

append-IsFlat : (as_ bs : Bytes) → IsFlat as_ → IsFlat bs → IsFlat (as_ ++ bs)
append-IsFlat [] bs h k = k
append-IsFlat (a ∷ as_) bs (h, hs) k = (h, append-IsFlat as_ bs hs k)

split_paragraphs-IsFlat :
    (para bs : Bytes) → IsFlat para → IsFlat bs → All IsFlat (split_paragraphs para bs)
unfolding split_paragraphs
split_paragraphs-IsFlat para [] h k = (h, tt)
split_paragraphs-IsFlat para (b ∷ []) h k = (append-IsFlat para (b ∷ []) h k, tt)
split_paragraphs-IsFlat para (b ∷ c ∷ bs) h (kb, (kc, k)) =
    elim (Bool-cases (b =? b'\n' && c =? b'\n')) [
      | inl ends ↦ rw (ends, split_paragraphs) (h, split_paragraphs-IsFlat [] bs tt k)
      | inr goes_on ↦
          rw (goes_on, split_paragraphs)
            (split_paragraphs-IsFlat (para ++ (b ∷ [])) (c ∷ bs)
              (append-IsFlat para (b ∷ []) h (kb, tt)) (kc, k))
    ]

trim_left-IsFlat : (bs : Bytes) → IsFlat bs → IsFlat (trim_left bs)
unfolding trim_left
trim_left-IsFlat [] h = tt
trim_left-IsFlat (b ∷ bs) (h, hs) = elim (Bool-cases (is_space b)) [
  | inl space ↦ rw space (trim_left-IsFlat bs hs)
  | inr other ↦ rw other (h, hs)
]

kept_before-IsFlat :
    (b : ℕ) (bs : Bytes) → (b =? tilde) ≡ false → IsFlat bs → IsFlat (kept_before b bs)
kept_before-IsFlat b [] h k = elim (Bool-cases (is_space b)) [
  | inl space ↦ rw space tt
  | inr other ↦ rw other (h, tt)
]
kept_before-IsFlat b (c ∷ bs) h k = (h, k)

trim_right-IsFlat : (bs : Bytes) → IsFlat bs → IsFlat (trim_right bs)
unfolding trim_right
trim_right-IsFlat [] h = tt
trim_right-IsFlat (b ∷ bs) (h, hs) =
    kept_before-IsFlat b (trim_right bs) h (trim_right-IsFlat bs hs)

-- A flat text between two pairs of tildes.
abbrev IsStruck : Bytes → Type 0
IsStruck x = (p : Bytes) × IsFlat p × (x ≡ tildes ++ (p ++ tildes))

strike_one-IsStruck :
    (p : Bytes) (rest : List Bytes)
    → IsFlat p
    → All IsStruck rest
    → All IsStruck (strike_one p rest)
strike_one-IsStruck [] rest h hs = hs
strike_one-IsStruck (b ∷ bs) rest h hs = ((b ∷ bs, h, refl), hs)

strike_each-IsStruck : (paras : List Bytes) → All IsFlat paras → All IsStruck (strike_each paras)
unfolding strike_each
strike_each-IsStruck [] h = tt
strike_each-IsStruck (para ∷ paras) (h, hs) =
    strike_one-IsStruck (trim_right (trim_left para)) (strike_each paras)
      (trim_right-IsFlat (trim_left para) (trim_left-IsFlat para h)) (strike_each-IsStruck paras hs)

cut_tildes-flat : (b : ℕ) (bs : Bytes) → (b =? tilde) ≡ false → cut_tildes (b ∷ bs) ≡ none
unfolding cut_tildes
cut_tildes-flat b [] h = refl
cut_tildes-flat b (c ∷ bs) h = rw h refl

cut_pair-flat : (p bs : Bytes) → IsFlat p → cut_pair (p ++ (tildes ++ bs)) ≡ some (p, bs)
unfolding cut_pair cut_tildes
cut_pair-flat [] bs h = refl
cut_pair-flat (b ∷ p) bs (h, hs) =
    rw (cut_tildes-flat b (p ++ (tildes ++ bs)) h, cut_pair-flat p bs hs) refl

-- A struck span becomes a space.
drop_struck-span :
    (p bs : Bytes)
    → IsFlat p
    → drop_struck (tildes ++ (p ++ (tildes ++ bs))) ≡ b' ' ∷ drop_struck bs
unfolding drop_struck drop_from cut_tildes
drop_struck-span p bs h =
    let n = length (p ++ (tildes ++ bs)) in
    rw (cut_pair-flat p bs h) (
      ap (λ l. b' ' ∷ l)
        (drop_from-enough (suc n) bs (omega (arith, length-append p (tildes ++ bs)))))

drop_struck-newline : (bs : Bytes) → drop_struck (b'\n' ∷ bs) ≡ b'\n' ∷ drop_struck bs
unfolding drop_struck drop_from
drop_struck-newline bs = rw (cut_tildes-flat b'\n' bs refl) refl

-- A text that the index drops: in front of any other, only spaces and newlines are left of it.
unfoldable pub IsDropped : Bytes → Bytes → Type 0
IsDropped x bs =
    (blanks : Bytes) × All (λ b. is_space b ≡ true) blanks
    × (drop_struck (x ++ bs) ≡ blanks ++ drop_struck bs)

struck-IsDropped : (x bs : Bytes) → IsStruck x → drop_struck (x ++ bs) ≡ b' ' ∷ drop_struck bs
struck-IsDropped x bs (p, flat, e) =
    ap (λ l. drop_struck (l ++ bs)) e
    ∙ (ap (λ l. drop_struck (tildes ++ l)) (append_assoc p tildes bs) ∙ drop_struck-span p bs flat)

abbrev break : Bytes
break = b'\n' ∷ b'\n' ∷ []

joined-IsDropped :
    (xs : List Bytes) (bs : Bytes) → All IsStruck xs → IsDropped (join_bytes break xs) bs
unfolding join_bytes IsDropped
joined-IsDropped [] bs h = ([], tt, refl)
joined-IsDropped (x ∷ []) bs (h, hs) = (b' ' ∷ [], (refl, tt), struck-IsDropped x bs h)
joined-IsDropped (x ∷ y ∷ xs) bs (h, hs) =
    let rest = join_bytes break (y ∷ xs) in
    let (blanks, blank, e) = joined-IsDropped (y ∷ xs) bs hs in
    (
      b' ' ∷ b'\n' ∷ b'\n' ∷ blanks,
      (refl, (refl, (refl, blank))),
      ap drop_struck (append_assoc x (break ++ rest) bs)
          ∙ (struck-IsDropped x (break ++ (rest ++ bs)) h
              ∙ ap (λ l. b' ' ∷ l)
                  (drop_struck-newline (b'\n' ∷ (rest ++ bs))
                    ∙ ap (λ l. b'\n' ∷ l)
                        (drop_struck-newline (rest ++ bs) ∙ ap (λ l. b'\n' ∷ l) e))),
    )

-- What Supersede makes of a claim without a tilde is dropped from the index, whatever stands behind it: the
-- index sees spaces and newlines, and then what it sees of what stands behind it.
pub strike_paragraphs-IsDropped :
    (body bs : Bytes) → IsFlat body → IsDropped (strike_paragraphs body) bs
unfolding strike_paragraphs
strike_paragraphs-IsDropped body bs h =
    joined-IsDropped (strike_each (split_paragraphs [] body)) bs
      (strike_each-IsStruck (split_paragraphs [] body) (split_paragraphs-IsFlat [] body tt h))
