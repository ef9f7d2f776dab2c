-- ===== src/Flow/Lines.antt =====
-- Cutting a text after its last newline.
use mathlib.Core.List.{append-nil, append_assoc}
use jardin.Base.{◌⊎◌, ℕ, true, false, [], ◌∷◌, ◌++◌, ◌≡◌, refl, ap, sym, ◌∙◌, arith}
use jardin.Base.{◌=?◌, Bool-cases, inl, inr}
use jardin.Flow.Stream.{Bytes, cut_last_line}

-- Bytes without a newline.
abbrev pub IsLine : Bytes → Type 0
IsLine [] = Unit
IsLine (b ∷ bs) = ((b =? 10) ≡ false) × IsLine bs

pub append-IsLine :
    (line : Bytes) (b : ℕ) → IsLine line → (b =? 10) ≡ false → IsLine (line ++ (b ∷ []))
append-IsLine [] b h other = (other, tt)
append-IsLine (x ∷ line) b (h, hs) other = (h, append-IsLine line b hs other)

-- Nothing, or bytes that end in a newline.
abbrev pub IsEnded : Bytes → Type 0
IsEnded bs = (bs ≡ []) ⊎ ((line : Bytes) × (bs ≡ line ++ (10 ∷ [])))

abbrev pub after : Bytes → Bytes × Bytes → Bytes × Bytes
after bs r = (bs ++ r.0, r.1)

cut_last_line-newline :
    (line : Bytes) (b : ℕ) (bs : Bytes)
    → (b =? 10) ≡ true
    → cut_last_line line (b ∷ bs) ≡ after (line ++ (b ∷ [])) (cut_last_line [] bs)
unfolding cut_last_line
cut_last_line-newline line b bs h = rw h (
    ap (λ l. (l, (cut_last_line [] bs).1))
      (sym (append_assoc line (b ∷ []) (cut_last_line [] bs).0)))

cut_last_line-other :
    (line : Bytes) (b : ℕ) (bs : Bytes)
    → (b =? 10) ≡ false
    → cut_last_line line (b ∷ bs) ≡ cut_last_line (line ++ (b ∷ [])) bs
unfolding cut_last_line
cut_last_line-other line b bs h = rw h refl

-- The bytes after the last newline go before those that are written next.
pub cut_last_line-append :
    (line bs ps : Bytes)
    → cut_last_line line (bs ++ ps)
      ≡ after (cut_last_line line bs).0 (cut_last_line (cut_last_line line bs).1 ps)
unfolding cut_last_line
cut_last_line-append line [] ps = refl
cut_last_line-append line (b ∷ bs) ps = elim (Bool-cases (b =? 10)) [
  | inl newline ↦
      let (c, rest) = cut_last_line [] bs in
      cut_last_line-newline line b (bs ++ ps) newline
      ∙ (ap (after (line ++ (b ∷ []))) (cut_last_line-append [] bs ps)
          ∙ (ap (λ l. (l, (cut_last_line rest ps).1))
                (sym (append_assoc (line ++ (b ∷ [])) c (cut_last_line rest ps).0))
              ∙ ap (λ r. after r.0 (cut_last_line r.1 ps))
                  (sym (cut_last_line-newline line b bs newline))))
  | inr other ↦
      cut_last_line-other line b (bs ++ ps) other
      ∙ (cut_last_line-append (line ++ (b ∷ [])) bs ps
          ∙ ap (λ r. after r.0 (cut_last_line r.1 ps)) (sym (cut_last_line-other line b bs other)))
]

pub cut_last_line-IsLine :
    (line rest ps : Bytes)
    → IsLine rest
    → cut_last_line line (rest ++ ps) ≡ cut_last_line (line ++ rest) ps
cut_last_line-IsLine line [] ps h = rw (append-nil line) refl
cut_last_line-IsLine line (b ∷ rest) ps (other, h) =
    cut_last_line-other line b (rest ++ ps) other
    ∙ (cut_last_line-IsLine (line ++ (b ∷ [])) rest ps h
        ∙ ap (λ l. cut_last_line l ps) (append_assoc line (b ∷ []) rest))

pub rest-IsLine : (line bs : Bytes) → IsLine line → IsLine (cut_last_line line bs).1
unfolding cut_last_line
rest-IsLine line [] h = h
rest-IsLine line (b ∷ bs) h = elim (Bool-cases (b =? 10)) [
  | inl newline ↦ rw newline (rest-IsLine [] bs tt)
  | inr other ↦ rw other (rest-IsLine (line ++ (b ∷ [])) bs (append-IsLine line b h other))
]

-- The two parts of a cut are the whole.
pub cut_last_line-whole :
    (line bs : Bytes) → (cut_last_line line bs).0 ++ (cut_last_line line bs).1 ≡ line ++ bs
unfolding cut_last_line
cut_last_line-whole line [] = sym (append-nil line)
cut_last_line-whole line (b ∷ bs) = elim (Bool-cases (b =? 10)) [
  | inl newline ↦
      let (c, rest) = cut_last_line [] bs in
      ap (λ r. r.0 ++ r.1) (cut_last_line-newline line b bs newline)
      ∙ (append_assoc (line ++ (b ∷ [])) c rest
          ∙ (ap (λ l. (line ++ (b ∷ [])) ++ l) (cut_last_line-whole [] bs)
              ∙ append_assoc line (b ∷ []) bs))
  | inr other ↦
      ap (λ r. r.0 ++ r.1) (cut_last_line-other line b bs other)
      ∙ (cut_last_line-whole (line ++ (b ∷ [])) bs ∙ append_assoc line (b ∷ []) bs)
]

IsEnded-append : (line : Bytes) (c : Bytes) → IsEnded c → IsEnded ((line ++ (10 ∷ [])) ++ c)
IsEnded-append line c (inl e) = inr (line, rw (e, append-nil (line ++ (10 ∷ []))) refl)
IsEnded-append line c (inr (l, e)) =
    inr ((line ++ (10 ∷ [])) ++ l, rw e (sym (append_assoc (line ++ (10 ∷ [])) l (10 ∷ []))))

is_newline : (b : ℕ) → (b =? 10) ≡ true → b ≡ 10
is_newline b h = ground (arith, h)

pub complete-IsEnded : (line bs : Bytes) → IsEnded (cut_last_line line bs).0
unfolding cut_last_line
complete-IsEnded line [] = inl refl
complete-IsEnded line (b ∷ bs) = elim (Bool-cases (b =? 10)) [
  | inl newline ↦
      rw (cut_last_line-newline line b bs newline, is_newline b newline)
        (IsEnded-append line (cut_last_line [] bs).0 (complete-IsEnded [] bs))
  | inr other ↦ rw (cut_last_line-other line b bs other) (complete-IsEnded (line ++ (b ∷ [])) bs)
]
