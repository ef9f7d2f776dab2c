-- ===== src/Sessions/Resume.antt =====
-- A log that is read on from where it was left gives each line once.
use mathlib.Core.List.{append-nil, append_assoc}
use jardin.Base.{
  ℕ, zero, suc, ◌+◌, ◌≤◌, true, false, Option, none, some, List, [], ◌∷◌, ◌++◌, ◌≡◌, refl, ap, sym,
  ◌∙◌, arith,
}
use jardin.Base.{◌=?◌, length, length-append, Bool-cases, inl, inr}
use jardin.Sessions.Types.{Event}
use jardin.Sessions.Collect.{Bytes, drop, lines_from, pending, next_line, add_event}

abbrev pub joined : List Bytes × ℕ → List Bytes × ℕ → List Bytes × ℕ
joined p q = (p.0 ++ q.0, p.1 + q.1)

abbrev IsLine : Bytes → Type 0
IsLine [] = Unit
IsLine (b ∷ bs) = ((b =? 10) ≡ false) × IsLine bs

pub lines_from-newline :
    (line : Bytes) (b : ℕ) (bs : Bytes)
    → (b =? 10) ≡ true
    → lines_from line (b ∷ bs) ≡ next_line (line ++ (b ∷ [])) (lines_from [] bs)
unfolding lines_from
lines_from-newline line b bs h = rw h refl

lines_from-other :
    (line : Bytes) (b : ℕ) (bs : Bytes)
    → (b =? 10) ≡ false
    → lines_from line (b ∷ bs) ≡ lines_from (line ++ (b ∷ [])) bs
unfolding lines_from
lines_from-other line b bs h = rw h refl

zero-add-sym : (n : ℕ) → n ≡ 0 + n
zero-add-sym n = omega arith

lines_from-nil :
    (line ps : Bytes) → lines_from line ps ≡ joined (lines_from line []) (lines_from line ps)
unfolding lines_from
lines_from-nil line ps = ap (λ n. ((lines_from line ps).0, n)) (zero-add-sym (lines_from line ps).1)

pub lines_from-append :
    (line bs ps : Bytes)
    → lines_from line (bs ++ ps) ≡ joined (lines_from line bs) (lines_from (pending line bs) ps)
unfolding pending
lines_from-append line [] ps = lines_from-nil line ps
lines_from-append line (b ∷ bs) ps = elim (Bool-cases (b =? 10)) [
  | inl newline ↦
      rw
        (
          newline,
          lines_from-newline line b (bs ++ ps) newline,
          lines_from-newline line b bs newline,
          lines_from-append [] bs ps,
        )
        (ap
          (λ n.
            ((line ++ (b ∷ [])) ∷ ((lines_from [] bs).0 ++ (lines_from (pending [] bs) ps).0), n))
          (omega arith))
  | inr other ↦
      rw (other, lines_from-other line b (bs ++ ps) other, lines_from-other line b bs other)
        (lines_from-append (line ++ (b ∷ [])) bs ps)
]

lines_from-IsLine :
    (line rest ps : Bytes)
    → IsLine rest
    → lines_from line (rest ++ ps) ≡ lines_from (line ++ rest) ps
unfolding lines_from
lines_from-IsLine line [] ps h = rw append-nil refl
lines_from-IsLine line (b ∷ rest) ps (other, h) =
    ground (
      arith,
      other,
      lines_from-IsLine (line ++ (b ∷ [])) rest ps h,
      append_assoc line (b ∷ []) rest,
    )

append-IsLine : (line : Bytes) (b : ℕ) → IsLine line → (b =? 10) ≡ false → IsLine (line ++ (b ∷ []))
append-IsLine [] b h other = (other, tt)
append-IsLine (x ∷ line) b (h, hs) other = (h, append-IsLine line b hs other)

pending-IsLine : (line bs : Bytes) → IsLine line → IsLine (pending line bs)
unfolding pending
pending-IsLine line [] h = h
pending-IsLine line (b ∷ bs) h = elim (Bool-cases (b =? 10)) [
  | inl newline ↦ rw newline (pending-IsLine [] bs tt)
  | inr other ↦ rw other (pending-IsLine (line ++ (b ∷ [])) bs (append-IsLine line b h other))
]

suc-add : (a b : ℕ) → suc a + b ≡ suc (a + b)
suc-add a b = omega arith

drop-append : (as_ bs : Bytes) (n : ℕ) → drop (length as_ + n) (as_ ++ bs) ≡ drop n bs
unfolding drop
drop-append [] bs n = ap (λ k. drop k bs) (sym (zero-add-sym n))
drop-append (a ∷ as_) bs n =
    ap (λ k. drop k (a ∷ (as_ ++ bs))) (suc-add (length as_) n) ∙ drop-append as_ bs n

drop-le : (n : ℕ) (as_ bs : Bytes) → n ≤ length as_ → drop n (as_ ++ bs) ≡ drop n as_ ++ bs
unfolding drop
drop-le zero as_ bs h = refl
drop-le (suc n) [] bs h = absurd (omega (arith, h))
drop-le (suc n) (a ∷ as_) bs h = drop-le n as_ bs (omega (arith, h))

pub consumed-le : (line bs : Bytes) → (lines_from line bs).1 ≤ length line + length bs
unfolding lines_from
consumed-le line [] = omega arith
consumed-le line (b ∷ bs) =
    ground
      (arith, consumed-le [] bs, consumed-le (line ++ (b ∷ [])) bs, length-append line (b ∷ []))

drop-nothing : (line : Bytes) → drop (lines_from line []).1 (line ++ []) ≡ line
unfolding lines_from drop
drop-nothing line = append-nil line

drop-pending : (line bs : Bytes) → drop (lines_from line bs).1 (line ++ bs) ≡ pending line bs
unfolding pending
drop-pending line [] = drop-nothing line
drop-pending line (b ∷ bs) =
    let shifted : line ++ (b ∷ bs) ≡ (line ++ (b ∷ [])) ++ bs =
      sym (append_assoc line (b ∷ []) bs) in
    elim (Bool-cases (b =? 10)) [
      | inl newline ↦
          rw (newline, lines_from-newline line b bs newline, shifted)
            (drop-append (line ++ (b ∷ [])) bs (lines_from [] bs).1 ∙ drop-pending [] bs)
      | inr other ↦
          rw (other, lines_from-other line b bs other, shifted) (drop-pending (line ++ (b ∷ [])) bs)
    ]

pub add_event-append :
    (o : Option Event) (as_ bs : List Event) → add_event o (as_ ++ bs) ≡ add_event o as_ ++ bs
add_event-append none as_ bs = refl
add_event-append (some ev) as_ bs = refl

-- Reading on in a log that has grown, from where it was left, gives what is new of the whole.
pub lines_from-resume :
    (bs ps : Bytes)
    → lines_from [] (bs ++ ps)
      ≡ joined (lines_from [] bs) (lines_from [] (drop (lines_from [] bs).1 (bs ++ ps)))
lines_from-resume bs ps =
    let n = (lines_from [] bs).1 in
    let rest = pending [] bs in
    let left : drop n (bs ++ ps) ≡ rest ++ ps =
      drop-le n bs ps (omega (arith, consumed-le [] bs)) ∙ ap (λ l. l ++ ps) (drop-pending [] bs) in
    let read : lines_from [] (drop n (bs ++ ps)) ≡ lines_from rest ps =
      ap (lines_from []) left ∙ lines_from-IsLine [] rest ps (pending-IsLine [] bs tt) in
    lines_from-append [] bs ps ∙ ap (joined (lines_from [] bs)) (sym read)
