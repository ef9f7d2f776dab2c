-- ===== src/Consolidate/Block.antt =====
-- Where Supersede writes: the block that findBlock finds.
use jardin.Base.{
  ℕ, zero, suc, ◌+◌, ◌-◌, ◌≤◌, Bool, true, false, Option, none, some, List, [], ◌∷◌, ◌≡◌, refl, ap,
  ◌⊎◌, inl, inr, arith,
}
use jardin.Base.{length, All, if◌then◌else◌}
use jardin.Memory.Struck.{Bytes}
use jardin.Consolidate.Write.{
  is_heading, drop_lines, take_lines, shifted, first_heading, past, past_last, block_end, block_at,
  find_block,
}

abbrev pub NoHeading : List Bytes → Type 0
NoHeading ls = All (λ l. is_heading l ≡ false) ls

-- Some lines without a heading, then one that is a heading.
abbrev pub IsFirst : List Bytes → Option ℕ → Type 0
IsFirst ls none = NoHeading ls
IsFirst ls (some i) =
    NoHeading (take_lines i ls)
    × ((l : Bytes) × (rest : List Bytes) × (drop_lines i ls ≡ l ∷ rest) × (is_heading l ≡ true))

shifted-IsFirst :
    (l : Bytes) (ls : List Bytes) (o : Option ℕ)
    → is_heading l ≡ false
    → IsFirst ls o
    → IsFirst (l ∷ ls) (shifted o)
unfolding take_lines drop_lines
shifted-IsFirst l ls none no_ h = (no_, h)
shifted-IsFirst l ls (some i) no_ (h, at) = ((no_, h), at)

first_heading-cons :
    (l : Bytes) (ls : List Bytes) (b : Bool)
    → is_heading l ≡ b
    → IsFirst ls (first_heading ls)
    → IsFirst (l ∷ ls) (if b then some 0 else shifted (first_heading ls))
unfolding take_lines drop_lines
first_heading-cons l ls true e h = (tt, (l, ls, refl, e))
first_heading-cons l ls false e h = shifted-IsFirst l ls (first_heading ls) e h

first_heading-IsFirst : (ls : List Bytes) → IsFirst ls (first_heading ls)
unfolding first_heading take_lines drop_lines
first_heading-IsFirst [] = tt
first_heading-IsFirst (l ∷ ls) =
    first_heading-cons l ls (is_heading l) refl (first_heading-IsFirst ls)

length-drop_lines : (n : ℕ) (ls : List Bytes) → length (drop_lines n ls) ≡ length ls - n
unfolding drop_lines
length-drop_lines zero ls = omega arith
length-drop_lines (suc n) [] = omega arith
length-drop_lines (suc n) (l ∷ ls) = omega (arith, length-drop_lines n ls)

past-le : (b : Bool) (n m : ℕ) → n ≤ m → past b n ≤ suc m
past-le b zero m h = ground arith
past-le b (suc n) m h = omega (arith, h)

past_last-le : (blank : Bytes → Bool) (ls : List Bytes) → past_last blank ls ≤ length ls
unfolding past_last
past_last-le blank [] = omega arith
past_last-le blank (l ∷ ls) =
    past-le (blank l) (past_last blank ls) (length ls) (past_last-le blank ls)

-- The index of the first heading is below the length.
IsFirst-length : (i : ℕ) (ls : List Bytes) → IsFirst ls (some i) → suc i ≤ length ls
unfolding drop_lines take_lines
IsFirst-length zero [] (h, (l, rest, e, yes_)) = absurd (cc e)
IsFirst-length zero (x ∷ ls) h = omega arith
IsFirst-length (suc i) [] (h, (l, rest, e, yes_)) = absurd (cc e)
IsFirst-length (suc i) (x ∷ ls) (h, at) = omega (arith, IsFirst-length i ls (h.1, at))

-- The first n lines end with one that is not blank, or there are none.
abbrev EndsFull : (Bytes → Bool) → List Bytes → ℕ → Type 0
EndsFull blank ls n =
    (n ≡ 0)
    ⊎ ((k : ℕ) × (l : Bytes) × (rest : List Bytes) × (n ≡ suc k)
        × (drop_lines k ls ≡ l ∷ rest)
        × (blank l ≡ false))

-- What is behind the first n lines is blank, and they end with a line that is not.
abbrev IsTrimmed : (Bytes → Bool) → List Bytes → ℕ → Type 0
IsTrimmed blank ls n = All (λ l. blank l ≡ true) (drop_lines n ls) × EndsFull blank ls n

-- The lines behind a block's heading of which the first n are the block's: the next is the first heading, or
-- there is no heading and what is left out are the blank lines at the end.
abbrev pub IsBody : (Bytes → Bool) → List Bytes → ℕ → Type 0
IsBody blank ls n = IsFirst ls (some n) ⊎ (NoHeading ls × IsTrimmed blank ls n)

past-IsTrimmed :
    (blank : Bytes → Bool) (l : Bytes) (ls : List Bytes) (b : Bool) (m : ℕ)
    → blank l ≡ b
    → IsTrimmed blank ls m
    → IsTrimmed blank (l ∷ ls) (past b m)
unfolding drop_lines
past-IsTrimmed blank l ls true zero e (clean, full) = ((e, clean), inl refl)
past-IsTrimmed blank l ls false zero e (clean, full) = (clean, inr (0, l, ls, refl, refl, e))
past-IsTrimmed blank l ls b (suc m) e (clean, inl none_) = absurd (omega (arith, none_))
past-IsTrimmed blank l ls b (suc m) e (clean, inr (k, x, rest, same, at, full)) =
    (clean, inr (suc k, x, rest, ap suc same, at, full))

past_last-IsTrimmed :
    (blank : Bytes → Bool) (ls : List Bytes) → IsTrimmed blank ls (past_last blank ls)
unfolding past_last drop_lines
past_last-IsTrimmed blank [] = (tt, inl refl)
past_last-IsTrimmed blank (l ∷ ls) =
    past-IsTrimmed blank l ls (blank l) (past_last blank ls) refl (past_last-IsTrimmed blank ls)

-- A block of the lines from an index on: it starts at their first heading, it is within the page, and its body
-- goes up to the next heading, or up to the last line that is not blank where there is none.
unfoldable pub IsBlock : (Bytes → Bool) → ℕ → List Bytes → Option (ℕ × ℕ) → Type 0
unfolding drop_lines take_lines is_heading
IsBlock blank from lines none = IsFirst (drop_lines from lines) none
IsBlock blank from lines (some (start, stop)) =
    (i : ℕ) × (n : ℕ) × (start ≡ from + i)
    × (stop ≡ suc start + n)
    × (stop ≤ length lines)
    × IsFirst (drop_lines from lines) (some i)
    × IsBody blank (drop_lines (suc start) lines) n

block_end-IsBlock :
    (blank : Bytes → Bool) (from i : ℕ) (lines : List Bytes) (o : Option ℕ)
    → suc (from + i) ≤ length lines
    → IsFirst (drop_lines from lines) (some i)
    → IsFirst (drop_lines (suc (from + i)) lines) o
    → IsBlock blank from lines (block_end blank (from + i) (drop_lines (suc (from + i)) lines) o)
unfolding IsBlock
block_end-IsBlock blank from i lines none le at h =
    let body = drop_lines (suc (from + i)) lines in
    let n = past_last blank body in
    (
      i,
      n,
      refl,
      refl,
      omega (arith, le, past_last-le blank body, length-drop_lines (suc (from + i)) lines),
      at,
      inr (h, past_last-IsTrimmed blank body),
    )
block_end-IsBlock blank from i lines (some n) le at h =
    let body = drop_lines (suc (from + i)) lines in
    (
      i,
      n,
      refl,
      refl,
      omega (arith, le, IsFirst-length n body h, length-drop_lines (suc (from + i)) lines),
      at,
      inl h,
    )

block_at-IsBlock :
    (blank : Bytes → Bool) (from : ℕ) (lines : List Bytes) (o : Option ℕ)
    → IsFirst (drop_lines from lines) o
    → IsBlock blank from lines (block_at blank from lines o)
unfolding IsBlock
block_at-IsBlock blank from lines none h = h
block_at-IsBlock blank from lines (some i) h =
    let body = drop_lines (suc (from + i)) lines in
    let le : suc (from + i) ≤ length lines =
      omega (arith, IsFirst-length i (drop_lines from lines) h, length-drop_lines from lines) in
    block_end-IsBlock blank from i lines (first_heading body) le h (first_heading-IsFirst body)

-- For a line from 1 on, the block that findBlock finds starts at the first heading from that line on, and ends
-- within the page at the next heading; where no heading follows, it ends behind the last line of the page that is
-- not blank, or behind its heading if all that follow are blank. findBlock finds none only if there is no heading
-- from the line on.
pub find_block-IsBlock :
    (blank : Bytes → Bool) (lines : List Bytes) (line : ℕ)
    → 1 ≤ line
    → IsBlock blank (line - 1) lines (find_block blank lines line)
unfolding find_block
find_block-IsBlock blank lines line one =
    block_at-IsBlock blank (line - 1) lines (first_heading (drop_lines (line - 1) lines))
      (first_heading-IsFirst (drop_lines (line - 1) lines))
