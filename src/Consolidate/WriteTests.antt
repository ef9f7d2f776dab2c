-- ===== src/Consolidate/WriteTests.antt =====
-- A small page that is corrected, and the theorems on it.
use jardin.Base.{arith, ◌-◌, Bool, true, false, none, some, [], ◌∷◌, ◌++◌, ◌≡◌, refl}
use jardin.Base.{nat_eq}
use jardin.Memory.Struck.{Bytes, cut_backtick, cut_tildes, cut_pair, drop_from, drop_struck}
use jardin.Consolidate.Write.{
  trim_left, trim_right, split_paragraphs, strike_each, join_bytes, strike_paragraphs, is_heading,
  drop_lines, take_lines, first_heading, past_last, find_block, split_lines, trim_newlines,
  corrected, supersede,
}
use jardin.Consolidate.Strike.{IsFlat, IsDropped, strike_paragraphs-IsDropped}
use jardin.Consolidate.Block.{IsBlock, find_block-IsBlock}

-- "### t", the line "x", and an empty line.
abbrev heading : Bytes
heading = b'#' ∷ b'#' ∷ b'#' ∷ b' ' ∷ b't' ∷ []

abbrev page : Bytes
page = heading ++ (b'\n' ∷ b'x' ∷ b'\n' ∷ [])

abbrev is_blank : Bytes → Bool
is_blank [] = true
is_blank (b ∷ bs) = false

corrected_page :
    supersede is_blank (record { marker = b'M' ∷ []; correction = b'C' ∷ [] }) page 1
    ≡ some (
        heading
        ++ (b'\n' ∷ b'~' ∷ b'~' ∷ b'x' ∷ b'~' ∷ b'~' ∷ b' ' ∷ b'M' ∷ b'\n' ∷ b'\n' ∷ b'C' ∷ b'\n'
            ∷ []))
unfolding supersede split_lines find_block drop_lines take_lines first_heading is_heading past_last
    corrected strike_paragraphs split_paragraphs strike_each trim_left trim_right join_bytes
    trim_newlines
corrected_page = refl

no_heading : supersede is_blank (record { marker = []; correction = [] }) (b'x' ∷ []) 1 ≡ none
unfolding supersede split_lines find_block drop_lines first_heading is_heading
no_heading = refl

-- Two paragraphs.
abbrev claim : Bytes
claim = b'x' ∷ b'\n' ∷ b'\n' ∷ b'y' ∷ []

claim-IsFlat : IsFlat claim
claim-IsFlat = (refl, (refl, (refl, (refl, tt))))

strike_paragraphs-IsDropped_example : IsDropped (strike_paragraphs claim) (b'C' ∷ [])
strike_paragraphs-IsDropped_example = strike_paragraphs-IsDropped claim (b'C' ∷ []) claim-IsFlat

find_block-IsBlock_example :
    IsBlock is_blank
      (1 - 1)
      (heading ∷ (b'x' ∷ []) ∷ [])
      (find_block is_blank (heading ∷ (b'x' ∷ []) ∷ []) 1)
find_block-IsBlock_example =
    find_block-IsBlock is_blank (heading ∷ (b'x' ∷ []) ∷ []) 1 (omega arith)

-- A claim that is struck a second time is indexed again.
struck_twice :
    drop_struck (strike_paragraphs (strike_paragraphs (b'x' ∷ []))) ≡ b' ' ∷ b'x' ∷ b' ' ∷ []
unfolding drop_struck drop_from cut_backtick cut_tildes cut_pair strike_paragraphs split_paragraphs
    strike_each trim_left trim_right join_bytes
struck_twice = refl

-- An unterminated mark leaves the text as it is.
unterminated : drop_struck (b'~' ∷ b'~' ∷ b'x' ∷ []) ≡ b'~' ∷ b'~' ∷ b'x' ∷ []
unfolding drop_struck drop_from cut_backtick cut_tildes cut_pair
unterminated = refl

-- A code span keeps its tildes.
code_span :
    drop_struck (b'`' ∷ b'~' ∷ b'~' ∷ b'`' ∷ b'~' ∷ b'~' ∷ [])
    ≡ b'`' ∷ b'~' ∷ b'~' ∷ b'`' ∷ b'~' ∷ b'~' ∷ []
unfolding drop_struck drop_from cut_backtick cut_tildes cut_pair
code_span = refl
