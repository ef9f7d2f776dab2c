-- ===== src/Consolidate/Write.antt =====
-- internal/consolidate/write.go: how a finding is struck and corrected in its page.
use jardin.Base.{
  ℕ, zero, suc, ◌+◌, ◌-◌, Bool, true, false, ◌&&◌, ◌||◌, Option, none, some, List, [], ◌∷◌, ◌++◌,
}
use jardin.Base.{◌=?◌, if◌then◌else◌}
use jardin.Memory.Struck.{Bytes, tilde}

abbrev pub is_space : ℕ → Bool
is_space b = b =? b'\n' || b =? b' ' || b =? b'\t'

-- strings.Trim by "\n \t".
unfoldable pub trim_left : Bytes → Bytes
trim_left [] = []
trim_left (b ∷ bs) = let rest = trim_left bs in if is_space b then rest else b ∷ bs

abbrev pub kept_before : ℕ → Bytes → Bytes
kept_before b [] = if is_space b then [] else b ∷ []
kept_before b (c ∷ bs) = b ∷ c ∷ bs

unfoldable pub trim_right : Bytes → Bytes
trim_right [] = []
trim_right (b ∷ bs) = kept_before b (trim_right bs)

-- What follows an empty line, where one begins with the first byte.
abbrev is_break : ℕ → ℕ → Bool
is_break b c = b =? b'\n' && c =? b'\n'

-- strings.Split by two newlines: `para` holds the bytes of the paragraph that is being read.
unfoldable pub split_paragraphs : Bytes → Bytes → List Bytes
split_paragraphs para [] = para ∷ []
split_paragraphs para (b ∷ []) = (para ++ (b ∷ [])) ∷ []
split_paragraphs para (b ∷ c ∷ bs) = elim (is_break b c) as (λ x. List Bytes) [
  | true ↦ para ∷ split_paragraphs [] bs
  | false ↦ split_paragraphs (para ++ (b ∷ [])) (c ∷ bs)
]

abbrev pub tildes : Bytes
tildes = tilde ∷ tilde ∷ []

abbrev pub strike_one : Bytes → List Bytes → List Bytes
strike_one [] rest = rest
strike_one (b ∷ bs) rest = (tildes ++ ((b ∷ bs) ++ tildes)) ∷ rest

-- The loop of strikeParagraphs.
unfoldable pub strike_each : List Bytes → List Bytes
unfolding trim_left trim_right
strike_each [] = []
strike_each (para ∷ paras) = strike_one (trim_right (trim_left para)) (strike_each paras)

-- strings.Join
unfoldable pub join_bytes : Bytes → List Bytes → Bytes
join_bytes sep [] = []
join_bytes sep (p ∷ []) = p
join_bytes sep (p ∷ q ∷ ps) = p ++ (sep ++ join_bytes sep (q ∷ ps))

-- strikeParagraphs
unfoldable pub strike_paragraphs : Bytes → Bytes
unfolding split_paragraphs strike_each join_bytes
strike_paragraphs body = join_bytes (b'\n' ∷ b'\n' ∷ []) (strike_each (split_paragraphs [] body))

-- Whether a line begins with "### ".
unfoldable pub is_heading : Bytes → Bool
is_heading (a ∷ b ∷ c ∷ d ∷ line) = a =? b'#' && (b =? b'#' && (c =? b'#' && d =? b' '))
is_heading _ = false

unfoldable pub drop_lines : ℕ → List Bytes → List Bytes
drop_lines zero ls = ls
drop_lines (suc n) [] = []
drop_lines (suc n) (l ∷ ls) = drop_lines n ls

unfoldable pub take_lines : ℕ → List Bytes → List Bytes
take_lines zero ls = []
take_lines (suc n) [] = []
take_lines (suc n) (l ∷ ls) = l ∷ take_lines n ls

abbrev pub shifted : Option ℕ → Option ℕ
shifted none = none
shifted (some i) = some (suc i)

-- The index of the first heading.
unfoldable pub first_heading : List Bytes → Option ℕ
unfolding is_heading
first_heading [] = none
first_heading (l ∷ ls) =
    let rest = first_heading ls in if is_heading l then some 0 else shifted rest

-- One more than the index of the last line that is not blank, or 0, where `blank` is that strings.TrimSpace
-- leaves nothing.
abbrev pub past : Bool → ℕ → ℕ
past blank (suc n) = suc (suc n)
past blank zero = if blank then 0 else 1

unfoldable pub past_last : (Bytes → Bool) → List Bytes → ℕ
past_last blank [] = 0
past_last blank (l ∷ ls) = past (blank l) (past_last blank ls)

abbrev pub block_end : (Bytes → Bool) → ℕ → List Bytes → Option ℕ → Option (ℕ × ℕ)
block_end blank start body (some n) = some (start, suc start + n)
block_end blank start body none = some (start, suc start + past_last blank body)

abbrev pub block_at : (Bytes → Bool) → ℕ → List Bytes → Option ℕ → Option (ℕ × ℕ)
block_at blank from lines none = none
block_at blank from lines (some i) =
    let body = drop_lines (suc (from + i)) lines in
    block_end blank (from + i) body (first_heading body)

-- findBlock, for a line from 1 on: at 0 the code indexes before the first line and panics.
unfoldable pub find_block : (Bytes → Bool) → List Bytes → ℕ → Option (ℕ × ℕ)
unfolding drop_lines first_heading past_last
find_block blank lines line =
    let from = line - 1 in block_at blank from lines (first_heading (drop_lines from lines))

-- strings.Split by a newline: `line` holds the bytes of the line that is being read.
unfoldable pub split_lines : Bytes → Bytes → List Bytes
split_lines line [] = line ∷ []
split_lines line (b ∷ bs) =
    let rest = split_lines (if b =? b'\n' then [] else line ++ (b ∷ [])) bs in
    if b =? b'\n' then line ∷ rest else rest

abbrev kept_newline : ℕ → Bytes → Bytes
kept_newline b [] = if b =? b'\n' then [] else b ∷ []
kept_newline b (c ∷ bs) = b ∷ c ∷ bs

-- strings.TrimRight by "\n".
unfoldable pub trim_newlines : Bytes → Bytes
trim_newlines [] = []
trim_newlines (b ∷ bs) = kept_newline b (trim_newlines bs)

-- The texts that Supersede writes: the marker with its date, and the candidate's text with its provenance.
pub record Correction : Type 0 where
  pub marker : Bytes
  pub correction : Bytes

-- The lines of the page with a block struck and corrected.
unfoldable pub corrected : Correction → List Bytes → ℕ → ℕ → List Bytes
unfolding take_lines drop_lines strike_paragraphs join_bytes
corrected new lines start stop =
    let body = join_bytes (b'\n' ∷ []) (drop_lines (suc start) (take_lines stop lines)) in
    let struck = strike_paragraphs body ++ (b' ' ∷ new.marker) in
    take_lines (suc start) lines
    ++ ((struck ∷ [] ∷ new.correction ∷ [] ∷ []) ++ drop_lines stop lines)

abbrev rewritten : Correction → List Bytes → Option (ℕ × ℕ) → Option Bytes
rewritten new lines none = none
rewritten new lines (some (start, stop)) =
    some (trim_newlines (join_bytes (b'\n' ∷ []) (corrected new lines start stop)) ++ (b'\n' ∷ []))

-- Supersede, on the bytes of a page that can be read and the line of the match: the bytes that it writes,
-- none where it finds no heading.
unfoldable pub supersede : (Bytes → Bool) → Correction → Bytes → ℕ → Option Bytes
unfolding split_lines find_block corrected trim_newlines join_bytes
supersede blank new content line =
    let lines = split_lines [] content in rewritten new lines (find_block blank lines line)
