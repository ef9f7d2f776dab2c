-- ===== src/Consolidate/Cursor.antt =====
-- cursor.go: how far each source has been consolidated.
use jardin.Base.{ℕ, String, Bool, false, not, ◌&&◌, Option, none, some, List, [], ◌∷◌}
use jardin.Base.{string_eq, nat_eq, ltb, ◌=?◌, if◌then◌else◌}
use jardin.Base.Dict
use jardin.Base.Dict.{Dict, lookup-insert}
use jardin.Base.Text.{text_lt}

-- A timestamp in nanoseconds, and the hash of the line that it came from.
pub record Position : Type 0 where
  pub timestamp : ℕ
  pub last_hash : String

abbrev pub Cursor : Type 0
Cursor = Dict String Position

abbrev is_stale : Option Position → ℕ → String → Bool
is_stale none ts hash = false
is_stale (some existing) ts hash =
    not (ltb existing.timestamp ts)
    && not ((ts =? existing.timestamp) && text_lt existing.last_hash hash)

-- MarkProcessed
unfoldable pub mark_processed : String → ℕ → String → Cursor → Cursor
unfolding text_lt
mark_processed source ts hash c =
    if is_stale (Dict.lookup source c) ts hash
    then c
    else Dict.insert source (record { timestamp = ts; last_hash = hash }) c

-- PositionFor
unfoldable pub position_for : String → Cursor → Option Position
position_for source c = Dict.lookup source c

-- A report of progress.
pub record Mark : Type 0 where
  pub source : String
  pub timestamp : ℕ
  pub hash : String

unfoldable pub mark_all : List Mark → Cursor → Cursor
unfolding mark_processed
mark_all [] c = c
mark_all (m ∷ ms) c = mark_all ms (mark_processed m.source m.timestamp m.hash c)
