-- ===== src/Sync/Wins.antt =====
-- The winner of two edits is the same, whichever machine asks.
use jardin.Base.{ℕ, Bool, not, ap, Option, none, some, ◌≡◌, ◌≢◌, arith}
use jardin.Base.Text.Order.{text_lt_total}
use jardin.Sync.Types.{Host, FileEntry}
use jardin.Sync.Manifest.{parse_time}
use jardin.Sync.Conflict.{newer, local_wins}

newer_swap : (x y : Option ℕ) (t u : Bool) → t ≡ not u → newer x y t ≡ not (newer y x u)
newer_swap none none t u e = e
newer_swap none (some n) t u e = e
newer_swap (some m) none t u e = e
newer_swap (some m) (some n) t u e = ground arith

-- Both machines compute the same winner: with the two sides of a conflict swapped, `local_wins`
-- gives the opposite answer, whatever the two modification times are, if the checksums differ.
local_wins_swap :
    (h : Host) (a b : FileEntry)
    → a.checksum ≢ b.checksum
    → local_wins h a b ≡ not (local_wins h b a)
unfolding local_wins
local_wins_swap h a b differ =
    newer_swap (parse_time h a.mod_time) (parse_time h b.mod_time) _ _
      (ap not (text_lt_total a.checksum b.checksum differ))
