-- ===== src/Sessions/Scan.antt =====
-- scan.go, and of store.go the shards: one scan of all transcripts, and the blocks that are read back.
use jardin.Base.{ℕ, String, Bool, true, false, ◌||◌, Option, none, some, List, [], ◌∷◌, ◌++◌}
use jardin.Base.{◌==◌, string_eq, contains, length, ltb, if◌then◌else◌}
use jardin.Base.Dict.{Dict}
use jardin.Sessions.Types.{Event, Block, Open, Texts}
use jardin.Sessions.Fold.{fold}
use jardin.Sessions.Collect.{Bytes, Reading, FileState, collect_canonical}
use jardin.Sessions.Claude.{ClaudeReading, collect_claude}
use jardin.Sessions.Nacelle.{NacelleReading, collect_nacelle}

-- A ScanState without the projects, whose cache `resolve` stands for.
pub record ScanState : Type 0 where
  pub files : Dict String FileState
  pub opened : Open

abbrev pub new_scan_state : ScanState
new_scan_state = record { files = []; opened = [] }

-- The transcripts as a scan finds them.
pub record Transcripts : Type 0 where
  pub claude : List (String × Option Bytes)
  pub canonical : List (String × String × Option Bytes)
  pub nacelle : List (String × Option Bytes)

-- The saved state and the blocks that the shards of the machine hold.
pub record Stored : Type 0 where
  pub state : ScanState
  pub shards : List Block

pub record ScanResult : Type 0 where
  pub events : ℕ
  pub sealed : ℕ
  pub still_open : ℕ

-- What a scan calls.
pub record Scanner : Type 0 where
  pub texts : Texts
  pub claude_reading : ClaudeReading
  pub reading : Reading
  pub nacelle_reading : NacelleReading
  pub sort : List Event → List Event

module _ (io : Scanner) where
  -- The three collectors of scanLocked, one after the other over the files of the state.
  unfoldable pub collect_all :
      Transcripts → Dict String FileState → List Event × Dict String FileState
  unfolding collect_claude collect_canonical collect_nacelle
  collect_all logs files =
      let (claude, files1) = collect_claude io.claude_reading logs.claude files in
      let (canonical, files2) = collect_canonical io.reading logs.canonical files1 in
      let (nacelle, files3) = collect_nacelle io.nacelle_reading logs.nacelle files2 in
      ((claude ++ canonical) ++ nacelle, files3)

  -- scanLocked, where each write succeeds.
  unfoldable pub scan_locked : String → Transcripts → ℕ → Stored → Stored × ScanResult
  unfolding collect_all fold
  scan_locked machine logs now s =
      let (evs, files) = collect_all logs s.state.files in
      let (opened, sealed) = fold io.texts io.sort machine evs now s.state.opened in
      (
        record { state = record { files = files; opened = opened }; shards = s.shards ++ sealed },
        record { events = length evs; sealed = length sealed; still_open = length opened },
      )

  -- Rescan: the shards and the state are removed first.
  unfoldable pub rescan : String → Transcripts → ℕ → Stored → Stored × ScanResult
  unfolding scan_locked
  rescan machine logs now s =
      scan_locked machine logs now (record { state = new_scan_state; shards = [] })

-- A line of a shard: its bytes without the newline, counted, and the block that json.Unmarshal reads from
-- them, none where it fails.
pub record ShardLine : Type 0 where
  pub size : ℕ
  pub block : Option Block

-- The buffer of the scanner, 1024 * 1024 bytes: a line of as many bytes is too long, and ends the scan.
abbrev pub max_line : ℕ
max_line = 1048576

abbrev skipped : Block → List String → Bool
skipped b seen = b.id == "" || contains seen b.id

abbrev keep : Option Block → List String → List Block → List Block
keep none seen bs = bs
keep (some b) seen bs = if skipped b seen then bs else b ∷ bs

abbrev noted : Option Block → List String → List String
noted none seen = seen
noted (some b) seen = if skipped b seen then seen else b.id ∷ seen

-- readShard, on the lines of the shard up to where a read of the file fails: its blocks and the ids that were
-- seen. What is behind a line that is too long is not read, and no error tells of it.
unfoldable pub read_shard : List ShardLine → List String → List Block × List String
read_shard [] seen = ([], seen)
read_shard (l ∷ ls) seen = elim (ltb l.size max_line) as (λ x. List Block × List String) [
  | false ↦ ([], seen)
  | true ↦ let (rest, after) = read_shard ls (noted l.block seen) in (keep l.block seen rest, after)
]

-- The walk of ReadBlocks over the shards; each shard that cannot be opened is none.
unfoldable pub walk_shards : List (Option (List ShardLine)) → List String → List Block
unfolding read_shard
walk_shards [] seen = []
walk_shards (none ∷ shards) seen = walk_shards shards seen
walk_shards (some ls ∷ shards) seen =
    let (new, after) = read_shard ls seen in new ++ walk_shards shards after

-- ReadBlocks, with sort.Slice by the start of blocks as an argument.
unfoldable pub read_blocks : (List Block → List Block) → List (Option (List ShardLine)) → List Block
unfolding walk_shards
read_blocks sort shards = sort (walk_shards shards [])
