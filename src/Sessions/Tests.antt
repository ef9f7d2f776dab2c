-- ===== src/Sessions/Tests.antt =====
-- Scans of small transcripts, and the theorems on sessions at concrete data.
use jardin.Base.{
  ℕ, ◌≤◌, String, true, not, ◌&&◌, Option, none, some, List, [], ◌∷◌, ◌++◌, ◌≡◌, ◌≢◌, refl, arith,
}
use jardin.Base.{string_eq, nat_eq, ◌==◌, ◌=?◌, length, All, if◌then◌else◌}
use mathlib.Core.List.Permᴰ
use jardin.Base.Dict
use jardin.Sessions.Types.{Event, Block, Open, Texts, apply_event, open_block, compute_id, finalize}
use jardin.Sessions.Fold.{key_of, fold_events, seal_idle, fold}
use jardin.Sessions.Collect.{
  Bytes, CanonicalEvent, Reading, new_file, drop, lines_from, pending, canonical_event_from,
  events_of,
}
use jardin.Sessions.Claude.{
  ClaudeLine, ClaudeReading, Window, capped, dedupe_usage, parse_claude_line, tail_lines, tail_file,
  collect_claude_file,
}
use jardin.Sessions.Nacelle.{
  NacelleRecord, NacelleReading, complete_record, nacelle_event, turns_of, tail_nacelle,
}
use jardin.Sessions.Scan.{
  new_scan_state, Stored, Scanner, scan_locked, ShardLine, read_shard, walk_shards, read_blocks,
}
use jardin.Sessions.Conserved.{events, tokens_in, total_events, total}
use jardin.Sessions.Scans.{one_log, Scanned, start, again, total-Scanned}
use jardin.Sessions.Requests.{tail_lines-repeated}
use jardin.Sessions.Reread.{collect_claude_file-split}
use jardin.Sessions.Shards.{count_id, is_held, count_id-read_blocks}
use jardin.Sessions.Proper.{IsSealed, IsOpened, IsCurrent, fold-IsSound}
use jardin.Sessions.Unended.{tail_nacelle-unended}

abbrev texts : Texts
texts = record {
  to_lower = λ s. s;
  short_hash = λ s. s;
  format = λ t. if t == 3 then "at 3" else "later";
}

-- A line is one byte and a newline, and the byte is both its instant and its usage.
abbrev first_byte : Bytes → ℕ
first_byte [] = 0
first_byte (b ∷ bs) = b

abbrev event_of_byte : ℕ → CanonicalEvent
event_of_byte b = record {
  type = "message";
  role = "assistant";
  timestamp = if b == 3 then "three" else "five";
  agent = "";
  project = "jardin";
  branch = "HEAD";
  model = "m";
  usage = some (record { input = b; output = 1; cache_read = 0; cache_write = 2 });
}

abbrev instants : String → Option ℕ
instants s = if s == "three" then some 3 else some 5

abbrev reading : Reading
reading = record {
  decode = λ raw. if length raw =? 2 then some (event_of_byte (first_byte raw)) else none;
  parse = instants;
  resolve = λ cwd. "home";
}

abbrev line_of_byte : ℕ → ClaudeLine
line_of_byte b = record {
  type = "assistant";
  timestamp = "five";
  cwd = "/w";
  git_branch = "main";
  request_id = if b == 3 then "r3" else "r5";
  message = some (record {
    model = "m";
    usage = some (record {
      input_tokens = b;
      output_tokens = 1;
      cache_creation_tokens = 0;
      cache_read_tokens = 0;
    });
  });
}

abbrev claude_reading : ClaudeReading
claude_reading = record {
  decode = λ raw. if length raw =? 2 then some (line_of_byte (first_byte raw)) else none;
  parse = instants;
  resolve = λ cwd. "home";
}

abbrev record_of_byte : ℕ → NacelleRecord
record_of_byte b = record {
  kind = "turn";
  ts = "five";
  model = "m";
  usage = some (record { input = b; output = 1; cache_read = 0; cache_write = 0 });
}

-- A record is one byte other than a newline, or two bytes, and a newline that ends it is no part of it.
abbrev decode_record : Bytes → Option NacelleRecord
decode_record [] = none
decode_record (b ∷ bs) = if b == 10 then none else some (record_of_byte b)

abbrev nacelle_reading : NacelleReading
nacelle_reading = record { decode = decode_record; is_json = λ raw. true; parse = instants }

abbrev scanner : Scanner
scanner = record {
  texts = texts;
  claude_reading = claude_reading;
  reading = reading;
  nacelle_reading = nacelle_reading;
  sort = λ evs. evs;
}

-- A log of three lines that two scans find in two parts, the first of them in the middle of a line.
abbrev first_part : Bytes
first_part = 3 ∷ 10 ∷ 5 ∷ []

abbrev second_part : Bytes
second_part = 10 ∷ 3 ∷ 10 ∷ []

abbrev empty_store : Stored
empty_store = record { state = new_scan_state; shards = [] }

abbrev after_one : Stored
after_one = (scan_locked scanner "m" (one_log "p" "claude" first_part) 100 empty_store).0

abbrev after_two : Stored
after_two =
    (scan_locked scanner "m" (one_log "p" "claude" (first_part ++ second_part)) 200 after_one).0

two_scans : Scanned scanner "m" "p" "claude" (first_part ++ second_part) after_two
two_scans = again first_part after_one second_part 200 (again [] empty_store first_part 100 start)

total-Scanned_example :
    total tokens_in (after_two.state.opened, after_two.shards)
    ≡ total_events tokens_in
        (events_of reading "claude" (lines_from [] (first_part ++ second_part)).0)
total-Scanned_example =
    total-Scanned scanner "m" "p" "claude" (λ evs. Permᴰ.refl evs) tokens_in
      (first_part ++ second_part) after_two two_scans

three_events :
    total_events events (events_of reading "claude" (lines_from [] (first_part ++ second_part)).0)
    ≡ 3
unfolding total_events events_of lines_from canonical_event_from string_eq nat_eq
three_events = refl

-- Two lines of request r3 stand on both sides of the first scan.
abbrev claude_first : Bytes
claude_first = 3 ∷ 10 ∷ 5 ∷ 10 ∷ []

abbrev claude_second : Bytes
claude_second = 3 ∷ 10 ∷ []

few_requests : length (tail_file claude_reading (claude_first ++ claude_second) 0 []).2.seen ≤ 64
unfolding tail_file drop lines_from tail_lines parse_claude_line dedupe_usage capped string_eq
    nat_eq
few_requests = omega arith

collect_claude_file-split_example :
    let first = collect_claude_file claude_reading claude_first new_file in
    let second = collect_claude_file claude_reading (claude_first ++ claude_second) first.1 in
    (first.0 ++ second.0, second.1)
    ≡ collect_claude_file claude_reading (claude_first ++ claude_second) new_file
collect_claude_file-split_example =
    collect_claude_file-split claude_reading claude_first claude_second few_requests

-- The tokens of the second line of r3 are not counted again.
tokens_of_two_requests :
    total_events tokens_in
      (collect_claude_file claude_reading (claude_first ++ claude_second) new_file).0
    ≡ 8
unfolding total_events collect_claude_file tail_file drop lines_from tail_lines parse_claude_line
    dedupe_usage capped string_eq nat_eq
tokens_of_two_requests = refl

abbrev at_start : Window
at_start = record { seen = []; recent = [] }

abbrev event_of_three : Event
event_of_three = record {
  time = 5;
  agent = "claude";
  project = "home";
  branch = "main";
  model = "m";
  tokens_in = 3;
  tokens_out = 1;
  cache_read = 0;
  cache_write = 0;
}

parsed_three : parse_claude_line claude_reading (3 ∷ 10 ∷ []) ≡ some (event_of_three, "r3")
unfolding parse_claude_line string_eq nat_eq
parsed_three = refl

is_named : ◌≢◌ {A = String} "r3" ""
is_named e = cc e

is_tokens : tokens_in ≢ events
is_tokens e = cc e

tail_lines-repeated_example :
    total_events tokens_in
      (tail_lines claude_reading
        ((3 ∷ 10 ∷ []) ∷ ((5 ∷ 10 ∷ []) ∷ ((3 ∷ 10 ∷ []) ∷ [])))
        at_start).0
    ≡ total_events tokens_in
        (tail_lines claude_reading ((3 ∷ 10 ∷ []) ∷ ((5 ∷ 10 ∷ []) ∷ [])) at_start).0
tail_lines-repeated_example =
    tail_lines-repeated claude_reading tokens_in [] ((5 ∷ 10 ∷ []) ∷ []) [] (3 ∷ 10 ∷ [])
      (3 ∷ 10 ∷ []) event_of_three event_of_three "r3" at_start is_tokens parsed_three parsed_three
      is_named

abbrev a_block : String → Block
a_block id = record {
  id = id;
  project = "jardin";
  machine = "m";
  agent = "claude";
  branch = "";
  model = "";
  started_at = 3;
  ended_at = 5;
  events = 2;
  tokens_in = 8;
  tokens_out = 2;
  cache_read = 0;
  cache_write = 4;
}

abbrev a_line : Block → ShardLine
a_line b = record { size = 400; block = some b }

-- The first shard repeats a block and has an empty id, the second cannot be opened, and the third has a line that
-- is not JSON, and one that is too long, before its last block.
abbrev three_shards : List (Option (List ShardLine))
three_shards =
    some (a_line (a_block "b1") ∷ a_line (a_block "b1") ∷ a_line (a_block "") ∷ [])
    ∷ none
    ∷ some (
        (record { size = 7; block = none })
        ∷ a_line (a_block "b2")
        ∷ a_line (a_block "b1")
        ∷ (record { size = 1048576; block = some (a_block "b3") })
        ∷ a_line (a_block "b4")
        ∷ [])
    ∷ []

count_id-read_blocks_example :
    count_id "b1" (read_blocks (λ bs. bs) three_shards)
    ≡ if◌then◌else◌ {A = ℕ} (not (◌==◌ {A = String} "b1" "") && is_held "b1" three_shards) 1 0
count_id-read_blocks_example =
    count_id-read_blocks (λ bs. bs) (λ bs. Permᴰ.refl bs) "b1" three_shards

length-read_blocks : length (read_blocks (λ bs. bs) three_shards) ≡ 2
unfolding read_blocks walk_shards read_shard string_eq
length-read_blocks = refl

is_held-b1 : is_held "b1" three_shards ≡ true
unfolding is_held string_eq
is_held-b1 = refl

-- The block behind the long line is lost.
count_id-b4 : count_id "b4" (read_blocks (λ bs. bs) three_shards) ≡ 0
unfolding read_blocks walk_shards read_shard count_id string_eq
count_id-b4 = refl

-- One block is open, another event of its project comes long after it, and a third of another agent.
abbrev an_event : ℕ → String → Event
an_event t agent = record event_of_three { time = t; agent = agent; project = "jardin" }

abbrev an_open_block : Open
an_open_block = ("jardin|claude", a_block "") ∷ []

an_open_block-IsOpened : All (IsOpened texts) an_open_block
an_open_block-IsOpened = (((omega arith, omega arith), refl), tt)

abbrev folded : Open × List Block
folded =
    fold texts (λ evs. evs) "m"
      (an_event 2000000000000 "claude" ∷ an_event 9000000000000 "codex" ∷ []) 9000000000000
      an_open_block

fold-IsSound_example : All (IsCurrent texts 9000000000000) folded.0 × All (IsSealed texts) folded.1
fold-IsSound_example =
    fold-IsSound texts (λ evs. evs) "m"
      (an_event 2000000000000 "claude" ∷ an_event 9000000000000 "codex" ∷ []) 9000000000000
      an_open_block an_open_block-IsOpened

-- The late event seals the old block, and the block that it opens is idle at the end.
length-folded : (length folded.0 ≡ 1) × (length folded.1 ≡ 2)
unfolding fold fold_events seal_idle key_of apply_event open_block finalize compute_id Dict.insert
    Dict.lookup string_eq nat_eq
length-folded = (refl, refl)

decode_record-ended : (raw : Bytes) → decode_record (raw ++ (10 ∷ [])) ≡ decode_record raw
unfolding nat_eq
decode_record-ended [] = refl
decode_record-ended (b ∷ bs) = refl

complete-three : complete_record nacelle_reading (pending [] (5 ∷ 10 ∷ 3 ∷ [])) ≡ true
unfolding complete_record pending nat_eq
complete-three = refl

tail_nacelle-unended_example :
    let first = tail_nacelle nacelle_reading (5 ∷ 10 ∷ 3 ∷ []) 0 in
    let second = tail_nacelle nacelle_reading (5 ∷ 10 ∷ 3 ∷ 10 ∷ 5 ∷ 10 ∷ []) first.1 in
    (first.0 ++ second.0, second.1) ≡ tail_nacelle nacelle_reading (5 ∷ 10 ∷ 3 ∷ 10 ∷ 5 ∷ 10 ∷ []) 0
unfolding nat_eq
tail_nacelle-unended_example =
    tail_nacelle-unended nacelle_reading refl decode_record-ended (5 ∷ 10 ∷ 3 ∷ []) (5 ∷ 10 ∷ [])
      complete-three

three_records : length (tail_nacelle nacelle_reading (5 ∷ 10 ∷ 3 ∷ []) 0).0 ≡ 2
unfolding tail_nacelle drop lines_from pending complete_record turns_of nacelle_event string_eq
    nat_eq
three_records = refl
