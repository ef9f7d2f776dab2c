-- ===== src/Sessions/Collect.antt =====
-- canonical.go: how a log is read on from where the last scan ended.
use jardin.Base.{ℕ, zero, suc, ◌+◌, String, not, ◌||◌, Option, none, some, List, [], ◌∷◌, ◌++◌}
use jardin.Base.{◌==◌, string_eq, ltb, ◌=?◌, length, if◌then◌else◌}
use jardin.Base.Dict
use jardin.Base.Dict.{Dict}
use jardin.Sessions.Types.{Event}

pub record CanonicalUsage : Type 0 where
  pub input : ℕ
  pub output : ℕ
  pub cache_read : ℕ
  pub cache_write : ℕ

pub record CanonicalEvent : Type 0 where
  pub type : String
  pub role : String
  pub timestamp : String
  pub agent : String
  pub project : String
  pub branch : String
  pub model : String
  pub usage : Option CanonicalUsage

-- A file or a line, as its bytes.
abbrev pub Bytes : Type 0
Bytes = List ℕ

-- What this code calls and does not hold: json.Unmarshal into a CanonicalEvent and time.Parse under
-- RFC 3339, each none where it fails, and the project of a directory.
pub record Reading : Type 0 where
  pub decode : Bytes → Option CanonicalEvent
  pub parse : String → Option ℕ
  pub resolve : String → String

pub record FileState : Type 0 where
  pub offset : ℕ
  pub size : ℕ
  pub recent_reqs : List String

abbrev pub new_file : FileState
new_file = record { offset = 0; size = 0; recent_reqs = [] }

-- The state of a path, the new one where it has none.
abbrev pub state_at : Option FileState → FileState
state_at none = new_file
state_at (some fs) = fs

-- Where a read starts: at 0 when the file is shorter than what was read of it.
abbrev pub start_of : Bytes → FileState → ℕ
start_of content fs = if ltb (length content) fs.offset then 0 else fs.offset

unfoldable pub drop : ℕ → Bytes → Bytes
drop zero bs = bs
drop (suc n) [] = []
drop (suc n) (b ∷ bs) = drop n bs

-- The lines that a newline ends, each with it, and the number of their bytes. `line` holds the bytes
-- of the one that is being read.
abbrev pub next_line : Bytes → List Bytes × ℕ → List Bytes × ℕ
next_line line rest = (line ∷ rest.0, length line + rest.1)

unfoldable pub lines_from : Bytes → Bytes → List Bytes × ℕ
lines_from line [] = ([], 0)
lines_from line (b ∷ bs) =
    let rest = lines_from (if b =? 10 then [] else line ++ (b ∷ [])) bs in
    if b =? 10 then next_line (line ++ (b ∷ [])) rest else rest

-- The bytes after the last newline.
unfoldable pub pending : Bytes → Bytes → Bytes
pending line [] = line
pending line (b ∷ bs) = pending (if b =? 10 then [] else line ++ (b ∷ [])) bs

abbrev pub add_event : Option Event → List Event → List Event
add_event none evs = evs
add_event (some ev) evs = ev ∷ evs

module _ (io : Reading) where
  abbrev chosen : String → String → String
  chosen first second = if first == "" then second else first

  abbrev event_at : CanonicalEvent → String → Option CanonicalUsage → Option ℕ → Option Event
  event_at ce agent_dir none t = none
  event_at ce agent_dir (some u) none = none
  event_at ce agent_dir (some u) (some t) = some (record {
    time = t;
    agent = chosen ce.agent agent_dir;
    project = chosen ce.project (io.resolve "");
    branch = if ce.branch == "HEAD" then "" else ce.branch;
    model = ce.model;
    tokens_in = u.input + u.cache_write;
    tokens_out = u.output;
    cache_read = u.cache_read;
    cache_write = u.cache_write;
  })

  abbrev decoded : String → Option CanonicalEvent → Option Event
  decoded agent_dir none = none
  decoded agent_dir (some ce) =
      if not (ce.type == "message") || not (ce.role == "assistant")
      then none
      else event_at ce agent_dir ce.usage (io.parse ce.timestamp)

  -- canonicalEventFrom
  unfoldable pub canonical_event_from : Bytes → String → Option Event
  canonical_event_from raw agent_dir = decoded agent_dir (io.decode raw)

  -- The events of some lines.
  unfoldable pub events_of : String → List Bytes → List Event
  unfolding canonical_event_from
  events_of agent_dir [] = []
  events_of agent_dir (line ∷ lines) =
      add_event (canonical_event_from line agent_dir) (events_of agent_dir lines)

  -- tailCanonicalFile, on a file that can be read.
  unfoldable pub tail_canonical_file : String → Bytes → ℕ → List Event × ℕ
  unfolding drop lines_from events_of
  tail_canonical_file agent_dir content offset =
      let (lines, n) = lines_from [] (drop offset content) in
      (events_of agent_dir lines, offset + n)

  abbrev moved : FileState → ℕ → List Event × ℕ → List Event × FileState
  moved fs size (evs, offset) = (evs, record fs { offset = offset; size = size })

  -- One file of collectCanonical.
  unfoldable pub collect_file : String → Bytes → FileState → List Event × FileState
  unfolding tail_canonical_file
  collect_file agent_dir content fs =
      let read =
        moved fs (length content) (tail_canonical_file agent_dir content (start_of content fs)) in
      if length content =? fs.size then ([], fs) else read

  -- collectCanonical, on the logs that the pattern finds: the path, its directory's name, and its bytes,
  -- none where it cannot be read.
  unfoldable pub collect_canonical :
      List (String × String × Option Bytes)
      → Dict String FileState
      → List Event × Dict String FileState
  unfolding collect_file
  collect_canonical [] files = ([], files)
  collect_canonical ((path, agent_dir, none) ∷ logs) files = collect_canonical logs files
  collect_canonical ((path, agent_dir, some content) ∷ logs) files =
      let (evs, fs) = collect_file agent_dir content (state_at (Dict.lookup path files)) in
      let (more, after) = collect_canonical logs (Dict.insert path fs files) in (evs ++ more, after)
