-- ===== src/Sessions/Claude.antt =====
-- claude.go: how the transcripts of Claude Code are read. Prices, which are float64, are left out.
use jardin.Base.{ℕ, zero, suc, ◌+◌, ◌-◌, String, not, ◌&&◌, Option, none, some, List, [], ◌∷◌, ◌++◌}
use jardin.Base.{◌==◌, string_eq, contains, ltb, ◌=?◌, length, if◌then◌else◌}
use jardin.Base.Dict
use jardin.Base.Dict.{Dict}
use jardin.Sessions.Types.{Event}
use jardin.Sessions.Collect.{Bytes, FileState, drop, lines_from, state_at, start_of}

abbrev pub recent_req_cap : ℕ
recent_req_cap = 64

pub record ClaudeUsage : Type 0 where
  pub input_tokens : ℕ
  pub output_tokens : ℕ
  pub cache_creation_tokens : ℕ
  pub cache_read_tokens : ℕ

pub record ClaudeMessage : Type 0 where
  pub model : String
  pub usage : Option ClaudeUsage

pub record ClaudeLine : Type 0 where
  pub type : String
  pub timestamp : String
  pub cwd : String
  pub git_branch : String
  pub request_id : String
  pub message : Option ClaudeMessage

-- What this code calls and does not hold: json.Unmarshal into a claudeLine and time.Parse under RFC
-- 3339, each none where it fails, and the project of a directory.
pub record ClaudeReading : Type 0 where
  pub decode : Bytes → Option ClaudeLine
  pub parse : String → Option ℕ
  pub resolve : String → String

-- What a read carries: the ids of the requests that it has seen, and the window of them that the state keeps.
pub record Window : Type 0 where
  pub seen : List String
  pub recent : List String

unfoldable pub drop_first : ℕ → List String → List String
drop_first zero ids = ids
drop_first (suc n) [] = []
drop_first (suc n) (id ∷ ids) = drop_first n ids

-- The window with its oldest entries cut off above the cap.
unfoldable pub capped : List String → List String
unfolding drop_first
capped ids =
    if ltb recent_req_cap (length ids) then drop_first (length ids - recent_req_cap) ids else ids

abbrev pub emptied : Event → Event
emptied ev = record ev { tokens_in = 0; tokens_out = 0; cache_read = 0; cache_write = 0 }

-- dedupeUsage
unfoldable pub dedupe_usage : Event → String → Window → Event × Window
unfolding capped
dedupe_usage ev req_id w =
    let noted : Window = record {
      seen = w.seen ++ (req_id ∷ []);
      recent = capped (w.recent ++ (req_id ∷ []));
    } in
    if req_id == ""
    then (ev, w)
    else if contains w.seen req_id
    then (emptied ev, w)
    else (ev, noted)

module _ (io : ClaudeReading) where
  abbrev base_event : ClaudeLine → ℕ → Event
  base_event l t = record {
    time = t;
    agent = "claude";
    project = io.resolve l.cwd;
    branch = if l.git_branch == "HEAD" then "" else l.git_branch;
    model = "";
    tokens_in = 0;
    tokens_out = 0;
    cache_read = 0;
    cache_write = 0;
  }

  abbrev with_usage : ClaudeLine → Event → Option ClaudeUsage → Event × String
  with_usage l ev none = (ev, "")
  with_usage l ev (some u) = (
    record ev {
      tokens_in = u.input_tokens;
      tokens_out = u.output_tokens;
      cache_read = u.cache_read_tokens;
      cache_write = u.cache_creation_tokens;
    },
    l.request_id,
  )

  abbrev with_message : ClaudeLine → Event → Option ClaudeMessage → Event × String
  with_message l ev none = (ev, "")
  with_message l ev (some m) = with_usage l (record ev { model = m.model }) m.usage

  abbrev timed : ClaudeLine → Option ℕ → Option (Event × String)
  timed l none = none
  timed l (some t) = some (with_message l (base_event l t) l.message)

  abbrev decoded : Option ClaudeLine → Option (Event × String)
  decoded none = none
  decoded (some l) =
      if not (l.type == "user") && not (l.type == "assistant")
      then none
      else if l.cwd == ""
      then none
      else timed l (io.parse l.timestamp)

  -- parseClaudeLine
  unfoldable pub parse_claude_line : Bytes → Option (Event × String)
  parse_claude_line raw = decoded (io.decode raw)

  abbrev pub step : Option (Event × String) → Window → List Event × Window
  step none w = ([], w)
  step (some (ev, req_id)) w = let (ev', w') = dedupe_usage ev req_id w in (ev' ∷ [], w')

  -- The loop over the lines.
  unfoldable pub tail_lines : List Bytes → Window → List Event × Window
  unfolding parse_claude_line dedupe_usage
  tail_lines [] w = ([], w)
  tail_lines (line ∷ lines) w =
      let (first, w') = step (parse_claude_line line) w in
      let (rest, after) = tail_lines lines w' in (first ++ rest, after)

  -- tailFile, on a file that can be read, from an offset and with the window of the state.
  unfoldable pub tail_file : Bytes → ℕ → List String → List Event × ℕ × Window
  unfolding drop lines_from tail_lines
  tail_file content offset recent =
      let (lines, n) = lines_from [] (drop offset content) in
      let (evs, w) = tail_lines lines (record { seen = recent; recent = recent }) in
      (evs, offset + n, w)

  abbrev moved : ℕ → List Event × ℕ × Window → List Event × FileState
  moved size (evs, offset, w) =
      (evs, record { offset = offset; size = size; recent_reqs = w.recent })

  -- One file of collectClaude.
  unfoldable pub collect_claude_file : Bytes → FileState → List Event × FileState
  unfolding tail_file
  collect_claude_file content fs =
      let recent = if ltb (length content) fs.offset then [] else fs.recent_reqs in
      let read = moved (length content) (tail_file content (start_of content fs) recent) in
      if length content =? fs.size then ([], fs) else read

  -- collectClaude, on the transcripts that the pattern finds: the path and its bytes, none where it
  -- cannot be read.
  unfoldable pub collect_claude :
      List (String × Option Bytes) → Dict String FileState → List Event × Dict String FileState
  unfolding collect_claude_file
  collect_claude [] files = ([], files)
  collect_claude ((path, none) ∷ logs) files = collect_claude logs files
  collect_claude ((path, some content) ∷ logs) files =
      let (evs, fs) = collect_claude_file content (state_at (Dict.lookup path files)) in
      let (more, after) = collect_claude logs (Dict.insert path fs files) in (evs ++ more, after)
