-- ===== src/Sessions/Nacelle.antt =====
-- nacelle.go: how the transcripts of Nacelle are read. Costs, which are float64, are left out.
use jardin.Base.{ℕ, ◌+◌, String, Bool, ◌&&◌, Option, none, some, List, [], ◌∷◌, ◌++◌}
use jardin.Base.{◌==◌, string_eq, ltb, ◌=?◌, length, if◌then◌else◌}
use jardin.Base.Dict
use jardin.Base.Dict.{Dict}
use jardin.Sessions.Types.{Event}
use jardin.Sessions.Collect.{
  Bytes, FileState, drop, lines_from, pending, add_event, state_at, start_of,
}

pub record NacelleUse : Type 0 where
  pub input : ℕ
  pub output : ℕ
  pub cache_read : ℕ
  pub cache_write : ℕ

pub record NacelleRecord : Type 0 where
  pub kind : String
  pub ts : String
  pub model : String
  pub usage : Option NacelleUse

-- What this code calls and does not hold: json.Unmarshal into a nacelleRecord, none where it fails,
-- whether json.Unmarshal takes the bytes as a value, and time.Parse under RFC 3339.
pub record NacelleReading : Type 0 where
  pub decode : Bytes → Option NacelleRecord
  pub is_json : Bytes → Bool
  pub parse : String → Option ℕ

module _ (io : NacelleReading) where
  -- completeRecord
  unfoldable pub complete_record : Bytes → Bool
  complete_record raw = ltb 0 (length raw) && io.is_json raw

  abbrev turn_at : NacelleRecord → NacelleUse → Option ℕ → Option Event
  turn_at rec u none = none
  turn_at rec u (some t) = some (record {
    time = t;
    agent = "nacelle";
    project = "";
    branch = "";
    model = rec.model;
    tokens_in = u.input;
    tokens_out = u.output;
    cache_read = u.cache_read;
    cache_write = u.cache_write;
  })

  abbrev used : NacelleRecord → Option NacelleUse → Option Event
  used rec none = none
  used rec (some u) = turn_at rec u (io.parse rec.ts)

  abbrev decoded : Option NacelleRecord → Option Event
  decoded none = none
  decoded (some rec) = if rec.kind == "turn" then used rec rec.usage else none

  -- nacelleEvent
  unfoldable pub nacelle_event : Bytes → Option Event
  nacelle_event raw = decoded (io.decode raw)

  unfoldable pub turns_of : List Bytes → List Event
  unfolding nacelle_event
  turns_of [] = []
  turns_of (line ∷ lines) = add_event (nacelle_event line) (turns_of lines)

  -- tailNacelle, on a file that can be read: the lines, and what follows the last newline when it is a
  -- whole record.
  unfoldable pub tail_nacelle : Bytes → ℕ → List Event × ℕ
  unfolding drop lines_from pending complete_record turns_of
  tail_nacelle content offset =
      let rest = drop offset content in
      let (lines, n) = lines_from [] rest in
      let last = pending [] rest in
      if complete_record last
      then (turns_of lines ++ turns_of (last ∷ []), (offset + n) + length last)
      else (turns_of lines, offset + n)

  abbrev moved : FileState → ℕ → List Event × ℕ → List Event × FileState
  moved fs size (evs, offset) = (evs, record fs { offset = offset; size = size })

  -- One file of collectNacelle.
  unfoldable pub collect_nacelle_file : Bytes → FileState → List Event × FileState
  unfolding tail_nacelle
  collect_nacelle_file content fs =
      let read = moved fs (length content) (tail_nacelle content (start_of content fs)) in
      if length content =? fs.size then ([], fs) else read

  -- collectNacelle, on the transcripts that the pattern finds: the path and its bytes, none where it
  -- cannot be read.
  unfoldable pub collect_nacelle :
      List (String × Option Bytes) → Dict String FileState → List Event × Dict String FileState
  unfolding collect_nacelle_file
  collect_nacelle [] files = ([], files)
  collect_nacelle ((path, none) ∷ logs) files = collect_nacelle logs files
  collect_nacelle ((path, some content) ∷ logs) files =
      let (evs, fs) = collect_nacelle_file content (state_at (Dict.lookup path files)) in
      let (more, after) = collect_nacelle logs (Dict.insert path fs files) in (evs ++ more, after)
