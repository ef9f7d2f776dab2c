-- ===== src/Sessions/Types.antt =====
-- sessions.go: events and blocks. Counters stay below 2 ^ 63, instants are nanoseconds, and costs,
-- which are Go's float64, are left out.
use jardin.Base.{ℕ, suc, ◌+◌, String, ◌<>◌}
use jardin.Base.{◌==◌, string_eq, ltb, if◌then◌else◌}
use jardin.Base.Dict.{Dict}

pub record Event : Type 0 where
  pub time : ℕ
  pub agent : String
  pub project : String
  pub branch : String
  pub model : String
  pub tokens_in : ℕ
  pub tokens_out : ℕ
  pub cache_read : ℕ
  pub cache_write : ℕ

pub record Block : Type 0 where
  pub id : String
  pub project : String
  pub machine : String
  pub agent : String
  pub branch : String
  pub model : String
  pub started_at : ℕ
  pub ended_at : ℕ
  pub events : ℕ
  pub tokens_in : ℕ
  pub tokens_out : ℕ
  pub cache_read : ℕ
  pub cache_write : ℕ

-- GapTimeout: 15 minutes.
abbrev pub gap_timeout : ℕ
gap_timeout = 900000000000

-- SealTimeout: 30 minutes.
abbrev pub seal_timeout : ℕ
seal_timeout = 1800000000000

-- The open blocks of a ScanState.
abbrev pub Open : Type 0
Open = Dict String Block

-- What this code calls and does not hold: strings.ToLower, sha256 in sixteen hexadecimal digits, and
-- Format under RFC 3339.
pub record Texts : Type 0 where
  pub to_lower : String → String
  pub short_hash : String → String
  pub format : ℕ → String

abbrev filled : String → String → String
filled new old = if new == "" then old else new

-- applyEvent
unfoldable pub apply_event : Block → Event → Block
apply_event opened ev = record opened {
  started_at = if ltb ev.time opened.started_at then ev.time else opened.started_at;
  ended_at = if ltb opened.ended_at ev.time then ev.time else opened.ended_at;
  branch = filled ev.branch opened.branch;
  model = filled ev.model opened.model;
  events = suc opened.events;
  tokens_in = opened.tokens_in + ev.tokens_in;
  tokens_out = opened.tokens_out + ev.tokens_out;
  cache_read = opened.cache_read + ev.cache_read;
  cache_write = opened.cache_write + ev.cache_write;
}

-- The block that `fold` opens for an event.
unfoldable pub open_block : String → Event → Block
open_block machine ev = record {
  id = "";
  project = ev.project;
  machine = machine;
  agent = ev.agent;
  branch = "";
  model = "";
  started_at = ev.time;
  ended_at = ev.time;
  events = 0;
  tokens_in = 0;
  tokens_out = 0;
  cache_read = 0;
  cache_write = 0;
}

module _ (texts : Texts) where
  -- computeID
  unfoldable pub compute_id : Block → String
  compute_id b = texts.short_hash (
      b.machine <> ("|" <> (b.agent <> ("|" <> (b.project <> ("|" <> texts.format b.started_at))))))

  -- finalize
  unfoldable pub finalize : Block → Block
  unfolding compute_id
  finalize b = record b { id = compute_id b }
