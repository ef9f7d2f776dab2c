-- ===== src/Sessions/Scans.antt =====
-- A log that grows between scans.
use jardin.Base.{
  ℕ, ◌+◌, String, true, false, some, List, [], ◌∷◌, ◌++◌, ◌≡◌, refl, ap, sym, ◌∙◌, arith,
}
use jardin.Base.{string_eq, ◌=?◌, length, length-append, ltb, Bool-cases, inl, inr}
use mathlib.Core.List.{append-nil}
use mathlib.Core.List.{Permᴰ}
use jardin.Base.Dict
use jardin.Base.Dict.{Dict}
use jardin.Sessions.Types.{Event}
use jardin.Sessions.Fold.{fold}
use jardin.Sessions.Collect.{
  Bytes, Reading, FileState, state_at, drop, lines_from, canonical_event_from, events_of,
  tail_canonical_file, collect_file, collect_canonical,
}
use jardin.Sessions.Claude.{collect_claude}
use jardin.Sessions.Nacelle.{collect_nacelle}
use jardin.Sessions.Scan.{new_scan_state, Transcripts, Stored, Scanner, collect_all, scan_locked}
use jardin.Sessions.Conserved.{
  Counter, total_events, total_open, total_blocks, total, total_blocks-append, total_events-append,
  total-fold,
}
use jardin.Sessions.Resume.{lines_from-resume, consumed-le, add_event-append}

-- All that was read of a log, as its state has it.
abbrev IsRead : Bytes → FileState → Type 0
IsRead content fs = (fs.offset ≡ (lines_from [] content).1) × (fs.size ≡ length content)

module _ (io : Reading) (agent_dir : String) where
  -- The events of the complete lines of a log.
  abbrev all_events : Bytes → List Event
  all_events content = events_of io agent_dir (lines_from [] content).0

  events_of-append :
      (as_ bs : List Bytes)
      → events_of io agent_dir (as_ ++ bs) ≡ events_of io agent_dir as_ ++ events_of io agent_dir bs
  unfolding events_of
  events_of-append [] bs = refl
  events_of-append (a ∷ as_) bs = rw (events_of-append as_ bs) (
      add_event-append (canonical_event_from io a agent_dir) (events_of io agent_dir as_)
        (events_of io agent_dir bs))

  -- One read of a log that has grown gives the new events, and leaves all of it read.
  abbrev IsGrown : Bytes → Bytes → List Event × FileState → Type 0
  IsGrown bs ps r = (all_events (bs ++ ps) ≡ all_events bs ++ r.0) × IsRead (bs ++ ps) r.1

  nothing_new :
      (bs ps : Bytes) (fs : FileState)
      → IsRead bs fs
      → length (bs ++ ps) ≡ fs.size
      → IsGrown bs ps ([], fs)
  nothing_new bs [] fs h e =
      (ap all_events (append-nil bs) ∙ sym (append-nil (all_events bs)), cast_read)
    where
      cast_read : IsRead (bs ++ []) fs
      cast_read = rw (append-nil bs) h
  nothing_new bs (p ∷ ps) fs (ho, hs) e = absurd (omega (arith, hs, e, length-append bs (p ∷ ps)))

  -- What one read of a log gives, from an offset that its length reaches.
  abbrev read_on : Bytes → FileState → List Event × FileState
  read_on content fs =
      let (lines, n) = lines_from [] (drop fs.offset content) in
      (events_of io agent_dir lines, record fs { offset = fs.offset + n; size = length content })

  collect_file-same :
      (content : Bytes) (fs : FileState)
      → (length content =? fs.size) ≡ true
      → collect_file io agent_dir content fs ≡ ([], fs)
  unfolding collect_file
  collect_file-same content fs same = rw same refl

  collect_file-grown :
      (content : Bytes) (fs : FileState)
      → (length content =? fs.size) ≡ false
      → ltb (length content) fs.offset ≡ false
      → collect_file io agent_dir content fs ≡ read_on content fs
  unfolding collect_file tail_canonical_file
  collect_file-grown content fs grown reached = rw (grown, reached) refl

  reached :
      (bs ps : Bytes) (fs : FileState) → IsRead bs fs → ltb (length (bs ++ ps)) fs.offset ≡ false
  reached bs ps fs (ho, hs) = ground (arith, ho, consumed-le [] bs, length-append bs ps)

  read_on-IsGrown :
      (bs ps : Bytes) (fs : FileState) → IsRead bs fs → IsGrown bs ps (read_on (bs ++ ps) fs)
  read_on-IsGrown bs ps fs (ho, hs) =
      let resumed = lines_from-resume bs ps in
      rw ho (
        ap (λ r. events_of io agent_dir r.0) resumed
            ∙ events_of-append (lines_from [] bs).0
                (lines_from [] (drop (lines_from [] bs).1 (bs ++ ps))).0,
        (sym (ap (λ r. r.1) resumed), refl),
      )

  collect_file-IsGrown :
      (bs ps : Bytes) (fs : FileState)
      → IsRead bs fs
      → IsGrown bs ps (collect_file io agent_dir (bs ++ ps) fs)
  collect_file-IsGrown bs ps fs h = elim (Bool-cases (length (bs ++ ps) =? fs.size)) [
    | inl same ↦
        rw (collect_file-same (bs ++ ps) fs same) (nothing_new bs ps fs h (ground (arith, same)))
    | inr grown ↦
        rw (collect_file-grown (bs ++ ps) fs grown (reached bs ps fs h))
          (read_on-IsGrown bs ps fs h)
  ]

-- What a scan finds when the only transcript is a canonical log.
abbrev pub one_log : String → String → Bytes → Transcripts
one_log path agent_dir content = record {
  claude = [];
  canonical = (path, agent_dir, some content) ∷ [];
  nacelle = [];
}

module _ (io : Scanner) (machine path agent_dir : String) where
  -- The scans of a log that only grows, from a machine where nothing is stored: the log at the last scan,
  -- and what is stored after it.
  pub data Scanned : Bytes → Stored → Type 0 where
    start : Scanned [] (record { state = new_scan_state; shards = [] })
    again :
        (bs : Bytes) (s : Stored) (ps : Bytes) (now : ℕ)
        → Scanned bs s
        → Scanned (bs ++ ps) (scan_locked io machine (one_log path agent_dir (bs ++ ps)) now s).0

  abbrev state_of : Stored → FileState
  state_of s = state_at (Dict.lookup path s.state.files)

  abbrev found : Bytes → Stored → List Event × FileState
  found content s = collect_file io.reading agent_dir content (state_of s)

  collect_all-one_log :
      (content : Bytes) (s : Stored)
      → collect_all io (one_log path agent_dir content) s.state.files
        ≡ ((found content s).0, Dict.insert path (found content s).1 s.state.files)
  unfolding collect_all collect_claude collect_canonical collect_nacelle
  collect_all-one_log content s =
      ap (λ evs. (evs, Dict.insert path (found content s).1 s.state.files))
        (append-nil ((found content s).0 ++ []) ∙ append-nil (found content s).0)

  total-scan_locked :
      ((evs : List Event) → Permᴰ (io.sort evs) evs)
      → (c : Counter) (logs : Transcripts) (now : ℕ) (s : Stored)
      → total c (
        (scan_locked io machine logs now s).0.state.opened,
        (scan_locked io machine logs now s).0.shards,
      )
        ≡ total c (s.state.opened, s.shards) + total_events c (collect_all io logs s.state.files).0
  unfolding scan_locked
  total-scan_locked permutes c logs now s =
      let evs = (collect_all io logs s.state.files).0 in
      omega (
        arith,
        total-fold io.texts io.sort permutes c machine evs now s.state.opened,
        total_blocks-append c s.shards (fold io.texts io.sort machine evs now s.state.opened).1,
      )

  files-scan_locked :
      (content : Bytes) (now : ℕ) (s : Stored)
      → (scan_locked io machine (one_log path agent_dir content) now s).0.state.files
        ≡ Dict.insert path (found content s).1 s.state.files
  unfolding scan_locked
  files-scan_locked content now s = ap (λ r. r.1) (collect_all-one_log content s)

  state_of-scan_locked :
      (content : Bytes) (now : ℕ) (s : Stored)
      → state_of (scan_locked io machine (one_log path agent_dir content) now s).0
        ≡ (found content s).1
  state_of-scan_locked content now s =
      ap (λ d. state_at (Dict.lookup path d)) (files-scan_locked content now s)
      ∙ ground (arith, Dict.lookup-insert path path (found content s).1 s.state.files)

  Scanned-IsRead : (content : Bytes) (s : Stored) → Scanned content s → IsRead content (state_of s)
  unfolding lines_from Dict.lookup
  Scanned-IsRead _ _ start = (refl, refl)
  Scanned-IsRead _ _ (again bs s ps now h) =
      rw (state_of-scan_locked (bs ++ ps) now s)
        (collect_file-IsGrown io.reading agent_dir bs ps (state_of s) (Scanned-IsRead bs s h)).1

  -- From a machine where nothing is stored, and with a canonical log that only grows as its only
  -- transcript, any number of scans, at whatever instants and however they cut up the log, leave open
  -- blocks and blocks in the shards that together count each event of the complete lines of the log once,
  -- for each counter, if sort.Slice permutes the events.
  pub total-Scanned :
      ((evs : List Event) → Permᴰ (io.sort evs) evs)
      → (c : Counter) (content : Bytes) (s : Stored) → Scanned content s
      → total c (s.state.opened, s.shards)
        ≡ total_events c (events_of io.reading agent_dir (lines_from [] content).0)
  unfolding total_open total_blocks total_events lines_from events_of
  total-Scanned permutes c _ _ start = refl
  total-Scanned permutes c _ _ (again bs s ps now h) =
      let grown =
        collect_file-IsGrown io.reading agent_dir bs ps (state_of s) (Scanned-IsRead bs s h) in
      omega (
        arith,
        total-Scanned permutes c bs s h,
        total-scan_locked permutes c (one_log path agent_dir (bs ++ ps)) now s,
        ap (λ r. total_events c r.0) (collect_all-one_log (bs ++ ps) s),
        ap (total_events c) grown.0,
        total_events-append c (all_events io.reading agent_dir bs) (found (bs ++ ps) s).0,
      )
