-- ===== src/Sessions/Reread.antt =====
-- A transcript of Claude Code that is read in two parts, a request on both sides of the cut.
use jardin.Base.{ℕ, ◌+◌, ◌≤◌, true, false, List, [], ◌∷◌, ◌++◌, ◌≡◌, refl, ap, sym, ◌∙◌, arith}
use jardin.Base.{string_eq, ◌=?◌, length, length-append, ltb}
use mathlib.Core.List.{append-nil}
use jardin.Sessions.Types.{Event}
use jardin.Sessions.Collect.{Bytes, FileState, new_file, drop, lines_from}
use jardin.Sessions.Claude.{
  ClaudeReading, Window, recent_req_cap, tail_lines, tail_file, collect_claude_file,
}
use jardin.Sessions.Resume.{lines_from-resume, consumed-le}
use jardin.Sessions.Requests.{IsWhole, tail_lines-length, tail_lines-IsWhole, tail_lines-append}

module _ (io : ClaudeReading) where
  -- What one read of a transcript gives, from an offset that its length reaches.
  abbrev read_on : Bytes → FileState → List Event × FileState
  read_on content fs =
      let (evs, offset, w) = tail_file io content fs.offset fs.recent_reqs in
      (evs, record { offset = offset; size = length content; recent_reqs = w.recent })

  collect_claude_file-grown :
      (content : Bytes) (fs : FileState)
      → (length content =? fs.size) ≡ false
      → ltb (length content) fs.offset ≡ false
      → collect_claude_file io content fs ≡ read_on content fs
  unfolding collect_claude_file tail_file
  collect_claude_file-grown content fs grown reached = rw (grown, reached) refl

  collect_claude_file-same :
      (content : Bytes) (fs : FileState)
      → (length content =? fs.size) ≡ true
      → collect_claude_file io content fs ≡ ([], fs)
  unfolding collect_claude_file tail_file
  collect_claude_file-same content fs same = rw same refl

  collect_claude_file-new :
      (content : Bytes) → collect_claude_file io content new_file ≡ read_on content new_file
  unfolding collect_claude_file tail_file drop lines_from tail_lines
  collect_claude_file-new [] = refl
  collect_claude_file-new (b ∷ bs) =
      collect_claude_file-grown (b ∷ bs) new_file (ground arith) (ground arith)

  abbrev followed : List Event → List Event × FileState → List Event × FileState
  followed evs r = (evs ++ r.0, r.1)

  collect_claude_file-nothing :
      (bs : Bytes) (r : List Event × FileState)
      → r.1.size ≡ length bs
      → followed r.0 (collect_claude_file io bs r.1) ≡ r
  collect_claude_file-nothing bs r e =
      rw (collect_claude_file-same bs r.1 (ground (arith, e)))
        (ap (λ evs. (evs, r.1)) (append-nil r.0))

  abbrev empty_window : Window
  empty_window = record { seen = []; recent = [] }

  abbrev rewound : Window → Window
  rewound w = record { seen = w.recent; recent = w.recent }

  rewound-IsWhole : (w : Window) → IsWhole w → rewound w ≡ w
  rewound-IsWhole w h = ap (λ ids. record { seen = ids; recent = w.recent }) (sym h)

  abbrev made : ℕ → List Event × Window → ℕ → List Event × FileState
  made size r n = (r.0, record { offset = n; size = size; recent_reqs = r.1.recent })

  -- A read of the lines `bs` with the window that a read of the lines `as_` left.
  tail_lines-rewound :
      (as_ bs : List Bytes)
      → length (tail_lines io (as_ ++ bs) empty_window).1.seen ≤ recent_req_cap
      → tail_lines io bs (rewound (tail_lines io as_ empty_window).1)
        ≡ tail_lines io bs (tail_lines io as_ empty_window).1
  tail_lines-rewound as_ bs le =
      let w1 = (tail_lines io as_ empty_window).1 in
      let few : length w1.seen ≤ recent_req_cap = omega (
        arith,
        le,
        ap (λ r. length r.1.seen) (tail_lines-append io as_ bs empty_window),
        tail_lines-length io bs w1,
      ) in
      ap (tail_lines io bs) (rewound-IsWhole w1 (tail_lines-IsWhole io as_ empty_window refl few))

  joined_reads :
      (size n m : ℕ) (as_ bs : List Bytes)
      → length (tail_lines io (as_ ++ bs) empty_window).1.seen ≤ recent_req_cap
      → followed
          (tail_lines io as_ empty_window).0
          (made size (tail_lines io bs (rewound (tail_lines io as_ empty_window).1)) ((0 + n) + m))
        ≡ made size (tail_lines io (as_ ++ bs) empty_window) (0 + (n + m))
  joined_reads size n m as_ bs le =
      rw (tail_lines-rewound as_ bs le, tail_lines-append io as_ bs empty_window)
        (ap
          (λ k.
            made size
              (
                (tail_lines io as_ empty_window).0
                    ++ (tail_lines io bs (tail_lines io as_ empty_window).1).0,
                (tail_lines io bs (tail_lines io as_ empty_window).1).1,
              )
              k)
          (omega arith))

  resumed :
      (bs ps : Bytes)
      → length (tail_file io (bs ++ ps) 0 []).2.seen ≤ recent_req_cap
      → followed (read_on bs new_file).0 (read_on (bs ++ ps) (read_on bs new_file).1)
        ≡ read_on (bs ++ ps) new_file
  unfolding tail_file drop
  resumed bs ps le =
      let first = lines_from [] bs in
      let more = lines_from [] (drop first.1 (bs ++ ps)) in
      let whole = lines_from-resume bs ps in
      let size = length (bs ++ ps) in
      let r = tail_lines io first.0 empty_window in
      let from : ℕ → List Event × FileState = λ k.
        let (ls, n) = lines_from [] (drop k (bs ++ ps)) in
        followed r.0 (made size (tail_lines io ls (rewound r.1)) ((0 + first.1) + n)) in
      let start : 0 + first.1 ≡ first.1 = omega arith in
      let few : length (tail_lines io (first.0 ++ more.0) empty_window).1.seen ≤ recent_req_cap =
        omega (arith, le, ap (λ ls. length (tail_lines io ls.0 empty_window).1.seen) whole) in
      ap from start
      ∙ joined_reads size first.1 more.1 first.0 more.0 few
      ∙ sym (ap (λ ls. made size (tail_lines io ls.0 empty_window) (0 + ls.1)) whole)

  -- The offset of a first read is no more than the length.
  reached : (bs ps : Bytes) → ltb (length (bs ++ ps)) (read_on bs new_file).1.offset ≡ false
  unfolding tail_file drop
  reached bs ps = ground (arith, consumed-le [] bs, length-append bs ps)

  split_read :
      (bs ps : Bytes)
      → length (tail_file io (bs ++ ps) 0 []).2.seen ≤ recent_req_cap
      → followed (read_on bs new_file).0 (collect_claude_file io (bs ++ ps) (read_on bs new_file).1)
        ≡ read_on (bs ++ ps) new_file
  split_read bs [] le =
      rw (append-nil bs) (collect_claude_file-nothing bs (read_on bs new_file) refl)
  split_read bs (p ∷ ps) le =
      let grown : (length (bs ++ (p ∷ ps)) =? length bs) ≡ false =
        ground (arith, length-append bs (p ∷ ps)) in
      rw
        (collect_claude_file-grown (bs ++ (p ∷ ps)) (read_on bs new_file).1 grown
          (reached bs (p ∷ ps)))
        (resumed bs (p ∷ ps) le)

  -- When a transcript is read, grows and is read on, the two reads together give the events, the offset
  -- and the window of one read of the whole, as long as it has at most 64 requests: a scan between two
  -- lines of one request counts it once.
  pub collect_claude_file-split :
      (bs ps : Bytes)
      → length (tail_file io (bs ++ ps) 0 []).2.seen ≤ recent_req_cap
      → let first = collect_claude_file io bs new_file in
        let second = collect_claude_file io (bs ++ ps) first.1 in
        (first.0 ++ second.0, second.1) ≡ collect_claude_file io (bs ++ ps) new_file
  collect_claude_file-split bs ps le =
      rw (collect_claude_file-new bs, collect_claude_file-new (bs ++ ps)) (split_read bs ps le)
