-- ===== src/Sessions/Requests.antt =====
-- Claude Code repeats a request's usage on many lines.
use jardin.Base.{
  ◌+◌, ◌≤◌, String, true, Option, none, some, List, [], ◌∷◌, ◌++◌, ◌≡◌, ◌≢◌, refl, ap, sym, ◌∙◌,
  arith,
}
use jardin.Base.{string_eq, contains, contains-append, length, length-append}
use mathlib.Core.List.{append_assoc}
use jardin.Sessions.Types.{Event}
use jardin.Sessions.Collect.{Bytes}
use jardin.Sessions.Claude.{
  ClaudeReading, Window, emptied, recent_req_cap, capped, dedupe_usage, parse_claude_line, step,
  tail_lines,
}
use jardin.Sessions.Conserved.{Counter, events, total_events, total_events-append}

-- A window that has lost nothing.
abbrev pub IsWhole : Window → Type 0
IsWhole w = w.seen ≡ w.recent

dedupe_usage-length :
    (ev : Event) (id : String) (w : Window) → length w.seen ≤ length (dedupe_usage ev id w).1.seen
unfolding dedupe_usage
dedupe_usage-length ev id w = ground (arith, length-append w.seen (id ∷ []))

dedupe_usage-IsWhole :
    (ev : Event) (id : String) (w : Window)
    → IsWhole w
    → length (dedupe_usage ev id w).1.seen ≤ recent_req_cap
    → IsWhole (dedupe_usage ev id w).1
unfolding dedupe_usage capped
dedupe_usage-IsWhole ev id w h le =
    ground (arith, h, le, ap length h, length-append w.seen (id ∷ []))

-- An id that was seen stays so.
dedupe_usage-keeps :
    (ev : Event) (id other : String) (w : Window)
    → contains w.seen other ≡ true
    → contains (dedupe_usage ev id w).1.seen other ≡ true
unfolding dedupe_usage
dedupe_usage-keeps ev id other w h = ground (arith, h, contains-append w.seen (id ∷ []) other)

module _ (io : ClaudeReading) where
  step-length :
      (o : Option (Event × String)) (w : Window) → length w.seen ≤ length (step io o w).1.seen
  step-length none w = omega arith
  step-length (some (ev, id)) w = dedupe_usage-length ev id w

  pub tail_lines-length :
      (ls : List Bytes) (w : Window) → length w.seen ≤ length (tail_lines io ls w).1.seen
  unfolding tail_lines
  tail_lines-length [] w = omega arith
  tail_lines-length (l ∷ ls) w =
      let o = parse_claude_line io l in
      omega (arith, step-length o w, tail_lines-length ls (step io o w).1)

  step-IsWhole :
      (o : Option (Event × String)) (w : Window)
      → IsWhole w
      → length (step io o w).1.seen ≤ recent_req_cap
      → IsWhole (step io o w).1
  step-IsWhole none w h le = h
  step-IsWhole (some (ev, id)) w h le = dedupe_usage-IsWhole ev id w h le

  pub tail_lines-IsWhole :
      (ls : List Bytes) (w : Window)
      → IsWhole w
      → length (tail_lines io ls w).1.seen ≤ recent_req_cap
      → IsWhole (tail_lines io ls w).1
  unfolding tail_lines
  tail_lines-IsWhole [] w h le = h
  tail_lines-IsWhole (l ∷ ls) w h le =
      let o = parse_claude_line io l in
      let w' = (step io o w).1 in
      tail_lines-IsWhole ls w' (step-IsWhole o w h (omega (arith, le, tail_lines-length ls w'))) le

  pub tail_lines-append :
      (as_ bs : List Bytes) (w : Window)
      → tail_lines io (as_ ++ bs) w ≡ (
        (tail_lines io as_ w).0 ++ (tail_lines io bs (tail_lines io as_ w).1).0,
        (tail_lines io bs (tail_lines io as_ w).1).1,
      )
  unfolding tail_lines
  tail_lines-append [] bs w = refl
  tail_lines-append (a ∷ as_) bs w =
      let (first, w') = step io (parse_claude_line io a) w in
      rw (tail_lines-append as_ bs w') (
        ap (λ evs. (evs, (tail_lines io bs (tail_lines io as_ w').1).1))
          (sym (
            append_assoc first (tail_lines io as_ w').0
              (tail_lines io bs (tail_lines io as_ w').1).0)))

  step-keeps :
      (o : Option (Event × String)) (id : String) (w : Window)
      → contains w.seen id ≡ true
      → contains (step io o w).1.seen id ≡ true
  step-keeps none id w h = h
  step-keeps (some (ev, other)) id w h = dedupe_usage-keeps ev other id w h

  tail_lines-keeps :
      (ls : List Bytes) (id : String) (w : Window)
      → contains w.seen id ≡ true
      → contains (tail_lines io ls w).1.seen id ≡ true
  unfolding tail_lines
  tail_lines-keeps [] id w h = h
  tail_lines-keeps (l ∷ ls) id w h =
      let o = parse_claude_line io l in tail_lines-keeps ls id (step io o w).1 (step-keeps o id w h)

  dedupe_usage-seen :
      (ev : Event) (id : String) (w : Window)
      → id ≢ ""
      → contains w.seen id ≡ true
      → dedupe_usage ev id w ≡ (emptied ev, w)
  unfolding dedupe_usage
  dedupe_usage-seen ev id w ne h = ground (arith, ne, h)

  total-emptied : (c : Counter) (ev : Event) → c ≢ events → total_events c (emptied ev ∷ []) ≡ 0
  unfolding total_events
  total-emptied events ev nc = absurd (nc refl)
  total-emptied _ ev nc = refl

  dedupe_usage-notes :
      (ev : Event) (id : String) (w : Window)
      → id ≢ ""
      → contains (dedupe_usage ev id w).1.seen id ≡ true
  unfolding dedupe_usage
  dedupe_usage-notes ev id w ne = ground (arith, ne, contains-append w.seen (id ∷ []) id)

  step-notes :
      (o : Option (Event × String)) (ev : Event) (id : String) (w : Window)
      → o ≡ some (ev, id)
      → id ≢ ""
      → contains (step io o w).1.seen id ≡ true
  step-notes o ev id w e ne = rw e (dedupe_usage-notes ev id w ne)

  -- The line of a request that was seen before counts no tokens, and the read goes on as without it.
  repeated :
      (c : Counter) (l : Bytes) (ls : List Bytes) (ev : Event) (id : String) (w : Window)
      → c ≢ events
      → parse_claude_line io l ≡ some (ev, id)
      → id ≢ ""
      → contains w.seen id ≡ true
      → total_events c (tail_lines io (l ∷ ls) w).0 ≡ total_events c (tail_lines io ls w).0
  unfolding tail_lines
  repeated c l ls ev id w nc e ne h =
      rw (e, dedupe_usage-seen ev id w ne h)
        (total_events-append c (emptied ev ∷ []) (tail_lines io ls w).0
          ∙ omega (arith, total-emptied c ev nc))

  total-tail_lines :
      (c : Counter) (as_ bs : List Bytes) (w : Window)
      → total_events c (tail_lines io (as_ ++ bs) w).0
        ≡ total_events c (tail_lines io as_ w).0
          + total_events c (tail_lines io bs (tail_lines io as_ w).1).0
  total-tail_lines c as_ bs w =
      ap (λ r. total_events c r.0) (tail_lines-append as_ bs w)
      ∙ total_events-append c (tail_lines io as_ w).0 (tail_lines io bs (tail_lines io as_ w).1).0

  -- A line whose request has an id and had an earlier line adds nothing to any count of tokens, wherever
  -- the two lines stand in a read.
  pub tail_lines-repeated :
      (c : Counter) (before between after : List Bytes) (first again : Bytes) (ev ev' : Event)
      (id : String) (w : Window)
      → c ≢ events
      → parse_claude_line io first ≡ some (ev, id)
      → parse_claude_line io again ≡ some (ev', id)
      → id ≢ ""
      → total_events c (tail_lines io (before ++ (first ∷ (between ++ (again ∷ after)))) w).0
        ≡ total_events c (tail_lines io (before ++ (first ∷ (between ++ after))) w).0
  unfolding tail_lines
  tail_lines-repeated c before between after first again ev ev' id w nc e e' ne =
      let o = parse_claude_line io first in
      let w1 = (tail_lines io before w).1 in
      let w2 = (step io o w1).1 in
      let w3 = (tail_lines io between w2).1 in
      let seen : contains w3.seen id ≡ true =
        tail_lines-keeps between id w2 (step-notes o ev id w1 e ne) in
      omega (
        arith,
        total-tail_lines c before (first ∷ (between ++ (again ∷ after))) w,
        total-tail_lines c before (first ∷ (between ++ after)) w,
        total-tail_lines c (first ∷ between) (again ∷ after) w1,
        total-tail_lines c (first ∷ between) after w1,
        repeated c again after ev' id w3 nc e' ne seen,
      )
