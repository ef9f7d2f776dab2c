-- ===== src/Consolidate/Watermark.antt =====
-- The cursor only moves forward.
use jardin.Base.{
  ℕ, String, Bool, true, false, not, ◌&&◌, ◌||◌, Option, none, some, List, [], ◌∷◌, ◌≡◌, arith,
}
use jardin.Base.{string_eq, nat_eq, ltb, ◌=?◌, All, Option-cases, inl, inr}
use jardin.Base.Dict
use jardin.Base.Dict.{Dict, lookup-insert}
use jardin.Base.Text.{text_lt}
use jardin.Base.Text.Order.{text_lt_total, text_lt_trans, text_lt_irrefl}
use jardin.Consolidate.Cursor.{Position, Cursor, mark_processed, position_for, Mark, mark_all}

-- A source is at a timestamp and a hash, or past them.
abbrev pub covers : Option Position → ℕ → String → Bool
covers none ts hash = false
covers (some p) ts hash =
    ltb ts p.timestamp || ((ts =? p.timestamp) && not (text_lt p.last_hash hash))

-- Of two hashes that are in order, what is not after the first is not after the second.
text_le_trans : (s t u : String) → text_lt t s ≡ false → text_lt u t ≡ false → text_lt u s ≡ false
text_le_trans s t u h k =
    ground
      (arith, h, k, text_lt_trans u s t, text_lt_total s t, text_lt_total t u, text_lt_irrefl s)

covers_trans :
    (o : Option Position) (ts us : ℕ) (g h : String)
    → covers o us h ≡ true
    → covers (some (record { timestamp = us; last_hash = h })) ts g ≡ true
    → covers o ts g ≡ true
covers_trans none ts us g h a b = absurd (cc)
covers_trans (some p) ts us g h a b = ground (arith, a, b, text_le_trans g h p.last_hash)

mark_processed-covers :
    (m : Mark) (c : Cursor)
    → covers
        (position_for m.source (mark_processed m.source m.timestamp m.hash c))
        m.timestamp
        m.hash
      ≡ true
unfolding mark_processed position_for
mark_processed-covers m c = elim (Option-cases (Dict.lookup m.source c)) [
  | inl free ↦ ground (
    arith,
    free,
    text_lt_irrefl m.hash,
    lookup-insert m.source m.source (record { timestamp = m.timestamp; last_hash = m.hash }) c,
  )
  | inr (p, held) ↦ ground (
    arith,
    held,
    text_lt_irrefl m.hash,
    text_lt_total p.last_hash m.hash,
    lookup-insert m.source m.source (record { timestamp = m.timestamp; last_hash = m.hash }) c,
  )
]

mark_processed-forward :
    (m : Mark) (s : String) (c : Cursor) (ts : ℕ) (hash : String)
    → covers (position_for s c) ts hash ≡ true
    → covers (position_for s (mark_processed m.source m.timestamp m.hash c)) ts hash ≡ true
unfolding mark_processed position_for
mark_processed-forward m s c ts hash h =
    let new : Position = record { timestamp = m.timestamp; last_hash = m.hash } in
    elim (Option-cases (Dict.lookup m.source c)) [
      | inl free ↦ ground (arith, h, free, lookup-insert s m.source new c)
      | inr (p, held) ↦ ground (
        arith,
        h,
        held,
        lookup-insert s m.source new c,
        text_le_trans hash p.last_hash m.hash,
        text_lt_total p.last_hash m.hash,
        text_lt_irrefl m.hash,
      )
    ]

-- A source that is at a timestamp and a hash, or past them, stays so through every list of reports, of
-- this source and of others.
mark_all-forward :
    (ms : List Mark) (s : String) (c : Cursor) (ts : ℕ) (hash : String)
    → covers (position_for s c) ts hash ≡ true
    → covers (position_for s (mark_all ms c)) ts hash ≡ true
unfolding mark_all
mark_all-forward [] s c ts hash h = h
mark_all-forward (m ∷ ms) s c ts hash h =
    mark_all-forward ms s (mark_processed m.source m.timestamp m.hash c) ts hash
      (mark_processed-forward m s c ts hash h)

-- After any list of reports, the source of each of them is at its timestamp and hash or past them, in
-- the order of timestamps and then of hashes.
pub mark_all-covers :
    (ms : List Mark) (c : Cursor)
    → All (λ m. covers (position_for m.source (mark_all ms c)) m.timestamp m.hash ≡ true) ms
unfolding mark_all
mark_all-covers [] c = tt
mark_all-covers (m ∷ ms) c =
    let d = mark_processed m.source m.timestamp m.hash c in
    (
      mark_all-forward ms m.source d m.timestamp m.hash (mark_processed-covers m c),
      mark_all-covers ms d,
    )
