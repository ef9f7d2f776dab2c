-- ===== src/Sessions/Fold.antt =====
-- sessions.go: `fold`, which merges events into the open blocks and seals those that are over.
use jardin.Base.{ℕ, ◌+◌, String, ◌<>◌, Bool, Option, none, some, List, [], ◌∷◌, ◌++◌}
use jardin.Base.{string_eq, ltb, if◌then◌else◌}
use jardin.Base.Dict
use jardin.Base.Dict.{Dict}
use jardin.Sessions.Types.{
  Event, Block, Open, Texts, gap_timeout, seal_timeout, apply_event, open_block, finalize,
}

module _ (texts : Texts) where
  -- What the loop carries: the open blocks and those that it sealed.
  abbrev pub Blocks : Type 0
  Blocks = Open × List Block

  unfoldable pub key_of : Event → String
  key_of ev = texts.to_lower ev.project <> ("|" <> ev.agent)

  -- A block that the event is too late for.
  abbrev pub is_over : Block → Event → Bool
  is_over b ev = ltb (b.ended_at + gap_timeout) ev.time

  abbrev pub advance : String → Event → Option Block → Blocks → Blocks
  advance machine ev none (opened, done) =
      (Dict.insert (key_of ev) (apply_event (open_block machine ev) ev) opened, done)
  advance machine ev (some b) (opened, done) =
      if is_over b ev
      then (
        Dict.insert (key_of ev) (apply_event (open_block machine ev) ev) opened,
        done ++ (finalize texts b ∷ []),
      )
      else (Dict.insert (key_of ev) (apply_event b ev) opened, done)

  -- The loop over the events.
  unfoldable pub fold_events : String → List Event → Blocks → Blocks
  unfolding key_of apply_event open_block finalize
  fold_events machine [] s = s
  fold_events machine (ev ∷ evs) s =
      fold_events machine evs (advance machine ev (Dict.lookup (key_of ev) s.0) s)

  -- The loop that seals the blocks that are idle at `now`.
  unfoldable pub seal_idle : ℕ → Open → Blocks
  unfolding finalize
  seal_idle now [] = ([], [])
  seal_idle now ((key, b) ∷ opened) =
      let (kept, done) = seal_idle now opened in
      if ltb (b.ended_at + seal_timeout) now
      then (kept, finalize texts b ∷ done)
      else ((key, b) ∷ kept, done)

  -- `fold`, with sort.Slice by the time of events as an argument.
  unfoldable pub fold : (List Event → List Event) → String → List Event → ℕ → Open → Blocks
  unfolding fold_events seal_idle
  fold sort machine events now opened =
      let (after, done) = fold_events machine (sort events) (opened, []) in
      let (kept, idle) = seal_idle now after in (kept, done ++ idle)
