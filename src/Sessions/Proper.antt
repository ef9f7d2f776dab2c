-- ===== src/Sessions/Proper.antt =====
-- What `fold` leaves open and what it seals are proper blocks.
use jardin.Base.{
  ℕ, ◌+◌, ◌≤◌, String, ◌<>◌, Option, none, some, List, [], ◌∷◌, ◌++◌, ◌≡◌, refl, arith,
}
use jardin.Base.{string_eq, ◌==◌, ltb, All, Bool-cases, inl, inr}
use jardin.Base.Dict
use jardin.Base.Dict.{Dict}
use jardin.Sessions.Types.{
  Event, Block, Open, Texts, seal_timeout, apply_event, open_block, compute_id, finalize,
}
use jardin.Sessions.Fold.{Blocks, key_of, is_over, advance, fold_events, seal_idle, fold}

-- A block with an event and a start that is not after its end.
abbrev pub IsProper : Block → Type 0
IsProper b = (1 ≤ b.events) × (b.started_at ≤ b.ended_at)

apply_event-IsProper :
    (b : Block) (ev : Event) → b.started_at ≤ b.ended_at → IsProper (apply_event b ev)
unfolding apply_event
apply_event-IsProper b ev h = (omega arith, ground (arith, h))

open_block-IsProper :
    (machine : String) (ev : Event) → IsProper (apply_event (open_block machine ev) ev)
unfolding open_block
open_block-IsProper machine ev = apply_event-IsProper (open_block machine ev) ev (omega arith)

All-append {ℓ κ} :
    {A : Type ℓ} (P : A → Type κ) (as_ bs : List A) → All P as_ → All P bs → All P (as_ ++ bs)
All-append P [] bs h k = k
All-append P (a ∷ as_) bs (x, h) k = (x, All-append P as_ bs h k)

module _ (texts : Texts) where
  -- A block as it is sealed: proper, under the id of its machine, agent, project and start.
  abbrev pub IsSealed : Block → Type 0
  IsSealed b = IsProper b × (b.id ≡ compute_id texts b)

  -- A block that is open under the key of its project and agent.
  abbrev pub IsOpened : String × Block → Type 0
  IsOpened (key, b) = IsProper b × (key ≡ texts.to_lower b.project <> ("|" <> b.agent))

  finalize-IsSealed : (b : Block) → IsProper b → IsSealed (finalize texts b)
  unfolding finalize compute_id
  finalize-IsSealed b h = (h, refl)

  apply_event-IsOpened :
      (key : String) (b : Block) (ev : Event) → IsOpened (key, b) → IsOpened (key, apply_event b ev)
  unfolding apply_event
  apply_event-IsOpened key b ev (h, e) = (apply_event-IsProper b ev h.1, e)

  open_block-IsOpened :
      (machine : String) (ev : Event)
      → IsOpened (key_of texts ev, apply_event (open_block machine ev) ev)
  unfolding open_block apply_event key_of
  open_block-IsOpened machine ev = (open_block-IsProper machine ev, refl)

  insert-IsOpened :
      (key : String) (b : Block) (d : Open)
      → IsOpened (key, b)
      → All IsOpened d
      → All IsOpened (Dict.insert key b d)
  unfolding Dict.insert
  insert-IsOpened key b [] h hs = (h, tt)
  insert-IsOpened key b ((k, x) ∷ d) h (g, hs) = elim (Bool-cases (key == k)) [
    | inl same ↦ rw same (h, hs)
    | inr other ↦ rw other (g, insert-IsOpened key b d h hs)
  ]

  lookup-IsOpened :
      (key : String) (b : Block) (d : Open)
      → Dict.lookup key d ≡ some b
      → All IsOpened d
      → IsOpened (key, b)
  unfolding Dict.lookup
  lookup-IsOpened key b [] e hs = absurd (cc)
  lookup-IsOpened key b ((k, x) ∷ d) e (g, hs) = ground (arith, g, hs, e, lookup-IsOpened key b d)

  -- The open blocks and the sealed ones of the loop.
  abbrev IsSound : Blocks texts → Type 0
  IsSound s = All IsOpened s.0 × All IsSealed s.1

  advance-IsSound :
      (machine : String) (ev : Event) (o : Option Block) (s : Blocks texts)
      → Dict.lookup (key_of texts ev) s.0 ≡ o
      → IsSound s
      → IsSound (advance texts machine ev o s)
  advance-IsSound machine ev none (d, done) e (hd, hs) = (
    insert-IsOpened (key_of texts ev) (apply_event (open_block machine ev) ev) d
        (open_block-IsOpened machine ev) hd,
    hs,
  )
  advance-IsSound machine ev (some b) (d, done) e (hd, hs) =
      let key = key_of texts ev in
      let at = lookup-IsOpened key b d e hd in
      elim (Bool-cases (is_over texts b ev)) [
        | inl over ↦ rw over (
          insert-IsOpened key (apply_event (open_block machine ev) ev) d
              (open_block-IsOpened machine ev) hd,
          All-append IsSealed done (finalize texts b ∷ []) hs (finalize-IsSealed b at.0, tt),
        )
        | inr going ↦
            rw going
              (insert-IsOpened key (apply_event b ev) d (apply_event-IsOpened key b ev at) hd, hs)
      ]

  fold_events-IsSound :
      (machine : String) (evs : List Event) (s : Blocks texts)
      → IsSound s
      → IsSound (fold_events texts machine evs s)
  unfolding fold_events
  fold_events-IsSound machine [] s h = h
  fold_events-IsSound machine (ev ∷ evs) s h =
      let o = Dict.lookup (key_of texts ev) s.0 in
      fold_events-IsSound machine evs (advance texts machine ev o s)
        (advance-IsSound machine ev o s refl h)

  -- An open block that is not idle.
  abbrev pub IsCurrent : ℕ → String × Block → Type 0
  IsCurrent now (key, b) = IsOpened (key, b) × (now ≤ b.ended_at + seal_timeout)

  seal_idle-IsSound :
      (now : ℕ) (d : Open)
      → All IsOpened d
      → All (IsCurrent now) (seal_idle texts now d).0 × All IsSealed (seal_idle texts now d).1
  unfolding seal_idle
  seal_idle-IsSound now [] h = (tt, tt)
  seal_idle-IsSound now ((key, b) ∷ d) (g, h) =
      let (kept, done) = seal_idle-IsSound now d h in
      elim (Bool-cases (ltb (b.ended_at + seal_timeout) now)) [
        | inl idle ↦ rw idle (kept, (finalize-IsSealed b g.0, done))
        | inr going ↦ rw going (((g, ground (arith, going)), kept), done)
      ]

  -- `fold` keeps the open blocks proper and under the keys of their projects and agents, leaves none open
  -- that has been idle for more than SealTimeout, and seals only proper blocks, under their ids.
  pub fold-IsSound :
      (sort : List Event → List Event) (machine : String) (evs : List Event) (now : ℕ) (d : Open)
      → All IsOpened d
      → All (IsCurrent now) (fold texts sort machine evs now d).0
        × All IsSealed (fold texts sort machine evs now d).1
  unfolding fold
  fold-IsSound sort machine evs now d h =
      let (after, done) = fold_events texts machine (sort evs) (d, []) in
      let (hd, hs) = fold_events-IsSound machine (sort evs) (d, []) (h, tt) in
      let (current, idle) = seal_idle-IsSound now after hd in
      (current, All-append IsSealed done (seal_idle texts now after).1 hs idle)
