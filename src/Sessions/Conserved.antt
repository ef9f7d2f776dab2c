-- ===== src/Sessions/Conserved.antt =====
-- `fold` loses no event and counts none twice.
use jardin.Base.{ℕ, ◌+◌, String, Option, none, some, List, [], ◌∷◌, ◌++◌, ◌≡◌, refl, ap, ◌∙◌, arith}
use mathlib.Core.List.{Permᴰ}
use jardin.Base.{string_eq}
use jardin.Base.Dict
use jardin.Base.Dict.{Dict}
use jardin.Sessions.Types.{Event, Block, Open, Texts, apply_event, open_block, finalize}
use jardin.Sessions.Fold.{key_of, advance, fold_events, seal_idle, fold}

-- What a block counts.
pub data Counter : Type 0 where
  events tokens_in tokens_out cache_read cache_write : Counter

abbrev pub block_count : Counter → Block → ℕ
block_count events b = b.events
block_count tokens_in b = b.tokens_in
block_count tokens_out b = b.tokens_out
block_count cache_read b = b.cache_read
block_count cache_write b = b.cache_write

-- What one event adds.
abbrev pub event_count : Counter → Event → ℕ
event_count events ev = 1
event_count tokens_in ev = ev.tokens_in
event_count tokens_out ev = ev.tokens_out
event_count cache_read ev = ev.cache_read
event_count cache_write ev = ev.cache_write

unfoldable pub total_events : Counter → List Event → ℕ
total_events c [] = 0
total_events c (ev ∷ evs) = event_count c ev + total_events c evs

unfoldable pub total_blocks : Counter → List Block → ℕ
total_blocks c [] = 0
total_blocks c (b ∷ bs) = block_count c b + total_blocks c bs

unfoldable pub total_open : Counter → Open → ℕ
total_open c [] = 0
total_open c ((key, b) ∷ rest) = block_count c b + total_open c rest

-- The open blocks and the sealed ones together.
abbrev pub total : Counter → Open × List Block → ℕ
total c s = total_open c s.0 + total_blocks c s.1

pub total_blocks-append :
    (c : Counter) (as_ bs : List Block)
    → total_blocks c (as_ ++ bs) ≡ total_blocks c as_ + total_blocks c bs
unfolding total_blocks
total_blocks-append c [] bs = omega arith
total_blocks-append c (a ∷ as_) bs = omega (arith, total_blocks-append c as_ bs)

total_blocks-one : (c : Counter) (a : Block) → total_blocks c (a ∷ []) ≡ block_count c a
unfolding total_blocks
total_blocks-one c a = omega arith

abbrev count_at : Counter → Option Block → ℕ
count_at c none = 0
count_at c (some b) = block_count c b

total_open-insert :
    (c : Counter) (key : String) (b : Block) (d : Open)
    → total_open c (Dict.insert key b d) + count_at c (Dict.lookup key d)
      ≡ total_open c d + block_count c b
unfolding total_open Dict.insert Dict.lookup
total_open-insert c key b [] = omega arith
total_open-insert c key b ((k, x) ∷ d) = ground (arith, total_open-insert c key b d)

count-apply_event :
    (c : Counter) (b : Block) (ev : Event)
    → block_count c (apply_event b ev) ≡ block_count c b + event_count c ev
unfolding apply_event
count-apply_event events b ev = omega arith
count-apply_event tokens_in b ev = refl
count-apply_event tokens_out b ev = refl
count-apply_event cache_read b ev = refl
count-apply_event cache_write b ev = refl

count-open_block :
    (c : Counter) (machine : String) (ev : Event) → block_count c (open_block machine ev) ≡ 0
unfolding open_block
count-open_block events machine ev = refl
count-open_block tokens_in machine ev = refl
count-open_block tokens_out machine ev = refl
count-open_block cache_read machine ev = refl
count-open_block cache_write machine ev = refl

total_blocks-nil : (c : Counter) → total_blocks c [] ≡ 0
unfolding total_blocks
total_blocks-nil c = refl

total_events-Permᴰ :
    (c : Counter) {as_ bs : List Event} → Permᴰ as_ bs → total_events c as_ ≡ total_events c bs
unfolding total_events
total_events-Permᴰ c Permᴰ.nil = refl
total_events-Permᴰ c (Permᴰ.cons e p) = omega (arith, ap (event_count c) e, total_events-Permᴰ c p)
total_events-Permᴰ c (Permᴰ.swap e f) = omega (arith, ap (event_count c) e, ap (event_count c) f)
total_events-Permᴰ c (Permᴰ.trans p q) = total_events-Permᴰ c p ∙ total_events-Permᴰ c q

pub total_events-append :
    (c : Counter) (as_ bs : List Event)
    → total_events c (as_ ++ bs) ≡ total_events c as_ + total_events c bs
unfolding total_events
total_events-append c [] bs = omega arith
total_events-append c (a ∷ as_) bs = omega (arith, total_events-append c as_ bs)

module _ (texts : Texts) where
  count-finalize : (c : Counter) (b : Block) → block_count c (finalize texts b) ≡ block_count c b
  unfolding finalize
  count-finalize events b = refl
  count-finalize tokens_in b = refl
  count-finalize tokens_out b = refl
  count-finalize cache_read b = refl
  count-finalize cache_write b = refl

  total-advance :
      (c : Counter) (machine : String) (ev : Event) (o : Option Block) (s : Open × List Block)
      → Dict.lookup (key_of texts ev) s.0 ≡ o
      → total c (advance texts machine ev o s) ≡ total c s + event_count c ev
  total-advance c machine ev none (d, done) e =
      let new = apply_event (open_block machine ev) ev in
      ground (
        arith,
        e,
        total_open-insert c (key_of texts ev) new d,
        count-apply_event c (open_block machine ev) ev,
        count-open_block c machine ev,
      )
  total-advance c machine ev (some b) (d, done) e =
      let new = apply_event (open_block machine ev) ev in
      ground (
        arith,
        e,
        total_open-insert c (key_of texts ev) new d,
        count-apply_event c (open_block machine ev) ev,
        count-open_block c machine ev,
        total_open-insert c (key_of texts ev) (apply_event b ev) d,
        count-apply_event c b ev,
        total_blocks-append c done (finalize texts b ∷ []),
        count-finalize c b,
        total_blocks-one c (finalize texts b),
      )

  total-fold_events :
      (c : Counter) (machine : String) (evs : List Event) (s : Open × List Block)
      → total c (fold_events texts machine evs s) ≡ total c s + total_events c evs
  unfolding fold_events total_events
  total-fold_events c machine [] s = omega arith
  total-fold_events c machine (ev ∷ evs) s =
      let o = Dict.lookup (key_of texts ev) s.0 in
      omega (
        arith,
        total-fold_events c machine evs (advance texts machine ev o s),
        total-advance c machine ev o s refl,
      )

  total-seal_idle :
      (c : Counter) (now : ℕ) (d : Open) → total c (seal_idle texts now d) ≡ total_open c d
  unfolding seal_idle total_open total_blocks
  total-seal_idle c now [] = refl
  total-seal_idle c now ((key, b) ∷ d) = ground (arith, total-seal_idle c now d, count-finalize c b)

  -- What a call of `fold` seals and leaves open counts all that was open and all events, each once, in
  -- whatever order sort.Slice puts them.
  pub total-fold :
      (sort : List Event → List Event)
      → ((evs : List Event) → Permᴰ (sort evs) evs)
      → (c : Counter) (machine : String) (evs : List Event) (now : ℕ) (d : Open)
      → total c (fold texts sort machine evs now d) ≡ total_open c d + total_events c evs
  unfolding fold
  total-fold sort permutes c machine evs now d =
      let (after, done) = fold_events texts machine (sort evs) (d, []) in
      let (kept, idle) = seal_idle texts now after in
      omega (
        arith,
        total_blocks-append c done idle,
        total_blocks-nil c,
        total-seal_idle c now after,
        total-fold_events c machine (sort evs) (d, []),
        total_events-Permᴰ c (permutes evs),
      )
