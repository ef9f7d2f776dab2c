-- ===== src/Emit/Complete.antt =====
-- What a tick leaves pending where the bus and the disk answer.
use jardin.Base.{
  ℕ, String, Bool, true, false, none, List, [], ◌∷◌, ◌++◌, map, ◌≡◌, refl, ap, ◌∙◌, arith,
}
use jardin.Base.{string_eq, nat_eq, if◌then◌else◌, contains, contains-append, Bool-cases, inl, inr}
use jardin.Base.Dict.{Dict}
use jardin.Emit.Usage.{Numbers}
use jardin.Emit.Alerts.{Clockwork, AntenneSettings, email_for, pending_usage_alerts}
use jardin.Emit.Ledger.{has, keys_of, keys_of-append, next_ledger, next_state, emit_each-taken}
use jardin.Emit.Delivery.{Tick, run_tick, run_tick-IsTick}
use jardin.Emit.Publish.{
  Block, Event, Outgoing, a_block, an_alert, Outside, EmitterState, load_ledger, Pass, closed,
  is_pending, pending_blocks, key_of, event_of, emit_each, emit_blocks, emit_usage_alerts,
  emit_pending,
}

abbrev pub as_blocks : {P : Type 0} → AntenneSettings P → List Block → List (Outgoing P)
as_blocks n bs = map (λ b. a_block b (email_for n b.machine)) bs

module _ {P : Type 0} (num : Numbers P) (clock : Clockwork) (out : Outside P) where
  module _ (saves : (n : ℕ) → out.write_file n ≡ none)
      (accepts : (n : ℕ) (e : Event P) → out.emit_now n e ≡ none) where
    emit_each-all :
        (os : List (Outgoing P)) (ledger : Dict String String) (st : EmitterState)
        → ((emit_each num clock out os ledger st).published ≡ os)
          × ((emit_each num clock out os ledger st).finished ≡ true)
    unfolding emit_each
    emit_each-all [] ledger st = (refl, refl)
    emit_each-all (o ∷ os) ledger st =
        let taken = accepts st.attempts (event_of num clock o (out.stamp st.attempts)) in
        rw (emit_each-taken num clock out saves o os ledger st taken) (
          let (shown, ended) =
            emit_each-all os (next_ledger num clock out saves o ledger st)
              (next_state num clock out saves o ledger st) in
          (ap (λ l. o ∷ l) shown, ended))

    closed-finished :
        (os : List (Outgoing P)) (p : Pass P)
        → p.finished ≡ true
        → ((closed num clock out os p).finished ≡ true)
          × ((closed num clock out os p).published ≡ p.published)
    closed-finished [] p h = (h, refl)
    closed-finished (o ∷ os) p h = ground (arith, h)

    both-published :
        (connected : Bool) (p q x : Pass P)
        → connected ≡ true
        → p.finished ≡ true
        → (if connected
            then (if p.finished then (record q { published = p.published ++ q.published }) else p)
            else x).published
          ≡ p.published ++ q.published
    both-published connected p q x on ended = ground (arith, on, ended)

    pending_blocks-done :
        (bs : List Block) (n : AntenneSettings P) (old new : Dict String String)
        → ((k : String) → has k old ≡ true → has k new ≡ true)
        → ((k : String)
            → contains (keys_of num clock (as_blocks n (pending_blocks num clock bs old n))) k
              ≡ true
            → has k new ≡ true)
        → pending_blocks num clock bs new n ≡ []
    unfolding pending_blocks is_pending keys_of key_of
    pending_blocks-done [] n old new kept told = refl
    pending_blocks-done (b ∷ bs) n old new kept told =
        elim (Bool-cases (is_pending num clock old n b)) [
          | inl here ↦
              let known : has b.id new ≡ true = told b.id (ground (arith, here)) in
              ground (
                arith,
                known,
                pending_blocks-done bs n old new kept (λ k h. told k (ground (arith, here, h))),
              )
          | inr skipped ↦ ground (
            arith,
            skipped,
            kept b.id,
            pending_blocks-done bs n old new kept (λ k h. told k (ground (arith, skipped, h))),
          )
        ]

    -- If every write of the ledger succeeds and the bus accepts every event, a tick that is connected
    -- publishes every block that is pending by the ledger it reads, in their order, and then every alert that is
    -- pending with these recorded; afterwards no block of the tick is pending by the ledger's file. A read of
    -- the ledger that fails counts as an empty one.
    pub tick-delivers :
        (t : Tick P) (st : EmitterState)
        → t.connected ≡ true
        → let bs =
            as_blocks t.settings
              (pending_blocks num clock t.blocks (load_ledger t.read_error st) t.settings) in
          let ledger =
            (emit_blocks num clock out t.blocks t.settings
              (load_ledger t.read_error st)
              st).ledger in
          let alerts =
            map an_alert (pending_usage_alerts num clock t.snapshots ledger t.settings t.now) in
          ((run_tick num clock out t st).published ≡ bs ++ alerts)
          × (pending_blocks num clock t.blocks
                (load_ledger none (run_tick num clock out t st).state)
                t.settings
              ≡ [])
    unfolding run_tick emit_pending emit_blocks emit_usage_alerts
    tick-delivers t st on =
        let n = t.settings in
        let old = load_ledger t.read_error st in
        let bs = as_blocks n (pending_blocks num clock t.blocks old n) in
        let p = emit_blocks num clock out t.blocks n old st in
        let alerts = map an_alert (pending_usage_alerts num clock t.snapshots p.ledger n t.now) in
        let (ended, shown) =
          closed-finished bs (emit_each num clock out bs old st) (emit_each-all bs old st).1 in
        let q = emit_usage_alerts num clock out t.snapshots n t.now p.ledger p.state in
        let (_, last) =
          closed-finished alerts (emit_each num clock out alerts p.ledger p.state)
            (emit_each-all alerts p.ledger p.state).1 in
        let all : (run_tick num clock out t st).published ≡ bs ++ alerts =
          both-published t.connected p q
            (record { finished = false; ledger = old; state = st; published = [] }) on ended
          ∙ (ap (λ l. l ++ q.published) (shown ∙ (emit_each-all bs old st).0)
              ∙ ap (λ l. bs ++ l) (last ∙ (emit_each-all alerts p.ledger p.state).0)) in
        let left = run_tick-IsTick num clock out saves t st in
        (
          all,
          pending_blocks-done t.blocks n old (load_ledger none (run_tick num clock out t st).state)
              left.kept
              (λ k h. left.recorded k (
                ap (λ l. contains (keys_of num clock l) k) all
                ∙ (ap (λ l. contains l k) (keys_of-append num clock bs alerts)
                    ∙ ground (
                      arith,
                      h,
                      contains-append (keys_of num clock bs) (keys_of num clock alerts) k,
                    )))),
        )
