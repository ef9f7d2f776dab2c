-- ===== src/Emit/Delivery.antt =====
-- What the ticks of the emitter publish, over every sequence of them.
use jardin.Base.{
  ℕ, String, Bool, true, false, ◌||◌, Option, none, All, List, [], ◌∷◌, ◌++◌, map, ◌≡◌, refl, ap,
  sym, ◌∙◌, arith,
}
use jardin.Base.{string_eq, nat_eq, if◌then◌else◌, contains, contains-append, Bool-cases, inl, inr}
use jardin.Base.Dict.{Dict}
use jardin.Emit.Usage.{Numbers, Snapshot}
use jardin.Emit.Alerts.{Clockwork, AntenneSettings, email_for, pending_usage_alerts}
use jardin.Emit.Pending.{pending-unsent}
use jardin.Emit.Ledger.{
  has, IsStored, load_ledger-IsStored, keys_of, keys_of-append, emit_each-has, emit_each-published,
  emit_each-IsStored, emit_each-fresh, pending_blocks-unsent, alerts-unsent,
}
use jardin.Emit.Publish.{
  Block, Outgoing, a_block, an_alert, Outside, EmitterState, load_ledger, Pass, pending_blocks,
  closed, emit_each, emit_blocks, emit_usage_alerts, emit_pending,
}

-- A tick: what it reads of the machines, the settings, and the error of reading the ledger, if it fails.
pub record Tick (P : Type 0) : Type 0 where
  pub connected : Bool
  pub read_error : Option String
  pub blocks : List Block
  pub snapshots : List (Snapshot P)
  pub settings : AntenneSettings P
  pub now : ℕ

-- The tick can read the ledger's file.
abbrev pub IsReadable : {P : Type 0} → Tick P → Type 0
IsReadable t = t.read_error ≡ none

module _ {P : Type 0} (num : Numbers P) (clock : Clockwork) where
  module _ (out : Outside P) where
    closed-same :
        (os : List (Outgoing P)) (p : Pass P)
        → ((closed num clock out os p).ledger ≡ p.ledger)
          × ((closed num clock out os p).published ≡ p.published)
          × (load_ledger none (closed num clock out os p).state ≡ load_ledger none p.state)
    unfolding load_ledger
    closed-same [] p = (refl, refl, refl)
    closed-same (o ∷ os) p = ground arith

    unfoldable pub run_tick : Tick P → EmitterState → Pass P
    run_tick t st =
        emit_pending num clock out t.connected t.read_error t.blocks t.snapshots t.settings t.now st

    -- The keys that a tick publishes.
    unfoldable pub published : Tick P → EmitterState → List String
    unfolding keys_of run_tick
    published t st = keys_of num clock (run_tick t st).published

    unfoldable pub run_ticks : List (Tick P) → EmitterState → EmitterState
    unfolding run_tick
    run_ticks [] st = st
    run_ticks (t ∷ ts) st = run_ticks ts (run_tick t st).state

    unfoldable pub published_all : List (Tick P) → EmitterState → List String
    unfolding published run_tick
    published_all [] st = []
    published_all (t ∷ ts) st = published t st ++ published_all ts (run_tick t st).state

    -- What a pass over some events does to the ledger, if the file had the keys that it began with.
    record IsPass (os : List (Outgoing P)) (ledger : Dict String String) (p : Pass P) : Type 0 where
      kept : (k : String) → has k ledger ≡ true → has k p.ledger ≡ true
      recorded :
          (k : String) → contains (keys_of num clock p.published) k ≡ true → has k p.ledger ≡ true
      fresh :
          (k : String)
          → contains (keys_of num clock p.published) k ≡ true
          → contains (keys_of num clock os) k ≡ true
      stored : IsStored p.ledger p.state

    module _ (saves : (n : ℕ) → out.write_file n ≡ none) where
      closed-IsPass :
          (os : List (Outgoing P)) (ledger : Dict String String) (st : EmitterState)
          → IsStored ledger st
          → IsPass os ledger (closed num clock out os (emit_each num clock out os ledger st))
      closed-IsPass os ledger st h =
          let p = emit_each num clock out os ledger st in
          let (same, shown, file) = closed-same os p in
          record {
            kept = λ k x. ap (has k) same ∙ emit_each-has num clock out saves k os ledger st x;
            recorded = λ k x.
                ap (has k) same
                ∙ emit_each-published num clock out saves k os ledger st
                    (ap (λ l. contains (keys_of num clock l) k) (sym shown) ∙ x);
            fresh = λ k x.
                emit_each-fresh num clock out saves k os ledger st
                  (ap (λ l. contains (keys_of num clock l) k) (sym shown) ∙ x);
            stored = λ k x.
                ap (has k) file
                ∙ emit_each-IsStored num clock out saves os ledger st h k
                    (ap (has k) (sym same) ∙ x);
          }

      -- What a tick publishes and leaves, from the ledger that it has read.
      pub record IsTick (old : Dict String String) (p : Pass P) : Type 0 where
        pub kept : (k : String) → has k old ≡ true → has k (load_ledger none p.state) ≡ true
        pub recorded :
            (k : String)
            → contains (keys_of num clock p.published) k ≡ true
            → has k (load_ledger none p.state) ≡ true
        pub unsent :
            (k : String) → contains (keys_of num clock p.published) k ≡ true → has k old ≡ false

      abbrev both : Pass P → Pass P → Pass P
      both p q = record q { published = p.published ++ q.published }

      both-IsTick :
          (os qs : List (Outgoing P)) (old : Dict String String) (p q : Pass P)
          → IsPass os old p
          → IsPass qs p.ledger q
          → ((k : String) → contains (keys_of num clock os) k ≡ true → has k old ≡ false)
          → ((k : String) → contains (keys_of num clock qs) k ≡ true → has k p.ledger ≡ false)
          → IsTick old (both p q)
      both-IsTick os qs old p q first second new newer =
          let shown : (k : String)
              → contains (keys_of num clock (p.published ++ q.published)) k
                ≡ contains (keys_of num clock p.published) k
                  || contains (keys_of num clock q.published) k =
            λ k.
              ap (λ l. contains l k) (keys_of-append num clock p.published q.published)
              ∙ contains-append (keys_of num clock p.published) (keys_of num clock q.published) k in
          record {
            kept = λ k h. second.stored k (second.kept k (first.kept k h));
            recorded = λ k h.
                second.stored k
                  (ground (arith, h, shown k, first.recorded k, second.kept k, second.recorded k));
            unsent = λ k h.
                ground
                  (arith, h, shown k, first.fresh k, second.fresh k, first.kept k, new k, newer k);
          }

      first-IsTick :
          (os : List (Outgoing P)) (old : Dict String String) (p : Pass P)
          → IsPass os old p
          → ((k : String) → contains (keys_of num clock os) k ≡ true → has k old ≡ false)
          → IsTick old p
      first-IsTick os old p first new = record {
        kept = λ k h. first.stored k (first.kept k h);
        recorded = λ k h. first.stored k (first.recorded k h);
        unsent = λ k h. new k (first.fresh k h);
      }

      choose-IsTick :
          (connected : Bool) (old : Dict String String) (st : EmitterState) (p q : Pass P)
          → IsStored old st
          → IsTick old p
          → IsTick old (both p q)
          → IsTick old (
              if connected
              then (if p.finished then both p q else p)
              else record { finished = false; ledger = old; state = st; published = [] })
      unfolding keys_of
      choose-IsTick true old st p q held one two = elim (Bool-cases p.finished) [
        | inl ended ↦ rw ended two
        | inr cut ↦ simp cut one
      ]
      choose-IsTick false old st p q held one two = record {
        kept = held;
        recorded = λ k h. absurd (cc);
        unsent = λ k h. absurd (cc);
      }

      pub run_tick-IsTick :
          (t : Tick P) (st : EmitterState) → IsTick (load_ledger t.read_error st) (run_tick t st)
      unfolding run_tick emit_pending emit_blocks emit_usage_alerts
      run_tick-IsTick t st =
          let n = t.settings in
          let old = load_ledger t.read_error st in
          let held : IsStored old st = load_ledger-IsStored t.read_error st in
          let bs =
            map (λ b. a_block b (email_for n b.machine))
              (pending_blocks num clock t.blocks old n) in
          let p = emit_blocks num clock out t.blocks n old st in
          let first : IsPass bs old p = closed-IsPass bs old st held in
          let as_alerts =
            map an_alert (pending_usage_alerts num clock t.snapshots p.ledger n t.now) in
          let q = emit_usage_alerts num clock out t.snapshots n t.now p.ledger p.state in
          let second : IsPass as_alerts p.ledger q =
            closed-IsPass as_alerts p.ledger p.state first.stored in
          let new : (k : String) → contains (keys_of num clock bs) k ≡ true → has k old ≡ false =
            λ k h. pending_blocks-unsent num clock out saves k t.blocks old n h in
          let newer : (k : String)
              → contains (keys_of num clock as_alerts) k ≡ true
              → has k p.ledger ≡ false =
            λ k h.
              alerts-unsent num clock out saves k
                (pending_usage_alerts num clock t.snapshots p.ledger n t.now) p.ledger
                (pending-unsent num clock p.ledger n t.now t.snapshots) h in
          choose-IsTick t.connected old st p q held (first-IsTick bs old p first new)
            (both-IsTick bs as_alerts old p q first second new newer)

      run_ticks-has :
          (k : String) (ts : List (Tick P)) (st : EmitterState)
          → All IsReadable ts
          → has k (load_ledger none st) ≡ true
          → has k (load_ledger none (run_ticks ts st)) ≡ true
      unfolding run_ticks
      run_ticks-has k [] st all h = h
      run_ticks-has k (t ∷ ts) st (good, all) h =
          run_ticks-has k ts (run_tick t st).state all
            ((run_tick-IsTick t st).kept k (ap (λ e. has k (load_ledger e st)) good ∙ h))

      run_ticks-recorded :
          (k : String) (ts : List (Tick P)) (st : EmitterState)
          → All IsReadable ts
          → contains (published_all ts st) k ≡ true
          → has k (load_ledger none (run_ticks ts st)) ≡ true
      unfolding run_ticks published_all published
      run_ticks-recorded k [] st all h = absurd (cc)
      run_ticks-recorded k (t ∷ ts) st (good, all) h =
          let s = (run_tick t st).state in
          ground (
            arith,
            h,
            contains-append (published t st) (published_all ts s) k,
            (run_tick-IsTick t st).recorded k,
            run_ticks-has k ts s all,
            run_ticks-recorded k ts s all,
          )

      -- If every write and every read of the ledger succeeds, no tick publishes a key that one of the ticks
      -- before it has published, whatever the bus accepts, the machines report and the settings are.
      pub published-once :
          (k : String) (ts : List (Tick P)) (t : Tick P) (st : EmitterState)
          → All IsReadable ts
          → IsReadable t
          → contains (published_all ts st) k ≡ true
          → contains (published t (run_ticks ts st)) k ≡ false
      unfolding published
      published-once k ts t st all good h =
          let s = run_ticks ts st in
          ground (
            arith,
            h,
            good,
            run_ticks-recorded k ts st all,
            ap (λ e. has k (load_ledger e s)) good,
            (run_tick-IsTick t s).unsent k,
          )
