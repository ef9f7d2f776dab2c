-- ===== src/Emit/Ledger.antt =====
-- What a loop of the emitter publishes, and what it records in the ledger.
use jardin.Base.{
  ℕ, suc, String, Bool, true, false, Option, none, some, List, [], ◌∷◌, ◌++◌, map, ◌≡◌, refl, ap,
  sym, ◌∙◌, arith,
}
use jardin.Base.{string_eq, nat_eq, contains, Option-cases, Bool-cases, inl, inr}
use jardin.Base.Dict
use jardin.Base.Dict.{Dict, lookup-insert}
use jardin.Base.Text.{is_some}
use jardin.Emit.Usage.{Numbers}
use jardin.Emit.Alerts.{Clockwork, AntenneSettings, UsageAlert, email_for, ledger_key, get_at}
use jardin.Emit.Publish.{
  Block, Outgoing, a_block, an_alert, Outside, EmitterState, load_ledger, is_pending,
  pending_blocks, key_of, event_of, emit_each, save_ledger,
}

abbrev pub has : String → Dict String String → Bool
has key ledger = is_some (Dict.lookup key ledger)

-- Every key of a ledger is in the file.
abbrev pub IsStored : Dict String String → EmitterState → Type 0
IsStored ledger st = (k : String) → has k ledger ≡ true → has k (load_ledger none st) ≡ true

-- The ledger that a tick begins with is in the file, also where it could not be read.
pub load_ledger-IsStored :
    (read : Option String) (st : EmitterState) → IsStored (load_ledger read st) st
unfolding load_ledger Dict.lookup
load_ledger-IsStored none st = λ k h. h
load_ledger-IsStored (some e) st = λ k h. absurd (cc)

module _ {P : Type 0} (num : Numbers P) (clock : Clockwork) where
  unfoldable pub keys_of : List (Outgoing P) → List String
  keys_of [] = []
  keys_of (o ∷ os) = key_of num clock o ∷ keys_of os

  pub keys_of-append : (os ps : List (Outgoing P)) → keys_of (os ++ ps) ≡ keys_of os ++ keys_of ps
  unfolding keys_of
  keys_of-append [] ps = refl
  keys_of-append (o ∷ os) ps = ap (λ x. key_of num clock o ∷ x) (keys_of-append os ps)

  module _ (out : Outside P) where
    module _ (saves : (n : ℕ) → out.write_file n ≡ none) where
      abbrev pub next_ledger : Outgoing P → Dict String String → EmitterState → Dict String String
      next_ledger o ledger st = Dict.insert (key_of num clock o) (out.stamp st.attempts) ledger

      abbrev pub next_state : Outgoing P → Dict String String → EmitterState → EmitterState
      next_state o ledger st =
          let saved = save_ledger num clock out (next_ledger o ledger st) st in
          record saved { emitted = suc saved.emitted; attempts = suc saved.attempts }

      pub emit_each-taken :
          (o : Outgoing P) (os : List (Outgoing P)) (ledger : Dict String String)
          (st : EmitterState)
          → out.emit_now st.attempts (event_of num clock o (out.stamp st.attempts)) ≡ none
          → emit_each num clock out (o ∷ os) ledger st ≡ (
              let rest =
                emit_each num clock out os (next_ledger o ledger st) (next_state o ledger st) in
              record rest { published = o ∷ rest.published })
      unfolding emit_each
      emit_each-taken o os ledger st h = ground (arith, h, saves st.attempts)

      -- A pass keeps what the ledger has.
      pub emit_each-has :
          (k : String) (os : List (Outgoing P)) (ledger : Dict String String) (st : EmitterState)
          → has k ledger ≡ true
          → has k (emit_each num clock out os ledger st).ledger ≡ true
      unfolding emit_each
      emit_each-has k [] ledger st h = h
      emit_each-has k (o ∷ os) ledger st h =
          elim (Option-cases
            (out.emit_now st.attempts (event_of num clock o (out.stamp st.attempts)))) [
              | inl taken ↦ rw (emit_each-taken o os ledger st taken) (
                  emit_each-has k os (next_ledger o ledger st) (next_state o ledger st) (
                    ground (
                      arith,
                      h,
                      lookup-insert k (key_of num clock o) (out.stamp st.attempts) ledger,
                    )))
              | inr (e, refused) ↦ rw (refused, emit_each) h
            ]

      pub emit_each-published :
          (k : String) (os : List (Outgoing P)) (ledger : Dict String String) (st : EmitterState)
          → contains (keys_of (emit_each num clock out os ledger st).published) k ≡ true
          → has k (emit_each num clock out os ledger st).ledger ≡ true
      unfolding emit_each keys_of
      emit_each-published k [] ledger st h = absurd (cc)
      emit_each-published k (o ∷ os) ledger st h =
          elim (Option-cases
            (out.emit_now st.attempts (event_of num clock o (out.stamp st.attempts)))) [
              | inl taken ↦
                  let rest =
                    emit_each num clock out os (next_ledger o ledger st) (next_state o ledger st) in
                  let shown : contains (key_of num clock o ∷ keys_of rest.published) k ≡ true =
                    ap (λ x. contains (keys_of x.published) k)
                      (sym (emit_each-taken o os ledger st taken))
                    ∙ h in
                  rw (emit_each-taken o os ledger st taken) (
                    ground (
                      arith,
                      shown,
                      emit_each-published k os (next_ledger o ledger st) (next_state o ledger st),
                      emit_each-has k os (next_ledger o ledger st) (next_state o ledger st),
                      lookup-insert k (key_of num clock o) (out.stamp st.attempts) ledger,
                    ))
              | inr (e, refused) ↦ absurd (ground (arith, refused, h))
            ]

      save_ledger-IsStored :
          (ledger : Dict String String) (st : EmitterState)
          → IsStored ledger (save_ledger num clock out ledger st)
      unfolding save_ledger load_ledger
      save_ledger-IsStored ledger st = rw (saves st.attempts) (λ k h. h)

      -- The file has the keys of the ledger that the pass leaves, if it had those of the one that it began with.
      pub emit_each-IsStored :
          (os : List (Outgoing P)) (ledger : Dict String String) (st : EmitterState)
          → IsStored ledger st
          → IsStored
              (emit_each num clock out os ledger st).ledger
              (emit_each num clock out os ledger st).state
      unfolding emit_each load_ledger
      emit_each-IsStored [] ledger st h = h
      emit_each-IsStored (o ∷ os) ledger st h =
          elim (Option-cases
            (out.emit_now st.attempts (event_of num clock o (out.stamp st.attempts)))) [
              | inl taken ↦ rw (emit_each-taken o os ledger st taken) (
                  emit_each-IsStored os (next_ledger o ledger st) (next_state o ledger st)
                    (save_ledger-IsStored (next_ledger o ledger st) st))
              | inr (e, refused) ↦ rw (refused, emit_each) h
            ]

      -- What a pass publishes is an initial part of what it goes over, and all of it where the pass finishes.
      pub emit_each-fresh :
          (k : String) (os : List (Outgoing P)) (ledger : Dict String String) (st : EmitterState)
          → contains (keys_of (emit_each num clock out os ledger st).published) k ≡ true
          → contains (keys_of os) k ≡ true
      unfolding emit_each keys_of
      emit_each-fresh k [] ledger st h = h
      emit_each-fresh k (o ∷ os) ledger st h =
          elim (Option-cases
            (out.emit_now st.attempts (event_of num clock o (out.stamp st.attempts)))) [
              | inl taken ↦
                  let rest =
                    emit_each num clock out os (next_ledger o ledger st) (next_state o ledger st) in
                  let shown : contains (key_of num clock o ∷ keys_of rest.published) k ≡ true =
                    ap (λ x. contains (keys_of x.published) k)
                      (sym (emit_each-taken o os ledger st taken))
                    ∙ h in
                  ground (
                    arith,
                    shown,
                    emit_each-fresh k os (next_ledger o ledger st) (next_state o ledger st),
                  )
              | inr (e, refused) ↦ absurd (ground (arith, refused, h))
            ]

      pub pending_blocks-unsent :
          (k : String) (bs : List Block) (ledger : Dict String String) (n : AntenneSettings P)
          → contains
              (keys_of (
                map
                  (λ b. a_block b (email_for n b.machine))
                  (pending_blocks num clock bs ledger n)))
              k
            ≡ true
          → has k ledger ≡ false
      unfolding pending_blocks keys_of key_of is_pending
      pending_blocks-unsent k [] ledger n h = absurd (cc)
      pending_blocks-unsent k (b ∷ bs) ledger n h =
          elim (Bool-cases (is_pending num clock ledger n b)) [
            | inl here ↦ ground (arith, h, here, pending_blocks-unsent k bs ledger n)
            | inr skipped ↦ ground (arith, h, skipped, pending_blocks-unsent k bs ledger n)
          ]

      pub alerts-unsent :
          (k : String) (alerts : List (UsageAlert P)) (ledger : Dict String String)
          → ((i : ℕ) (a : UsageAlert P)
              → get_at i alerts ≡ some a
              → Dict.lookup (ledger_key num clock a) ledger ≡ none)
          → contains (keys_of (map an_alert alerts)) k ≡ true
          → has k ledger ≡ false
      unfolding keys_of key_of get_at
      alerts-unsent k [] ledger f h = absurd (cc)
      alerts-unsent k (a ∷ alerts) ledger f h =
          ground (arith, h, f 0 a refl, alerts-unsent k alerts ledger (λ i. f (suc i)))
