-- ===== src/Emit/Publish.antt =====
-- internal/server/emitter.go and emitter_emit.go: what a tick of the emitter publishes, and the ledger of it.
use jardin.Base.{
  ℕ, suc, ◌+◌, String, ◌<>◌, Bool, true, false, not, Option, none, some, List, [], ◌∷◌, ◌++◌, map,
}
use jardin.Base.{◌==◌, string_eq, ltb, if◌then◌else◌}
use jardin.Base.Dict
use jardin.Base.Dict.{Dict}
use jardin.Base.Text.{is_some}
use jardin.Emit.Usage.{Numbers, Snapshot}
use jardin.Emit.Alerts.{
  Clockwork, AntenneSettings, UsageAlert, email_for, alert_id, ledger_key, is_before, since_of,
  pending_usage_alerts,
}

-- The fields of sessions.Block that the emitter reads. The counters stay below 2 ^ 63.
pub record Block : Type 0 where
  pub id : String
  pub project : String
  pub machine : String
  pub agent : String
  pub branch : String
  pub started_at : ℕ
  pub ended_at : ℕ
  pub tokens_in : ℕ
  pub tokens_out : ℕ
  pub cache_write : ℕ

-- enveloppe.AgentSession, as envelopeFor fills it.
pub record AgentSession : Type 0 where
  pub facile_id : String
  pub project : String
  pub machine : String
  pub agent : String
  pub branch : String
  pub user_email : String
  pub started_at : String
  pub stopped_at : String
  pub tokens_in : ℕ
  pub tokens_out : ℕ

-- The payload type UsageAlert.
pub record UsagePayload (P : Type 0) : Type 0 where
  pub facile_id : String
  pub machine : String
  pub window : String
  pub window_label : String
  pub used_percentage : P
  pub threshold : P
  pub resets_at : String
  pub user_email : String
  pub source : String

pub data Payload (P : Type 0) : Type 0 where
  agent_session : AgentSession → Payload P
  usage_alert : UsagePayload P → Payload P

-- An event on the bus, with the topic that EmitNow is given.
pub record Event (P : Type 0) : Type 0 where
  pub topic : String
  pub facile_id : String
  pub payload : Payload P
  pub timestamp : String
  pub idempotency_key : String

-- What a loop of the emitter goes over.
pub data Outgoing (P : Type 0) : Type 0 where
  a_block : Block → String → Outgoing P
  an_alert : UsageAlert P → Outgoing P

-- The bus and the disk, which this code does not hold. At the emitter's n-th attempt: the error of
-- EmitNow on an event, the error of os.WriteFile, what the ledger's file reads as after a write that fails, and
-- the instant in RFC 3339.
pub record Outside (P : Type 0) : Type 0 where
  pub emit_now : ℕ → Event P → Option String
  pub write_file : ℕ → Option String
  pub torn : ℕ → Option (Dict String String)
  pub stamp : ℕ → String

-- The emitter and its ledger's file: none where it is missing or not JSON.
pub record EmitterState : Type 0 where
  pub ledger_file : Option (Dict String String)
  pub emitted : ℕ
  pub last_error : String
  pub attempts : ℕ

-- loadLedger, given the error of os.ReadFile: a read that fails gives an empty ledger, as a file that is missing
-- or not JSON does.
unfoldable pub load_ledger : Option String → EmitterState → Dict String String
load_ledger (some e) st = []
load_ledger none st = elim st.ledger_file as (λ x. Dict String String) [
  | none ↦ []
  | some ledger ↦ ledger
]

-- minEmitDuration: one minute.
abbrev min_emit_duration : ℕ
min_emit_duration = 60000000000

-- What a loop leaves: whether it went to its end, the ledger, the emitter, and the events published.
pub record Pass (P : Type 0) : Type 0 where
  pub finished : Bool
  pub ledger : Dict String String
  pub state : EmitterState
  pub published : List (Outgoing P)

module _ {P : Type 0} (num : Numbers P) (clock : Clockwork) where
  unfoldable pub is_pending : Dict String String → AntenneSettings P → Block → Bool
  unfolding email_for
  is_pending ledger n b =
      if is_some (Dict.lookup b.id ledger)
      then false
      else if ltb b.ended_at (b.started_at + min_emit_duration)
      then false
      else if is_before num clock b.ended_at (since_of num clock n)
      then false
      else not (email_for n b.machine == "")

  -- pendingBlocks
  unfoldable pub pending_blocks : List Block → Dict String String → AntenneSettings P → List Block
  unfolding is_pending
  pending_blocks [] ledger n = []
  pending_blocks (b ∷ bs) ledger n =
      let rest = pending_blocks bs ledger n in if is_pending ledger n b then b ∷ rest else rest

  -- envelopeFor
  unfoldable pub envelope_for : Block → String → String → Event P
  envelope_for b email stamp = record {
    topic = "agent_session.created";
    facile_id = "fac_" <> b.id;
    payload = agent_session (record {
      facile_id = "fac_" <> b.id;
      project = b.project;
      machine = b.machine;
      agent = b.agent;
      branch = b.branch;
      user_email = email;
      started_at = clock.format b.started_at;
      stopped_at = clock.format b.ended_at;
      tokens_in = b.tokens_in + b.cache_write;
      tokens_out = b.tokens_out;
    });
    timestamp = stamp;
    idempotency_key = "mycelium_agent_session_created_" <> b.id;
  }

  -- usageEnvelopeFor
  unfoldable pub usage_envelope_for : UsageAlert P → String → Event P
  unfolding alert_id
  usage_envelope_for a stamp =
      let id = alert_id num clock a in
      record {
        topic = "usage_alert.created";
        facile_id = "fac_" <> id;
        payload = usage_alert (record {
          facile_id = "fac_" <> id;
          machine = a.machine;
          window = a.window;
          window_label = a.window_label;
          used_percentage = a.used_percentage;
          threshold = a.threshold;
          resets_at = clock.format a.resets_at;
          user_email = a.email;
          source = a.source;
        });
        timestamp = stamp;
        idempotency_key = "mycelium_usage_alert_created_" <> id;
      }

  unfoldable pub event_of : Outgoing P → String → Event P
  unfolding envelope_for usage_envelope_for
  event_of (a_block b email) stamp = envelope_for b email stamp
  event_of (an_alert a) stamp = usage_envelope_for a stamp

  -- The ledger's key of what is published.
  unfoldable pub key_of : Outgoing P → String
  unfolding ledger_key
  key_of (a_block b email) = b.id
  key_of (an_alert a) = ledger_key num clock a

  module _ (out : Outside P) where
    abbrev set_error : String → EmitterState → EmitterState
    set_error text st = record st { last_error = text }

    -- saveLedger
    unfoldable pub save_ledger : Dict String String → EmitterState → EmitterState
    save_ledger ledger st = record st {
      ledger_file = elim (out.write_file st.attempts) as (λ x. Option (Dict String String)) [
        | none ↦ some ledger
        | some e ↦ out.torn st.attempts
      ];
    }

    abbrev attempted : EmitterState → EmitterState
    attempted st = record st { attempts = suc st.attempts }

    abbrev counted : EmitterState → EmitterState
    counted st = record st { emitted = suc st.emitted }

    -- The loop over the pending blocks in emitBlocks, and the one over the alerts in emitUsageAlerts.
    unfoldable pub emit_each : List (Outgoing P) → Dict String String → EmitterState → Pass P
    unfolding key_of event_of save_ledger
    emit_each [] ledger st = record { finished = true; ledger = ledger; state = st; published = [] }
    emit_each (o ∷ os) ledger st =
        let written = Dict.insert (key_of o) (out.stamp st.attempts) ledger in
        let saved = attempted (save_ledger written st) in
        elim (out.emit_now st.attempts (event_of o (out.stamp st.attempts))) as (λ x. Pass P) [
          | some e ↦ record {
            finished = false;
            ledger = ledger;
            state = attempted (set_error ("emit: " <> e) st);
            published = [];
          }
          | none ↦ elim (out.write_file st.attempts) as (λ x. Pass P) [
            | some e ↦ record {
              finished = false;
              ledger = written;
              state = set_error ("ledger: " <> e) saved;
              published = o ∷ [];
            }
            | none ↦
                let rest = emit_each os written (counted saved) in
                record rest { published = o ∷ rest.published }
          ]
        ]

    -- The end of both functions: a pass that went to its end, over something, clears the last error.
    abbrev pub closed : List (Outgoing P) → Pass P → Pass P
    closed [] p = p
    closed (o ∷ os) p = if p.finished then record p { state = set_error "" p.state } else p

    -- emitBlocks
    unfoldable pub emit_blocks :
        List Block → AntenneSettings P → Dict String String → EmitterState → Pass P
    unfolding pending_blocks emit_each email_for
    emit_blocks blocks n ledger st =
        let os = map (λ b. a_block b (email_for n b.machine)) (pending_blocks blocks ledger n) in
        closed os (emit_each os ledger st)

    -- emitUsageAlerts
    unfoldable pub emit_usage_alerts :
        List (Snapshot P) → AntenneSettings P → ℕ → Dict String String → EmitterState → Pass P
    unfolding pending_usage_alerts emit_each
    emit_usage_alerts snapshots n now ledger st =
        let os = map an_alert (pending_usage_alerts num clock snapshots ledger n now) in
        closed os (emit_each os ledger st)

    -- emitPending, where `connected` tells whether there is a client and it is connected, and `read` is the
    -- error of reading the ledger's file.
    unfoldable pub emit_pending :
        Bool
        → Option String
        → List Block
        → List (Snapshot P)
        → AntenneSettings P
        → ℕ
        → EmitterState
        → Pass P
    unfolding emit_blocks emit_usage_alerts load_ledger
    emit_pending connected read blocks snapshots n now st =
        let ledger = load_ledger read st in
        let first = emit_blocks blocks n ledger st in
        let second = emit_usage_alerts snapshots n now first.ledger first.state in
        if connected
        then (if first.finished
            then record second { published = first.published ++ second.published }
            else first)
        else record { finished = false; ledger = ledger; state = st; published = [] }
