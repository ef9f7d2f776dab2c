-- ===== src/Emit/Alerts.antt =====
-- internal/server/usage_alert.go and settings.go: which windows raise an alert.
use jardin.Base.{
  ℕ, zero, suc, String, ◌<>◌, Bool, true, false, not, ◌||◌, Option, none, some, List, [], ◌∷◌, ◌++◌,
}
use jardin.Base.{◌==◌, string_eq, ltb, length, if◌then◌else◌}
use jardin.Base.Dict
use jardin.Base.Dict.{Dict}
use jardin.Base.Text.{text_lt}
use jardin.Emit.Usage.{Numbers, Snapshot, WindowView, view, label_of}

-- What this code calls and does not hold: the first sixteen digits of a sha256 in hexadecimal,
-- `Format` and `Parse` under RFC 3339, and strings.ToUpper. The zero instant parses as none, as an
-- unreadable one does.
pub record Clockwork : Type 0 where
  pub short_hash : String → String
  pub format : ℕ → String
  pub parse : String → Option ℕ
  pub to_upper : String → String

pub record AntenneSettings (P : Type 0) : Type 0 where
  pub enabled : Bool
  pub user_email : String
  pub machine_emails : Dict String String
  pub emit_since : String
  pub usage_alerts : Bool
  pub usage_threshold : P

pub record UsageAlert (P : Type 0) : Type 0 where
  pub machine : String
  pub email : String
  pub window : String
  pub window_label : String
  pub used_percentage : P
  pub threshold : P
  pub resets_at : ℕ
  pub source : String

-- What collectAlert builds: `out`, and `group` from keys to places in it.
pub record Collected (P : Type 0) : Type 0 where
  pub out : List (UsageAlert P)
  pub group : Dict String ℕ

abbrev pub nothing : {P : Type 0} → Collected P
nothing = record { out = []; group = [] }

-- out[i] = alert
unfoldable pub set_at : {P : Type 0} → ℕ → UsageAlert P → List (UsageAlert P) → List (UsageAlert P)
set_at i a [] = []
set_at zero a (x ∷ xs) = a ∷ xs
set_at (suc i) a (x ∷ xs) = x ∷ set_at i a xs

unfoldable pub get_at : {P : Type 0} → ℕ → List (UsageAlert P) → Option (UsageAlert P)
get_at i [] = none
get_at zero (x ∷ xs) = some x
get_at (suc i) (x ∷ xs) = get_at i xs

abbrev email_or : String → Option String → String
email_or user none = user
email_or user (some email) = if email == "" then user else email

-- EmailFor
unfoldable pub email_for : {P : Type 0} → AntenneSettings P → String → String
email_for n machine = email_or n.user_email (Dict.lookup machine n.machine_emails)

module _ {P : Type 0} (num : Numbers P) where
  -- Threshold
  unfoldable pub threshold_of : AntenneSettings P → P
  threshold_of n =
      if not (num.lt num.zero_percent n.usage_threshold)
      then num.default_threshold
      else if num.lt n.usage_threshold num.one_percent
      then num.one_percent
      else if num.lt num.hundred_percent n.usage_threshold
      then num.hundred_percent
      else n.usage_threshold

  unfoldable pub supersedes : UsageAlert P → UsageAlert P → Bool
  supersedes a cur =
      if num.lt a.used_percentage cur.used_percentage
        || num.lt cur.used_percentage a.used_percentage
      then num.lt cur.used_percentage a.used_percentage
      else text_lt a.machine cur.machine

  module _ (clock : Clockwork) where
    -- The method ID.
    unfoldable pub alert_id : UsageAlert P → String
    alert_id a = clock.short_hash (
        "usage_alert|"
        <> (a.email
            <> ("|"
                <> (a.window
                    <> ("|" <> (clock.format a.resets_at <> ("|" <> num.text a.threshold)))))))

    -- LedgerKey
    unfoldable pub ledger_key : UsageAlert P → String
    unfolding alert_id
    ledger_key a = "usage:" <> alert_id a

    abbrev label_or : String → String → String
    label_or label key = if label == "" then label_of clock.to_upper key else label

    abbrev alert_at : Snapshot P → WindowView P → String → P → Option ℕ → Option (UsageAlert P)
    alert_at s w email threshold none = none
    alert_at s w email threshold (some reset) =
        if w.expired || num.lt w.used_percentage threshold
        then none
        else some (record {
          machine = s.machine;
          email = email;
          window = w.key;
          window_label = label_or w.label w.key;
          used_percentage = w.used_percentage;
          threshold = threshold;
          resets_at = reset;
          source = s.source;
        })

    -- windowAlert
    unfoldable pub window_alert : Snapshot P → WindowView P → String → P → Option (UsageAlert P)
    unfolding label_of
    window_alert s w email threshold = alert_at s w email threshold w.resets_at

    abbrev pub beats : UsageAlert P → Option (UsageAlert P) → Bool
    beats a none = false
    beats a (some cur) = supersedes a cur

    abbrev pub add_alert : Option ℕ → String → UsageAlert P → Collected P → Collected P
    add_alert none key a c = record {
      out = c.out ++ (a ∷ []);
      group = Dict.insert key (length c.out) c.group;
    }
    add_alert (some i) key a c =
        if beats a (get_at i c.out) then record c { out = set_at i a c.out } else c

    abbrev pub is_done : Option String → Bool
    is_done none = false
    is_done (some day) = true

    -- collectAlert
    unfoldable pub collect_alert : Dict String String → UsageAlert P → Collected P → Collected P
    unfolding set_at get_at supersedes
    collect_alert ledger a c =
        let key = ledger_key a in
        if is_done (Dict.lookup key ledger) then c else add_alert (Dict.lookup key c.group) key a c

    unfoldable pub collect_windows :
        Dict String String
        → Snapshot P
        → String
        → P
        → List (WindowView P)
        → Collected P
        → Collected P
    unfolding window_alert
    collect_windows ledger s email threshold [] c = c
    collect_windows ledger s email threshold (w ∷ ws) c =
        collect_windows ledger s email threshold ws
          (elim (window_alert s w email threshold) as (λ x. Collected P) [
            | none ↦ c
            | some a ↦ collect_alert ledger a c
          ])

    -- Whether a snapshot is older than the instant from which events are emitted.
    abbrev pub since_of : AntenneSettings P → Option ℕ
    since_of n = if n.emit_since == "" then none else clock.parse n.emit_since

    abbrev pub is_before : ℕ → Option ℕ → Bool
    is_before t none = false
    is_before t (some since) = ltb t since

    unfoldable pub collect_snapshots :
        Dict String String → AntenneSettings P → ℕ → List (Snapshot P) → Collected P → Collected P
    unfolding collect_windows email_for threshold_of
    collect_snapshots ledger n now [] c = c
    collect_snapshots ledger n now (s ∷ ss) c =
        let email = email_for n s.machine in
        collect_snapshots ledger n now ss (
          if is_before s.updated_at (since_of n) || email == ""
          then c
          else collect_windows ledger s email (threshold_of n) (view now s).windows c)

    -- pendingUsageAlerts
    unfoldable pub pending_usage_alerts :
        List (Snapshot P) → Dict String String → AntenneSettings P → ℕ → List (UsageAlert P)
    unfolding collect_snapshots
    pending_usage_alerts snapshots ledger n now =
        if n.usage_alerts then (collect_snapshots ledger n now snapshots nothing).out else []
