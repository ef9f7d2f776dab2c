-- ===== src/Emit/Tests.antt =====
-- Runs of the emitter on two machines of one account, and its theorems at concrete data.
use jardin.Base.{
  ℕ, String, true, false, none, some, List, [], ◌∷◌, ◌++◌, map, ◌≡◌, refl, arith, contains,
}
use jardin.Base.{◌==◌, string_eq, nat_eq, ltb, if◌then◌else◌}
use jardin.Base.Dict
use jardin.Base.Dict.{Dict}
use jardin.Emit.Usage.{Numbers, Snapshot, view, view_window, label_of}
use jardin.Emit.Alerts.{
  Clockwork, AntenneSettings, UsageAlert, email_for, threshold_of, supersedes, alert_id, ledger_key,
  window_alert, get_at, set_at, collect_alert, collect_windows, collect_snapshots,
  pending_usage_alerts,
}
use jardin.Emit.Grouping.{raised}
use jardin.Emit.Highest.{IsLinear, IsTold}
use jardin.Emit.Pending.{pending-highest}
use jardin.Emit.Publish.{
  Block, Event, an_alert, Outside, EmitterState, load_ledger, is_pending, pending_blocks, key_of,
  event_of, save_ledger, emit_each, emit_blocks, emit_usage_alerts, emit_pending,
}
use jardin.Emit.Ledger.{keys_of}
use jardin.Emit.Delivery.{Tick, run_tick, run_ticks, published, published_all, published-once}
use jardin.Emit.Complete.{as_blocks, tick-delivers}

-- Percentages as whole numbers.
abbrev num : Numbers ℕ
num = record {
  lt = ltb;
  zero_percent = 0;
  one_percent = 1;
  default_threshold = 80;
  hundred_percent = 100;
  text = λ n. if n == 80 then "80" else "other";
}

abbrev clock : Clockwork
clock = record {
  short_hash = λ s. s;
  format = λ t. if t == 500 then "at 500" else "later";
  parse = λ s. none;
  to_upper = λ s. s;
}

order : IsLinear num
order = record {
  irrefl = λ a. ground arith;
  trans = λ a b c h k. ground (arith, h, k);
  linear = λ a b h k. ground (arith, h, k);
}

abbrev settings : AntenneSettings ℕ
settings = record {
  enabled = true;
  user_email = "me@x";
  machine_emails = [];
  emit_since = "";
  usage_alerts = true;
  usage_threshold = 80;
}

abbrev reading : String → ℕ → Snapshot ℕ
reading machine used = record {
  machine = machine;
  updated_at = 100;
  source = "cli";
  model = "m";
  windows =
      record { key = "five_hour"; label = ""; used_percentage = used; resets_at = some 500 } ∷ [];
}

abbrev snapshots : List (Snapshot ℕ)
snapshots = reading "desk" 85 ∷ reading "laptop" 95 ∷ []

abbrev alert : String → ℕ → UsageAlert ℕ
alert machine used = record {
  machine = machine;
  email = "me@x";
  window = "five_hour";
  window_label = "5-hour session";
  used_percentage = used;
  threshold = 80;
  resets_at = 500;
  source = "cli";
}

abbrev none_sent : Dict String String
none_sent = []

-- Both machines raise an alert of one account, and the higher one is listed.
raises : get_at 0 (raised num clock none_sent settings 200 snapshots) ≡ some (alert "desk" 85)
unfolding raised get_at email_for threshold_of view view_window window_alert label_of Dict.lookup
    string_eq
raises = refl

lists : pending_usage_alerts num clock snapshots none_sent settings 200 ≡ alert "laptop" 95 ∷ []
unfolding pending_usage_alerts collect_snapshots collect_windows collect_alert supersedes ledger_key
    alert_id get_at set_at email_for threshold_of view view_window window_alert label_of Dict.lookup
    Dict.insert string_eq nat_eq
lists = refl

listed :
    get_at 0 (pending_usage_alerts num clock snapshots none_sent settings 200)
    ≡ some (alert "laptop" 95)
unfolding get_at pending_usage_alerts collect_snapshots collect_windows collect_alert supersedes
    ledger_key alert_id set_at email_for threshold_of view view_window window_alert label_of
    Dict.lookup Dict.insert string_eq nat_eq
listed = refl

fresh : Dict.lookup (ledger_key num clock (alert "desk" 85)) none_sent ≡ none
unfolding Dict.lookup
fresh = refl

abbrev first : ℕ
first = 0

pending-highest_example :
    IsTold num order clock none_sent
      (pending_usage_alerts num clock snapshots none_sent settings 200)
      (alert "desk" 85)
pending-highest_example =
    pending-highest num clock none_sent order settings 200 snapshots 0 (alert "desk" 85) refl raises
      fresh

-- A bus that accepts every event, and a disk that takes every write.
abbrev answering : Outside ℕ
answering = record {
  emit_now = λ n e. none;
  write_file = λ n. none;
  torn = λ n. none;
  stamp = λ n. "noon";
}

answers : (n : ℕ) (e : Event ℕ) → answering.emit_now n e ≡ none
answers n e = refl

saves : (n : ℕ) → answering.write_file n ≡ none
saves n = refl

abbrev block : Block
block = record {
  id = "b1";
  project = "jardin";
  machine = "desk";
  agent = "claude";
  branch = "main";
  started_at = 0;
  ended_at = 90000000000;
  tokens_in = 3;
  tokens_out = 4;
  cache_write = 5;
}

abbrev tick : Tick ℕ
tick = record {
  connected = true;
  read_error = none;
  blocks = block ∷ [];
  snapshots = snapshots;
  settings = settings;
  now = 200;
}

abbrev ticks : List (Tick ℕ)
ticks = tick ∷ []

abbrev start : EmitterState
start = record { ledger_file = none; emitted = 0; last_error = ""; attempts = 0 }

abbrev sent : String
sent = "b1"

was_sent : contains (published_all num clock answering ticks start) sent ≡ true
unfolding published_all published run_tick keys_of emit_pending emit_blocks emit_usage_alerts
    emit_each pending_blocks is_pending key_of event_of save_ledger load_ledger pending_usage_alerts
    collect_snapshots collect_windows collect_alert supersedes ledger_key alert_id get_at set_at
    email_for threshold_of view view_window window_alert label_of Dict.lookup Dict.insert string_eq
    nat_eq
was_sent = refl

published-once_example :
    contains (published num clock answering tick (run_ticks num clock answering ticks start)) sent
    ≡ false
published-once_example =
    published-once num clock answering saves sent ticks tick start (refl, tt) refl was_sent

-- A tick that cannot read the ledger publishes the block again.
published_again :
    contains
      (published num clock answering
        (record tick { read_error = some "input/output error" })
        (run_ticks num clock answering ticks start))
      sent
    ≡ true
unfolding run_ticks published run_tick keys_of emit_pending emit_blocks emit_usage_alerts emit_each
    pending_blocks is_pending key_of event_of save_ledger load_ledger pending_usage_alerts
    collect_snapshots collect_windows collect_alert supersedes ledger_key alert_id get_at set_at
    email_for threshold_of view view_window window_alert label_of Dict.lookup Dict.insert string_eq
    nat_eq
published_again = refl

tick-delivers_example :
    let bs =
      as_blocks settings
        (pending_blocks num clock (block ∷ []) (load_ledger none start) settings) in
    let ledger =
      (emit_blocks num clock answering
        (block ∷ [])
        settings
        (load_ledger none start)
        start).ledger in
    let alerts = map an_alert (pending_usage_alerts num clock snapshots ledger settings 200) in
    ((run_tick num clock answering tick start).published ≡ bs ++ alerts)
    × (pending_blocks num clock
          (block ∷ [])
          (load_ledger none (run_tick num clock answering tick start).state)
          settings
        ≡ [])
tick-delivers_example = tick-delivers num clock answering saves answers tick start refl
