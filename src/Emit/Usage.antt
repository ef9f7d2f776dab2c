-- ===== src/Emit/Usage.antt =====
-- internal/usage/usage.go: quota windows and snapshots, resolved against the clock. Instants are
-- nanoseconds, and percentages are of a type that is given with its order.
use Prim.Native.Char.{code}
use jardin.Base.{
  ℕ, suc, ◌-◌, ◌/◌, String, ◌<>◌, Bool, false, Option, none, some, List, [], ◌∷◌, map,
}
use jardin.Base.{◌==◌, string_eq, ltb, ◌=?◌, if◌then◌else◌}
use jardin.Base.Dict
use jardin.Base.Dict.{Dict}
use jardin.Base.Text.{text_lt}

-- Go's float64, as far as the program compares and prints it.
pub record Numbers (P : Type 0) : Type 0 where
  pub lt : P → P → Bool
  pub zero_percent : P
  pub one_percent : P
  pub default_threshold : P
  pub hundred_percent : P
  pub text : P → String

pub record Window (P : Type 0) : Type 0 where
  pub key : String
  pub label : String
  pub used_percentage : P
  pub resets_at : Option ℕ

pub record Snapshot (P : Type 0) : Type 0 where
  pub machine : String
  pub updated_at : ℕ
  pub source : String
  pub model : String
  pub windows : List (Window P)

pub record WindowView (P : Type 0) : Type 0 where
  pub key : String
  pub label : String
  pub used_percentage : P
  pub resets_at : Option ℕ
  pub resets_in_seconds : Option ℕ
  pub expired : Bool

pub record SnapshotView (P : Type 0) : Type 0 where
  pub machine : String
  pub updated_at : ℕ
  pub age_seconds : ℕ
  pub stale : Bool
  pub source : String
  pub model : String
  pub windows : List (WindowView P)

abbrev second : ℕ
second = 1000000000

-- StaleAfter: 15 minutes.
abbrev stale_after : ℕ
stale_after = 900000000000

-- The text of a window's time to its reset. `-` on ℕ is 0 where the source sets 0.
abbrev seconds_until : ℕ → Option ℕ → Option ℕ
seconds_until now none = none
seconds_until now (some t) = some ((t - now) / second)

-- now.After
abbrev is_past : ℕ → Option ℕ → Bool
is_past now none = false
is_past now (some t) = ltb t now

unfoldable pub view_window : {P : Type 0} → ℕ → Window P → WindowView P
view_window now w = record {
  key = w.key;
  label = w.label;
  used_percentage = w.used_percentage;
  resets_at = w.resets_at;
  resets_in_seconds = seconds_until now w.resets_at;
  expired = is_past now w.resets_at;
}

-- View
unfoldable pub view : {P : Type 0} → ℕ → Snapshot P → SnapshotView P
unfolding view_window
view now s = record {
  machine = s.machine;
  updated_at = s.updated_at;
  age_seconds = (now - s.updated_at) / second;
  stale = ltb stale_after (now - s.updated_at);
  source = s.source;
  model = s.model;
  windows = map (view_window now) s.windows;
}

-- Resolve
unfoldable pub resolve_all : {P : Type 0} → ℕ → List (Snapshot P) → List (SnapshotView P)
unfolding view
resolve_all now snapshots = map (view now) snapshots

abbrev window_order : List String
window_order =
    "five_hour" ∷ "seven_day" ∷ "seven_day_opus" ∷ "seven_day_sonnet" ∷ "seven_day_overage_included"
    ∷ []

abbrev window_labels : Dict String String
window_labels =
    ("five_hour", "5-hour session")
    ∷ ("seven_day", "Weekly")
    ∷ ("seven_day_opus", "Weekly (Opus)")
    ∷ ("seven_day_sonnet", "Weekly (Sonnet)")
    ∷ ("seven_day_overage_included", "Weekly (incl. overage)")
    ∷ []

abbrev window_short : Dict String String
window_short =
    ("five_hour", "5h")
    ∷ ("seven_day", "7d")
    ∷ ("seven_day_opus", "7d opus")
    ∷ ("seven_day_sonnet", "7d sonnet")
    ∷ ("seven_day_overage_included", "7d+overage")
    ∷ []

-- strings.ReplaceAll(s, "_", " ")
unfoldable pub spaced : String → String
spaced String.[] = ""
spaced (String.◌∷◌ c s) = (if code c =? b'_' then " " else String.◌∷◌ c "") <> spaced s

abbrev humanized : (String → String) → String → String
humanized to_upper String.[] = "(unknown)"
humanized to_upper (String.◌∷◌ c s) = to_upper (String.◌∷◌ c "") <> spaced s

abbrev text_or : String → Option String → String
text_or other none = other
text_or other (some text) = text

-- Label, with strings.ToUpper as an argument. (A key starts with an ASCII character.)
unfoldable pub label_of : (String → String) → String → String
unfolding spaced Dict.lookup
label_of to_upper key = text_or (humanized to_upper key) (Dict.lookup key window_labels)

-- Short
unfoldable pub short_of : String → String
unfolding Dict.lookup
short_of key = text_or key (Dict.lookup key window_short)

unfoldable pub rank_in : List String → String → ℕ
rank_in [] key = 0
rank_in (k ∷ ks) key = if k == key then 0 else suc (rank_in ks key)

-- windowRank
unfoldable pub window_rank : String → ℕ
unfolding rank_in
window_rank key = rank_in window_order key

unfoldable pub window_less : {P : Type 0} → Window P → Window P → Bool
unfolding window_rank text_lt
window_less a b =
    let ra = window_rank a.key in
    let rb = window_rank b.key in if ra =? rb then text_lt a.key b.key else ltb ra rb

-- sortWindows: a stable sort.
unfoldable pub insert_window : {P : Type 0} → Window P → List (Window P) → List (Window P)
unfolding window_less
insert_window w [] = w ∷ []
insert_window w (v ∷ vs) =
    let rest = insert_window w vs in if window_less v w then v ∷ rest else w ∷ v ∷ vs

unfoldable pub sort_windows : {P : Type 0} → List (Window P) → List (Window P)
unfolding insert_window
sort_windows [] = []
sort_windows (w ∷ ws) = insert_window w (sort_windows ws)
