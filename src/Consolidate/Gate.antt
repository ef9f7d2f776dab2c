-- ===== src/Consolidate/Gate.antt =====
-- gate.go: the four rules that a candidate must clear.
use jardin.Base.{ℕ, String, Bool, true, false, ◌||◌, Option, none, some, List, [], ◌∷◌, ◌++◌}
use jardin.Base.{ltb, leb, ◌+◌, if◌then◌else◌}
use jardin.Base.Text.{has_text, is_some}
use Prim.Native.String.{len}

-- A candidate, without its kind, which only the log reads.
pub record Candidate : Type 0 where
  pub text : String
  pub episode_refs : List String

pub data Rule : Type 0 where
  behavior obvious grounded secret : Rule

pub record Rejection : Type 0 where
  pub rule : Rule
  pub reason : String

-- The regular expressions of gate.go.
pub data Pattern : Type 0 where
  path_re date_re error_re version_re assign_re token_re pem_re : Pattern

-- What this code calls and does not hold: FindString of package regexp on each pattern,
-- strings.ToLower and strings.TrimSpace, and the text of a rejection as its method Error gives it,
-- from its rule and the text that it names.
pub record Matching : Type 0 where
  pub find : Pattern → String → Option String
  pub to_lower : String → String
  pub trim_space : String → String
  pub reason : Rule → String → String

abbrev min_behavior_length : ℕ
min_behavior_length = 30

abbrev min_specificity_signals : ℕ
min_specificity_signals = 1

-- The keys of the map, in some order: the loop over it asks for one that is contained.
abbrev behavior_words : List String
behavior_words =
    "fix" ∷ "fixed" ∷ "instead" ∷ "avoid" ∷ "must" ∷ "use" ∷ "never" ∷ "always" ∷ "configure"
    ∷ "set" ∷ "enable" ∷ "disable" ∷ "breaks" ∷ "fails" ∷ "requires" ∷ "rejects" ∷ "refuses"
    ∷ "default" ∷ "override" ∷ "migrate" ∷ "rename" ∷ "broke" ∷ []

-- gotchaMarkers of heuristic.go.
abbrev gotcha_markers : List String
gotcha_markers =
    "gotcha" ∷ "turns out" ∷ "the fix was" ∷ "note that" ∷ "watch out" ∷ "careful:"
    ∷ "do not forget" ∷ []

unfoldable pub contains_any : String → List String → Bool
unfolding has_text
contains_any s [] = false
contains_any s (p ∷ ps) = has_text s p || contains_any s ps

module _ (re : Matching) where
  abbrev rejects : Rule → String → List Rejection
  rejects rule text = record { rule = rule; reason = re.reason rule text } ∷ []

  -- checkBehavior: no rejection, or one.
  unfoldable pub check_behavior : String → List Rejection
  unfolding contains_any
  check_behavior text =
      let trimmed = re.trim_space text in
      let lowered = re.to_lower trimmed in
      if ltb (len trimmed) min_behavior_length
      then rejects behavior trimmed
      else if contains_any lowered behavior_words
      then []
      else if contains_any lowered gotcha_markers
      then []
      else rejects behavior ""

  abbrev signal : Bool → ℕ
  signal true = 1
  signal false = 0

  unfoldable pub count_signals : String → List Pattern → ℕ
  count_signals text [] = 0
  count_signals text (p ∷ ps) = signal (is_some (re.find p text)) + count_signals text ps

  -- checkObvious
  unfoldable pub check_obvious : String → List Rejection
  unfolding contains_any count_signals
  check_obvious text =
      let signals =
        count_signals text (path_re ∷ date_re ∷ error_re ∷ version_re ∷ [])
        + signal (contains_any (re.to_lower text) gotcha_markers) in
      if leb min_specificity_signals signals then [] else rejects obvious ""

  abbrev check_grounded : List String → List Rejection
  check_grounded [] = rejects grounded ""
  check_grounded (ref ∷ refs) = []

  abbrev nonempty : Option String → Option String
  nonempty none = none
  nonempty (some String.[]) = none
  nonempty (some (String.◌∷◌ c s)) = some (String.◌∷◌ c s)

  abbrev private_key : Bool → List Rejection
  private_key true = rejects secret ""
  private_key false = []

  abbrev token_shape : Option String → List Rejection → List Rejection
  token_shape none other = other
  token_shape (some found) other = rejects secret found

  -- checkSecrets
  unfoldable pub check_secrets : String → List Rejection
  check_secrets text =
      token_shape (nonempty (re.find assign_re text)) (
        token_shape (nonempty (re.find token_re text))
          (private_key (is_some (re.find pem_re text))))

  -- Gate
  unfoldable pub gate : Candidate → List Rejection
  unfolding check_behavior check_obvious check_secrets
  gate c =
      check_behavior c.text
      ++ (check_obvious c.text ++ (check_grounded c.episode_refs ++ check_secrets c.text))

abbrev is_secret : Rule → Bool
is_secret secret = true
is_secret _ = false

-- leaksSecret of run.go
unfoldable pub leaks_secret : List Rejection → Bool
leaks_secret [] = false
leaks_secret (r ∷ rs) = is_secret r.rule || leaks_secret rs
