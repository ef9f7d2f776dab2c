-- ===== src/Flow/RunTests.antt =====
-- Runs of a step, and the theorems on them at concrete data.
use Prim.Native.Char.{Char, code}
use jardin.Base.{inr, ap, ℕ, String, Bool, true, false, none, List, [], ◌∷◌, ◌++◌, ◌≡◌, refl}
use jardin.Base.{string_eq, nat_eq, ◌=?◌, if◌then◌else◌}
use jardin.Base.Dict
use jardin.Base.Int.{pos}
use jardin.Base.Text.{has_text, has_prefix, cut_prefix}
use jardin.Flow.Types.{Step}
use jardin.Flow.Stream.{Bytes}
use jardin.Flow.Kept.{joined}
use jardin.Flow.Mirror.{rendered}
use jardin.Flow.Run.{
  Texts, Finished, Process, Execution, cut_entry, step_env_of, passed_on, own_entries, child_env,
  declared_values, is_secret_name, guessed_values, new_redactor, redact_bytes, run_step,
}
use jardin.Flow.Environment.{ArePlain, has_equals, values_of, expected_values, values_of-child_env}
use jardin.Flow.Steps.{
  held, declared_of, redact_of, shown, run_step-output, run_step-ephemeral, run_step-mirrored,
}

-- Every byte other than a newline reads as an x, as in a text that is all secret.
abbrev char_of : ℕ → Char
char_of b = if b =? 10 then "\n" else "x"

text_of : Bytes → String
text_of [] = String.[]
text_of (b ∷ bs) = String.◌∷◌ (char_of b) (text_of bs)

bytes_of : String → Bytes
bytes_of String.[] = []
bytes_of (String.◌∷◌ c s) = code c ∷ bytes_of s

abbrev texts : Texts
texts = record { to_upper = λ s. s; replace = λ values s. s; text = text_of; bytes = bytes_of }

abbrev a_step : Bool → Step
a_step ephemeral = record {
  name = "build";
  run = "make";
  env = ("MODE", "fast") ∷ ("MYCELIUM_TOKEN", "t0") ∷ [];
  needs = [];
  depends_on = none;
  ephemeral = ephemeral;
  secret = "MODE" ∷ [];
  type = "";
  with = [];
  timeout = pos 60;
  allow_failure = false;
}

abbrev base : List String
base = "PATH=/bin" ∷ "MYCELIUM_TOKEN=t1" ∷ "MODE=slow" ∷ "broken" ∷ []

abbrev an_end : Finished
an_end = record {
  out = (7 ∷ []) ∷ (10 ∷ 7 ∷ []) ∷ [];
  err = [];
  exit_code = pos 0;
  timed_out = false;
  started_at = 12;
}

abbrev process : Process
process step step_env env = inr an_end

abbrev execution : Execution
execution = record { resolved = []; secret = []; live = true }

run_step-output_example :
    (run_step texts base process (a_step false) execution).output
    ≡ held texts (a_step false) an_end (declared_of texts base (a_step false) execution)
run_step-output_example = run_step-output texts base process (a_step false) execution an_end refl

run_step-ephemeral_example :
    (shown texts (run_step texts base process (a_step true) execution) ≡ ([], [], "", ""))
    × ((run_step texts base process (a_step true) execution).output.ephemeral ≡ true)
run_step-ephemeral_example =
    run_step-ephemeral texts base process (a_step true) execution an_end refl refl

bytes_of-text_of :
    (as_ bs : Bytes)
    → bytes_of (text_of (as_ ++ (10 ∷ bs))) ≡ bytes_of (text_of as_) ++ (10 ∷ bytes_of (text_of bs))
unfolding bytes_of text_of nat_eq
bytes_of-text_of [] bs = refl
bytes_of-text_of (a ∷ as_) bs = ap (λ l. code (char_of a) ∷ l) (bytes_of-text_of as_ bs)

-- The environment of the step has a value that is declared secret, so its redactor is the replacer.
redacts : redact_of texts base (a_step false) execution ≡ (λ s. s)
unfolding new_redactor declared_values guessed_values is_secret_name step_env_of child_env passed_on
    own_entries cut_entry Dict.keys string_eq has_text has_prefix cut_prefix
redacts = refl

redacts-empty : redact_bytes texts (redact_of texts base (a_step false) execution) [] ≡ []
unfolding bytes_of text_of
redacts-empty = rw redacts refl

redacts-lines :
    (as_ bs : Bytes)
    → redact_bytes texts (redact_of texts base (a_step false) execution) (as_ ++ (10 ∷ bs))
      ≡ redact_bytes texts (redact_of texts base (a_step false) execution) as_
        ++ (10 ∷ redact_bytes texts (redact_of texts base (a_step false) execution) bs)
redacts-lines as_ bs = rw redacts (bytes_of-text_of as_ bs)

run_step-mirrored_example : (run_step texts base process (a_step false) execution).mirrored ≡ (
  rendered
      (bytes_of "[build] ")
      (redact_bytes texts (redact_of texts base (a_step false) execution))
      (joined an_end.out),
  rendered
      (bytes_of "[build! ")
      (redact_bytes texts (redact_of texts base (a_step false) execution))
      (joined an_end.err),
)
run_step-mirrored_example =
    run_step-mirrored texts base process (a_step false) execution an_end refl refl refl
      redacts-empty redacts-lines

plain_step_env : ArePlain (("MODE", "fast") ∷ ("MYCELIUM_TOKEN", "t0") ∷ [])
unfolding has_equals
plain_step_env = (refl, (refl, tt))

distinct_step_env :
    Dict.NodupKeys {K = String} {V = String} (("MODE", "fast") ∷ ("MYCELIUM_TOKEN", "t0") ∷ [])
unfolding Dict.lookup string_eq
distinct_step_env = (refl, (refl, tt))

values_of-child_env_example :
    values_of "MODE" (child_env base (("MODE", "fast") ∷ ("MYCELIUM_TOKEN", "t0") ∷ []))
    ≡ expected_values "MODE" base (("MODE", "fast") ∷ ("MYCELIUM_TOKEN", "t0") ∷ [])
values_of-child_env_example =
    values_of-child_env "MODE" base (("MODE", "fast") ∷ ("MYCELIUM_TOKEN", "t0") ∷ [])
      plain_step_env distinct_step_env

child_env-whole :
    child_env base (("MODE", "fast") ∷ ("MYCELIUM_TOKEN", "t0") ∷ [])
    ≡ "PATH=/bin" ∷ "MODE=fast" ∷ []
unfolding child_env passed_on own_entries cut_entry Dict.keys string_eq
child_env-whole = refl
