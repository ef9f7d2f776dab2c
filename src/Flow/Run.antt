-- ===== src/Flow/Run.antt =====
-- internal/flow/run.go, and of needs.go stepEnvOf and redactMap: the environment of a step, what is masked in
-- its output, and what one run of it leaves.
use Prim.Native.Char.{code}
use Prim.Native.String.{len}
use jardin.Base.{
  ◌⊎◌, inl, inr, ℕ, String, ◌<>◌, Bool, true, false, not, ◌&&◌, ◌||◌, Option, none, some, List, [],
  ◌∷◌, ◌++◌,
}
use jardin.Base.{◌==◌, string_eq, contains, ltb, ◌=?◌, if◌then◌else◌}
use jardin.Base.Dict
use jardin.Base.Dict.{Dict}
use jardin.Base.Int.{ℤ, pos, negsuc}
use jardin.Base.Text.{has_text}
use jardin.Flow.Types.{Step, Output, StepResult, token_env_var}
use jardin.Flow.Stream.{Bytes, Capture, new_capture, write_all, flush, result}

-- minSecretLength
abbrev pub min_secret_length : ℕ
min_secret_length = 4

-- strings.Cut by "=": the texts before and after the first one.
unfoldable pub cut_entry : String → Option (String × String)
cut_entry String.[] = none
cut_entry (String.◌∷◌ c s) =
    let rest = elim (cut_entry s) as (λ x. Option (String × String)) [
      | none ↦ none
      | some (a, b) ↦ some (String.◌∷◌ c a, b)
    ] in
    if code c =? b'=' then some (String.[], s) else rest

abbrev pub all_inserted : Dict String String → Dict String String → Dict String String
all_inserted [] d = d
all_inserted ((name, value) ∷ more) d = all_inserted more (Dict.insert name value d)

-- stepEnvOf
unfoldable pub step_env_of : Step → Dict String String → Dict String String
step_env_of step [] = step.env
step_env_of step ((name, value) ∷ resolved) = all_inserted ((name, value) ∷ resolved) step.env

-- Whether childEnv passes an entry of its own environment on.
abbrev pub is_passed : List String → Option (String × String) → Bool
is_passed overridden none = false
is_passed overridden (some (name, value)) =
    not (name == token_env_var) && not (contains overridden name)

-- The loop of childEnv over its own environment.
unfoldable pub passed_on : List String → List String → List String
unfolding cut_entry
passed_on overridden [] = []
passed_on overridden (entry ∷ base) =
    let rest = passed_on overridden base in
    if is_passed overridden (cut_entry entry) then entry ∷ rest else rest

-- The loop of childEnv over the variables of the step.
unfoldable pub own_entries : Dict String String → List String
own_entries [] = []
own_entries ((name, value) ∷ env) =
    let rest = own_entries env in
    if name == token_env_var then rest else (name <> ("=" <> value)) ∷ rest

-- childEnv, on the environment of this process.
unfoldable pub child_env : List String → Dict String String → List String
unfolding passed_on own_entries Dict.keys
child_env base step_env = passed_on (Dict.keys step_env) base ++ own_entries step_env

abbrev declared_value : List String → Option (String × String) → List String
declared_value names none = []
declared_value names (some (name, value)) =
    if not (value == "") && contains names name then value ∷ [] else []

-- declaredValues
unfoldable pub declared_values : List String → List String → List String
unfolding cut_entry
declared_values [] names = []
declared_values (entry ∷ env) names =
    declared_value names (cut_entry entry) ++ declared_values env names

-- What a run of a step calls and this code does not hold: strings.ToUpper, the Replace of a
-- strings.NewReplacer that puts "***" for each text of a list, and a text as bytes and back.
pub record Texts : Type 0 where
  pub to_upper : String → String
  pub replace : List String → String → String
  pub text : Bytes → String
  pub bytes : String → Bytes

-- What a process writes, in the pieces that it writes it in, and how it ends: exitCodeOf of the error of
-- its Run, and whether the deadline of the step has passed.
pub record Finished : Type 0 where
  pub out : List Bytes
  pub err : List Bytes
  pub exit_code : ℤ
  pub timed_out : Bool
  pub started_at : ℕ

-- The process of a step, which stepCommand builds and cmd.Run runs with an environment: inl is the text of
-- stepCommand's error.
abbrev pub Process : Type 0
Process = Step → Dict String String → List String → String ⊎ Finished

-- `execution`, without the model: the resolved values, the secrets, and whether there is a live stream.
pub record Execution : Type 0 where
  pub resolved : Dict String String
  pub secret : List String
  pub live : Bool

-- The fields of a StepResult that the scheduler does not read, beside those that it does.
pub record Ran : Type 0 where
  pub result : StepResult
  pub stdout : String
  pub resolved : Dict String String
  pub truncated : Bool
  pub ephemeral : Bool

-- What a run of a step leaves: its result, its output in memory, and what it mirrored of stdout and stderr.
pub record Left : Type 0 where
  pub ran : Ran
  pub output : Output
  pub mirrored : Bytes × Bytes

module _ (io : Texts) where
  -- isSecretName
  unfoldable pub is_secret_name : String → Bool
  is_secret_name name =
      let upper = io.to_upper name in
      has_text upper "TOKEN"
      || has_text upper "SECRET"
      || has_text upper "KEY"
      || has_text upper "PASSWORD"
      || has_text upper "CREDENTIAL"

  abbrev guessed_value : Option (String × String) → List String
  guessed_value none = []
  guessed_value (some (name, value)) =
      if ltb (len value) min_secret_length || not (is_secret_name name) then [] else value ∷ []

  -- The values that newRedactor adds from the environment.
  unfoldable pub guessed_values : List String → List String
  unfolding cut_entry is_secret_name
  guessed_values [] = []
  guessed_values (entry ∷ env) = guessed_value (cut_entry entry) ++ guessed_values env

  abbrev replaced : List String → String → String
  replaced [] s = s
  replaced (value ∷ values) s = io.replace (value ∷ values) s

  -- newRedactor
  unfoldable pub new_redactor : List String → List String → String → String
  unfolding guessed_values
  new_redactor env extra s = replaced (extra ++ guessed_values env) s

  -- redactMap
  unfoldable pub redact_map : (String → String) → Dict String String → Dict String String
  redact_map redact [] = []
  redact_map redact ((name, value) ∷ values) = (name, redact value) ∷ redact_map redact values

  abbrev empty_output : Output
  empty_output = record {
    stdout = "";
    stderr = "";
    exit_code = pos 0;
    stdout_cut = false;
    stderr_cut = false;
    ephemeral = false;
    secrets = [];
  }

  -- `unresolved`, and the zero output.
  abbrev pub refused : Step → String → Left
  refused step err = record {
    ran = record {
      result = record {
        name = step.name;
        exit_code = negsuc 0;
        stderr = err;
        timed_out = false;
        not_started = true;
        skipped = false;
        started_at = none;
      };
      stdout = "";
      resolved = [];
      truncated = false;
      ephemeral = false;
    };
    output = empty_output;
    mirrored = ([], []);
  }

  -- The bytes that a capture of a step sees redacted.
  abbrev pub redact_bytes : (String → String) → Bytes → Bytes
  redact_bytes redact raw = io.bytes (redact (io.text raw))

  -- One stream of a process, through its capture.
  abbrev pub captured : String → (String → String) → Bool → List Bytes → Capture
  captured prefix redact mirrors chunks =
      flush (io.bytes prefix) (redact_bytes redact)
        (write_all (io.bytes prefix) (redact_bytes redact) chunks (new_capture mirrors))

  -- What runStep puts together once the process has ended.
  unfoldable pub finish :
      Step → Execution → List String → (String → String) → Finished → Capture → Capture → Left
  unfolding result redact_map
  finish step ex declared redact fin out err =
      let (raw_out, out_cut) = result out in
      let (raw_err, err_cut) = result err in
      record {
        ran = record {
          result = record {
            name = step.name;
            exit_code = fin.exit_code;
            stderr = if step.ephemeral then "" else redact (io.text raw_err);
            timed_out = fin.timed_out;
            not_started = false;
            skipped = false;
            started_at = some fin.started_at;
          };
          stdout = if step.ephemeral then "" else redact (io.text raw_out);
          resolved = redact_map redact ex.resolved;
          truncated = out_cut || err_cut;
          ephemeral = step.ephemeral;
        };
        output = record {
          stdout = io.text raw_out;
          stderr = io.text raw_err;
          exit_code = fin.exit_code;
          stdout_cut = out_cut;
          stderr_cut = err_cut;
          ephemeral = step.ephemeral;
          secrets = declared;
        };
        mirrored = (out.written, err.written);
      }

  abbrev ended : Step → Execution → List String → (String → String) → String ⊎ Finished → Left
  ended step ex declared redact (inl err) = refused step err
  ended step ex declared redact (inr fin) =
      let mirrors = ex.live && not step.ephemeral in
      finish step ex declared redact fin
        (captured ("[" <> (step.name <> "] ")) redact mirrors fin.out)
        (captured ("[" <> (step.name <> "! ")) redact mirrors fin.err)

  -- runStep
  unfoldable pub run_step : List String → Process → Step → Execution → Left
  unfolding step_env_of child_env declared_values new_redactor finish write_all flush
  run_step base process step ex =
      let step_env = step_env_of step ex.resolved in
      let env = child_env base step_env in
      let declared = declared_values env step.secret in
      let redact = new_redactor env (declared ++ ex.secret) in
      ended step ex declared redact (process step step_env env)
