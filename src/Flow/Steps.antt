-- ===== src/Flow/Steps.antt =====
-- What one run of a step leaves on disk, in memory and on the terminal.
use jardin.Base.{
  ◌⊎◌, String, ◌<>◌, Bool, true, false, not, ◌&&◌, List, [], ◌∷◌, ◌++◌, ◌≡◌, refl, ap, ◌∙◌, arith,
}
use jardin.Base.{ltb, length, if◌then◌else◌, inr}
use jardin.Flow.Types.{Step, Output}
use jardin.Flow.Stream.{Bytes, max_stream_bytes, take, result}
use jardin.Flow.Kept.{joined, result-write_all}
use jardin.Flow.Mirror.{rendered, written-write_all, flush-off}
use jardin.Flow.Run.{
  Texts, Finished, Process, Execution, Left, step_env_of, child_env, declared_values, new_redactor,
  redact_bytes, captured, finish, run_step,
}

-- A stream as one text: what is kept of it, and whether it was cut.
abbrev pub kept : List Bytes → Bytes × Bool
kept chunks = (take max_stream_bytes (joined chunks), ltb max_stream_bytes (length (joined chunks)))

module _ (io : Texts) where
  captured-result :
      (prefix : String) (redact : String → String) (mirrors : Bool) (chunks : List Bytes)
      → result (captured io prefix redact mirrors chunks) ≡ kept chunks
  captured-result prefix redact mirrors chunks =
      result-write_all (io.bytes prefix) (redact_bytes io redact) mirrors chunks

  abbrev pub held_with : Step → Finished → List String → Bytes × Bool → Bytes × Bool → Output
  held_with step fin declared out err = record {
    stdout = io.text out.0;
    stderr = io.text err.0;
    exit_code = fin.exit_code;
    stdout_cut = out.1;
    stderr_cut = err.1;
    ephemeral = step.ephemeral;
    secrets = declared;
  }

  -- The output of a step in memory, as later steps may use it.
  abbrev pub held : Step → Finished → List String → Output
  held step fin declared = held_with step fin declared (kept fin.out) (kept fin.err)

  abbrev pub out_prefix : Step → String
  out_prefix step = "[" <> (step.name <> "] ")

  abbrev pub err_prefix : Step → String
  err_prefix step = "[" <> (step.name <> "! ")

  abbrev pub declared_of : List String → Step → Execution → List String
  declared_of base step ex =
      declared_values (child_env base (step_env_of step ex.resolved)) step.secret

  abbrev pub process_of : List String → Process → Step → Execution → String ⊎ Finished
  process_of base process step ex =
      let step_env = step_env_of step ex.resolved in process step step_env (child_env base step_env)

  abbrev pub redact_of : List String → Step → Execution → String → String
  redact_of base step ex =
      new_redactor io (child_env base (step_env_of step ex.resolved))
        (declared_of base step ex ++ ex.secret)

  finished :
      (base : List String) (process : Process) (step : Step) (ex : Execution) (fin : Finished)
      → process_of base process step ex ≡ inr fin
      → run_step io base process step ex
        ≡ finish io step ex
            (declared_of base step ex)
            (redact_of base step ex)
            fin
            (captured io
              (out_prefix step)
              (redact_of base step ex)
              (ex.live && not step.ephemeral)
              fin.out)
            (captured io
              (err_prefix step)
              (redact_of base step ex)
              (ex.live && not step.ephemeral)
              fin.err)
  unfolding run_step
  finished base process step ex fin e = rw e refl

  -- A step that runs to its end leaves in memory the first MaxStreamBytes bytes of each stream, unmasked,
  -- marked as cut exactly when there were more, whatever pieces they were written in.
  pub run_step-output :
      (base : List String) (process : Process) (step : Step) (ex : Execution) (fin : Finished)
      → process_of base process step ex ≡ inr fin
      → (run_step io base process step ex).output ≡ held step fin (declared_of base step ex)
  unfolding finish
  run_step-output base process step ex fin e =
      let redact = redact_of base step ex in
      let on = ex.live && not step.ephemeral in
      ap (λ l. l.output) (finished base process step ex fin e) ∙ λ i.
      held_with step fin (declared_of base step ex)
        (captured-result (out_prefix step) redact on fin.out i)
        (captured-result (err_prefix step) redact on fin.err i)

  -- What is on the terminal and in the record of a step after it has run.
  abbrev pub shown : Left → Bytes × Bytes × String × String
  shown l = (l.mirrored.0, l.mirrored.1, l.ran.stdout, l.ran.result.stderr)

  -- An ephemeral step that runs to its end leaves nothing of its output on the terminal or in its record,
  -- and its output in memory is marked so that later steps mask it.
  pub run_step-ephemeral :
      (base : List String) (process : Process) (step : Step) (ex : Execution) (fin : Finished)
      → process_of base process step ex ≡ inr fin
      → step.ephemeral ≡ true
      → (shown (run_step io base process step ex) ≡ ([], [], "", ""))
        × ((run_step io base process step ex).output.ephemeral ≡ true)
  unfolding finish
  run_step-ephemeral base process step ex fin e eph =
      let redact = redact_of base step ex in
      let off : (ex.live && not step.ephemeral) ≡ false = ground (arith, eph) in
      let blank : (text : String) → (if step.ephemeral then "" else text) ≡ "" =
        λ text. rw eph refl in
      let silent : (prefix : String) (chunks : List Bytes)
          → (captured io prefix redact (ex.live && not step.ephemeral) chunks).written ≡ [] =
        λ prefix chunks.
          ap (λ m. (captured io prefix redact m chunks).written) off
          ∙ flush-off (io.bytes prefix) (redact_bytes io redact) chunks in
      let out =
        (result (captured io (out_prefix step) redact (ex.live && not step.ephemeral) fin.out)).0 in
      let err =
        (result (captured io (err_prefix step) redact (ex.live && not step.ephemeral) fin.err)).0 in
      (
        ap shown (finished base process step ex fin e) ∙ λ i. (
          silent (out_prefix step) fin.out i,
          silent (err_prefix step) fin.err i,
          blank (redact (io.text out)) i,
          blank (redact (io.text err)) i,
        ),
        ap (λ l. l.output.ephemeral) (finished base process step ex fin e) ∙ eph,
      )

  -- A step with a live stream that is not ephemeral mirrors each stream line by line, each line masked and
  -- behind the name of the step, whatever pieces it was written in, if masking works line by line and leaves the empty text empty.
  pub run_step-mirrored :
      (base : List String) (process : Process) (step : Step) (ex : Execution) (fin : Finished)
      → process_of base process step ex ≡ inr fin
      → step.ephemeral ≡ false
      → ex.live ≡ true
      → redact_bytes io (redact_of base step ex) [] ≡ []
      → ((as_ bs : Bytes)
          → redact_bytes io (redact_of base step ex) (as_ ++ (10 ∷ bs))
            ≡ redact_bytes io (redact_of base step ex) as_
              ++ (10 ∷ redact_bytes io (redact_of base step ex) bs))
      → (run_step io base process step ex).mirrored ≡ (
        rendered
            (io.bytes (out_prefix step))
            (redact_bytes io (redact_of base step ex))
            (joined fin.out),
        rendered
            (io.bytes (err_prefix step))
            (redact_bytes io (redact_of base step ex))
            (joined fin.err),
      )
  unfolding finish
  run_step-mirrored base process step ex fin e not_eph live empty linewise =
      let redact = redact_of base step ex in
      let on : (ex.live && not step.ephemeral) ≡ true = ground (arith, not_eph, live) in
      let lines : (prefix : String) (chunks : List Bytes)
          → (captured io prefix redact (ex.live && not step.ephemeral) chunks).written
            ≡ rendered (io.bytes prefix) (redact_bytes io redact) (joined chunks) =
        λ prefix chunks.
          ap (λ m. (captured io prefix redact m chunks).written) on
          ∙ written-write_all (io.bytes prefix) (redact_bytes io redact) empty linewise chunks in
      ap (λ l. l.mirrored) (finished base process step ex fin e) ∙ λ i.
      (lines (out_prefix step) fin.out i, lines (err_prefix step) fin.err i)
