-- ===== src/Flow/Tests.antt =====
-- A run of two steps, one after the other, and the scheduler's theorems on it.
use jardin.Base.{
  ◌<◌, ◌≤◌, String, true, false, none, some, List, [], ◌∷◌, ◌≡◌, ◌⊎◌, refl, sym, ◌∙◌, arith,
}
use jardin.Base.{string_eq, nat_eq, contains, IsNodup, length}
use jardin.Base.Int.{pos}
use jardin.Base.Dict
use jardin.Base.Dict.{Dict}
use jardin.Flow.Types.{Step}
use jardin.Base.Text.{sort_strings}
use jardin.Flow.Needs.{referenced_steps, add_references}
use jardin.Flow.Graph.{
  add_names, add_need_steps, without, waits_of, dependencies, names_of, deps_at,
}
use jardin.Flow.Schedule.{
  Outcome, Plan, Sched, Surroundings, start, new_plan, drive, no_output, all_done,
}
use jardin.Flow.Sound.{IsSound, reported_names}
use jardin.Flow.Drive.{IsFair, drive-IsSound, start-IsSound}
use jardin.Flow.Graph.{Walk, walked, stuck, GraphError, find_cycle}
use jardin.Flow.Chain.{IsCycle}
use jardin.Flow.Graph.{
  validate_graph, check_steps, check_declared, walk_all, walk, visit_all, edges,
}
use jardin.Flow.Validate.{
  validate_steps, validate_step, validate_each, validate_needs, validate_names, check_names,
  check_secrets,
}
use jardin.Flow.Types.{status_rank}
use jardin.Flow.Verdict.{worst, status-worst}
use jardin.Flow.Types.{Output}
use jardin.Flow.Needs.{
  resolve, value, resolve_names, resolve_one, inherited_secrets, parse_reference, cut_last_dot,
  field_of, output_field, stream_value, trim_right, has_nul,
}
use jardin.Flow.Needs.{stdout}
use jardin.Flow.Masking.{IsFrom, resolve-masks}
use jardin.Flow.Sizes.{size, size-resolve}
use jardin.Flow.Promise.{validate_steps-runs}
use jardin.Flow.Topology.{IsClosed, find_cycle_lem}
use jardin.Flow.Finish.{IsAcyclic, drive-reports_all}

abbrev step : String → Step
step name = record {
  name = name;
  run = "true";
  env = [];
  needs = [];
  depends_on = none;
  ephemeral = false;
  secret = [];
  type = "";
  with = [];
  timeout = pos 0;
  allow_failure = false;
}

abbrev env : Surroundings
env = record {
  now = λ s. length s.done;
  describe = λ name e. name;
  quote = λ name. name;
  itoa = λ n. "0";
}

abbrev two : Plan
two = record {
  steps = step "a" ∷ step "b" ∷ [];
  deps = ("a", []) ∷ ("b", ("a" ∷ [])) ∷ [];
  retain = [];
  limit = 4;
}

-- With no `depends_on`, a step waits on the one before it.
two_is_new : new_plan (step "a" ∷ step "b" ∷ []) 0 ≡ two
unfolding new_plan add_names add_need_steps without sort_strings waits_of dependencies
    referenced_steps string_eq nat_eq add_references
two_is_new = refl

abbrev first_of : List String → String
first_of [] = ""
first_of (n ∷ ns) = n

-- The step that started last ends next, well.
arrive : Sched → Outcome
arrive s = record {
  name = first_of s.running;
  result = record {
    name = first_of s.running;
    exit_code = pos 0;
    stderr = "";
    timed_out = false;
    not_started = false;
    skipped = false;
    started_at = none;
  };
  raw = no_output;
}

first_of_lem : (ns : List String) → 0 < length ns → contains ns (first_of ns) ≡ true
first_of_lem [] some_run = absurd (omega arith)
first_of_lem (n ∷ ns) some_run = ground arith

arrive-IsFair : IsFair arrive
unfolding arrive
arrive-IsFair = record { from_running = λ s. first_of_lem s.running; named = λ s. refl }

drive-IsSound_example : IsSound two (drive env two arrive 3 start)
drive-IsSound_example = drive-IsSound env two arrive arrive-IsFair 3 start (start-IsSound two)

swap_two : (q : String) → contains ("b" ∷ "a" ∷ []) q ≡ contains ("a" ∷ "b" ∷ []) q
swap_two q = ground arith

two-IsAcyclic : IsAcyclic two
unfolding deps_at Dict.lookup string_eq nat_eq all_done
two-IsAcyclic = record {
  order = "b" ∷ "a" ∷ [];
  ordered = (refl, (refl, tt));
  covers = λ q h. swap_two q ∙ h;
  only = λ q h. sym (swap_two q) ∙ h;
}

two_distinct : IsNodup (names_of two.steps)
unfolding string_eq nat_eq
two_distinct = (refl, (refl, tt))

drive-reports_all_example :
    ((n : String)
      → contains (reported_names (drive env two arrive 3 start).results) n
        ≡ contains (names_of two.steps) n)
    × IsNodup (reported_names (drive env two arrive 3 start).results)
drive-reports_all_example =
    drive-reports_all env two arrive arrive-IsFair two-IsAcyclic two_distinct (omega arith)

pair_deps : dependencies two.steps ≡ two.deps
unfolding add_names add_need_steps without sort_strings waits_of dependencies string_eq nat_eq
pair_deps = refl

two-IsClosed : IsClosed two.steps
unfolding deps_at Dict.lookup
two-IsClosed n = rw pair_deps (λ q h. ground (arith, h))

find_cycle_lem_example :
    ((w : Walk) × (find_cycle two.steps ≡ walked w) × IsAcyclic (new_plan two.steps 0))
    ⊎ ((e : GraphError) × (find_cycle two.steps ≡ stuck e) × IsCycle (dependencies two.steps) e)
find_cycle_lem_example = find_cycle_lem two.steps 0 two-IsClosed

two_valid : validate_steps (λ text. text) two.steps ≡ none
unfolding validate_steps validate_step validate_each validate_needs validate_names check_names
    check_secrets validate_graph check_steps check_declared find_cycle walk_all walk visit_all
    dependencies waits_of add_names add_need_steps without sort_strings deps_at Dict.lookup
    Dict.keys string_eq nat_eq edges
two_valid = refl

validate_steps-runs_example :
    ((n : String)
      → contains (reported_names (drive env (new_plan two.steps 0) arrive 3 start).results) n
        ≡ contains (names_of two.steps) n)
    × IsNodup (reported_names (drive env (new_plan two.steps 0) arrive 3 start).results)
validate_steps-runs_example =
    validate_steps-runs (λ text. text) two.steps 0 env arrive (tt, (tt, tt)) two_valid arrive-IsFair

status-worst_example :
    status_rank (drive env two arrive 3 start).status
    ≡ worst two (drive env two arrive 3 start).results
status-worst_example = status-worst env two arrive arrive-IsFair 3

-- What an ephemeral step that ended well printed.
abbrev printed : Output
printed = record (no_output) { stdout = "key"; ephemeral = true }

abbrev asking : Step
asking = record (step "b") { needs = ("KEY", "a.stdout") ∷ [] }

asking_run :
    resolve (λ n. "0") asking (("a", printed) ∷ []) ≡ value (("KEY", "key") ∷ [], "key" ∷ [])
unfolding resolve resolve_names resolve_one inherited_secrets parse_reference cut_last_dot field_of
    output_field stream_value trim_right has_nul sort_strings Dict.keys Dict.lookup Dict.insert
    string_eq nat_eq
asking_run = refl

size-resolve_example : size (("KEY", "key") ∷ []) ≤ 262144
size-resolve_example =
    size-resolve (λ n. "0") asking (("a", printed) ∷ []) (("KEY", "key") ∷ [], "key" ∷ [])
      asking_run

asking-IsFrom : IsFrom asking.needs (("a", printed) ∷ []) "KEY" printed
unfolding parse_reference cut_last_dot field_of Dict.lookup string_eq nat_eq
asking-IsFrom = record {
  ref = "a.stdout";
  parsed = record { step = "a"; field = stdout };
  is_need = refl;
  reads = refl;
  ran = refl;
}

abbrev given : Dict String String
given = ("KEY", "key") ∷ []

abbrev secrets : List String
secrets = "key" ∷ []

abbrev key : String
key = "KEY"

key-given : Dict.lookup key given ≡ some "key"
unfolding Dict.lookup string_eq nat_eq
key-given = refl

resolve-masks_example : contains secrets "key" ≡ true
resolve-masks_example =
    resolve-masks (λ n. "0") asking (("a", printed) ∷ []) (("KEY", "key") ∷ [], "key" ∷ []) "KEY"
      "key" printed asking_run key-given asking-IsFrom refl
