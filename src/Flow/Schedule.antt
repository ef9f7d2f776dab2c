-- ===== src/Flow/Schedule.antt =====
-- internal/flow/schedule.go: the scheduler of a run.
use jardin.Base.{
  ℕ, zero, suc, ◌+◌, ◌-◌, String, ◌<>◌, Bool, true, false, not, ◌&&◌, ◌||◌, Option, none, some,
  List, [], ◌∷◌, ◌++◌,
}
use jardin.Base.{◌==◌, string_eq, contains, remove, length, ltb, leb, if◌then◌else◌}
use jardin.Base.Dict
use jardin.Base.Dict.{Dict}
use jardin.Base.Int.{ℤ, pos, negsuc, is_zero}
use jardin.Flow.Types.{
  Step, Output, StepResult, Status, ok, failed, unresolved, timeout, status_rank, default_parallel,
}
use jardin.Flow.Needs.{value, problem, Problem, resolve, referenced_steps}
use jardin.Flow.Graph.{dependencies, deps_at}

pub record Outcome : Type 0 where
  pub name : String
  pub result : StepResult
  pub raw : Output

-- The part of `scheduler` that newScheduler fixes.
pub record Plan : Type 0 where
  pub steps : List Step
  pub deps : Dict String (List String)
  pub retain : List String
  pub limit : ℕ

unfoldable pub new_plan : List Step → ℕ → Plan
unfolding dependencies referenced_steps
new_plan steps limit = record {
  steps = steps;
  deps = dependencies steps;
  retain = referenced_steps steps;
  limit = if leb limit 0 then default_parallel else limit;
}

-- The part that a run changes. A map to bool is the list of the keys that it holds as true.
-- `running` stands for the goroutines that have not sent their outcome yet, and `results` and
-- `status` are the run's.
pub record Sched : Type 0 where
  pub outputs : Dict String Output
  pub done : List String
  pub blocked : List String
  pub started : List String
  pub inflight : ℕ
  pub running : List String
  pub stopped : Bool
  pub results : List StepResult
  pub status : Status

abbrev pub start : Sched
start = record {
  outputs = [];
  done = [];
  blocked = [];
  started = [];
  inflight = 0;
  running = [];
  stopped = false;
  results = [];
  status = ok;
}

unfoldable pub worsen : Status → Sched → Sched
unfolding status_rank
worsen status s =
    if ltb (status_rank s.status) (status_rank status) then record s { status = status } else s

abbrev pub add : String → List String → List String
add name names = if contains names name then names else name ∷ names

-- The first step of that name. (The source gives an empty step where there is none.)
unfoldable pub allows_failure : List Step → String → Bool
allows_failure [] name = false
allows_failure (s ∷ steps) name =
    if s.name == name then s.allow_failure else allows_failure steps name

-- `judge`. A timeout also cancels the context of the steps in flight, which shows in their outcomes.
unfoldable pub judge : Plan → Outcome → Sched → Sched
unfolding worsen
judge plan out s =
    let res = out.result in
    if res.timed_out
    then record (worsen timeout s) { stopped = true }
    else if res.not_started && not res.skipped
    then worsen unresolved (record s { blocked = add out.name s.blocked })
    else if res.skipped
    then record s { blocked = add out.name s.blocked }
    else if not (is_zero res.exit_code) && not (allows_failure plan.steps out.name)
    then worsen failed (record s { blocked = add out.name s.blocked })
    else s

abbrev pub stamped : ℕ → Option ℕ → Option ℕ
stamped now none = some now
stamped now (some t) = some t

-- `record`, at the instant `now`.
unfoldable pub file_outcome : Plan → ℕ → Outcome → Sched → Sched
unfolding judge
file_outcome plan now out s = judge plan out (record s {
  started = add out.name s.started;
  done = add out.name s.done;
  outputs =
      if contains plan.retain out.name then Dict.insert out.name out.raw s.outputs else s.outputs;
  results =
      s.results ++ (record (out.result) { started_at = stamped now out.result.started_at } ∷ []);
})

abbrev pub no_output : Output
no_output = record {
  stdout = "";
  stderr = "";
  exit_code = pos 0;
  stdout_cut = false;
  stderr_cut = false;
  ephemeral = false;
  secrets = [];
}

abbrev pub never_ran : String → String → Bool → Outcome
never_ran name reason skip = record {
  name = name;
  result = record {
    name = name;
    exit_code = negsuc 0;
    stderr = reason;
    timed_out = false;
    not_started = true;
    skipped = skip;
    started_at = none;
  };
  raw = no_output;
}

unfoldable pub all_done : List String → List String → Bool
all_done [] done = true
all_done (n ∷ ns) done = contains done n && all_done ns done

unfoldable pub ready : Plan → Sched → Step → Bool
ready plan s step = all_done (deps_at plan.deps step.name) s.done

-- The first dependency that did not succeed.
unfoldable pub first_blocked : List String → List String → Option String
first_blocked [] blocked = none
first_blocked (n ∷ ns) blocked =
    let rest = first_blocked ns blocked in if contains blocked n then some n else rest

-- What surrounds a run: the clock at each record, the message of an error, the quoted form of a
-- name (`%q`), and strconv.Itoa.
pub record Surroundings : Type 0 where
  pub now : Sched → ℕ
  pub describe : String → Problem → String
  pub quote : String → String
  pub itoa : ℤ → String

-- What one turn of the loop in `sweep` does to a step.
pub data Turn : Type 0 where
  pass : Turn
  skips : String → Turn
  halt : Turn
  launches : Turn

module _ (env : Surroundings) (plan : Plan) where
  unfoldable pub skip : String → String → Sched → Sched
  unfolding file_outcome
  skip name reason s = file_outcome plan (env.now s) (never_ran name reason true) s

  -- A step whose values cannot be resolved is recorded; any other starts.
  unfoldable pub launch : Step → Sched → Sched
  unfolding file_outcome
  launch step s = elim (resolve env.itoa step s.outputs) [
    | problem e ↦
        file_outcome plan (env.now s) (never_ran step.name (env.describe step.name e) false) s
    | value v ↦ record s {
      started = add step.name s.started;
      inflight = s.inflight + 1;
      running = step.name ∷ s.running;
    }
  ]

  unfoldable pub turn : Step → Sched → Turn
  unfolding ready first_blocked deps_at
  turn step s =
      if contains s.started step.name || contains s.done step.name || not (ready plan s step)
      then pass
      else elim (first_blocked (deps_at plan.deps step.name) s.blocked) [
        | some name ↦ skips ("it depends on " <> env.quote name <> ", which did not succeed")
        | none ↦
            if s.stopped
            then skips "the run stopped before this step could start"
            else if leb plan.limit s.inflight
            then halt
            else launches
      ]

  -- `sweep`: the state after it, and whether it changed anything. A `halt` breaks the loop.
  unfoldable pub sweep : List Step → Bool → Sched → Sched × Bool
  sweep [] changed s = (s, changed)
  sweep (step ∷ steps) changed s = elim (turn step s) [
    | pass ↦ sweep steps changed s
    | skips reason ↦ sweep steps true (skip step.name reason s)
    | halt ↦ (s, changed)
    | launches ↦ sweep steps true (launch step s)
  ]

  -- `collect`, with the outcome that comes through the channel: its goroutine has ended.
  unfoldable pub collect : Outcome → Sched → Sched
  unfolding file_outcome
  collect out s =
      file_outcome plan (env.now s) out
        (record s { inflight = s.inflight - 1; running = remove out.name s.running })

  -- `drive`, on fuel. `arrive` is the environment: which of the steps in flight ends next, and how.
  unfoldable pub drive : (Sched → Outcome) → ℕ → Sched → Sched
  unfolding sweep collect
  drive arrive zero s = s
  drive arrive (suc fuel) s =
      let (s', progressed) = sweep plan.steps false s in
      let collected = drive arrive fuel (collect (arrive s') s') in
      let swept = drive arrive fuel s' in
      if leb (length plan.steps) (length s.done)
      then s
      else if ltb 0 s'.inflight
      then collected
      else if progressed
      then swept
      else s'

-- sortSteps: a stable sort by the start. A step with no start precedes all.
abbrev starts_before : Option ℕ → Option ℕ → Bool
starts_before none none = false
starts_before none (some t) = true
starts_before (some t) none = false
starts_before (some t) (some u) = ltb t u

unfoldable pub insert_result : StepResult → List StepResult → List StepResult
insert_result r [] = r ∷ []
insert_result r (q ∷ qs) =
    if starts_before q.started_at r.started_at then q ∷ insert_result r qs else r ∷ q ∷ qs

unfoldable pub sort_steps : List StepResult → List StepResult
unfolding insert_result
sort_steps [] = []
sort_steps (r ∷ rs) = insert_result r (sort_steps rs)
