-- ===== src/Flow/Graph.antt =====
-- internal/flow/graph.go: which steps a step waits on, and the search for a cycle.
use jardin.Base.{ℕ, zero, suc, ◌+◌, String, not, ◌||◌, Option, none, some, List, [], ◌∷◌, ◌++◌, map}
use jardin.Base.{◌==◌, string_eq, contains, length, if◌then◌else◌}
use jardin.Base.Dict
use jardin.Base.Dict.{Dict}
use jardin.Base.Text.{sort_strings}
use jardin.Flow.Types.{Step}
use jardin.Flow.Needs.{parse_reference}

-- The keys of the map `waits`: a name is there once.
abbrev pub add_name : String → List String → List String
add_name name waits = if contains waits name then waits else name ∷ waits

unfoldable pub add_names : List String → List String → List String
add_names [] waits = waits
add_names (n ∷ ns) waits = add_names ns (add_name n waits)

-- A reference that does not parse adds nothing.
unfoldable pub add_need_steps : Dict String String → List String → List String
add_need_steps [] waits = waits
add_need_steps ((_, ref) ∷ needs) waits =
    add_need_steps needs (elim (parse_reference ref) as (λ x. List String) [
      | none ↦ waits
      | some parsed ↦ add_name parsed.step waits
    ])

unfoldable pub without : String → List String → List String
without name [] = []
without name (n ∷ ns) = let rest = without name ns in if n == name then rest else n ∷ rest

-- What a step waits on, given the step before it in the file.
abbrev pub declared_waits : Option (List String) → Option String → List String
declared_waits (some names) previous = add_names names []
declared_waits none none = []
declared_waits none (some before) = before ∷ []

unfoldable pub waits_of : Option String → Step → List String
unfolding add_names add_need_steps without sort_strings
waits_of previous step =
    sort_strings
      (without step.name (add_need_steps step.needs (declared_waits step.depends_on previous)))

unfoldable pub dependencies_from : Option String → List Step → Dict String (List String)
unfolding waits_of
dependencies_from previous [] = []
dependencies_from previous (s ∷ steps) =
    (s.name, waits_of previous s) ∷ dependencies_from (some s.name) steps

-- `dependencies`: the map from each step's name to the sorted names that it waits on.
unfoldable pub dependencies : List Step → Dict String (List String)
unfolding dependencies_from
dependencies steps = dependencies_from none steps

abbrev pub names_or : Option (List String) → List String
names_or none = []
names_or (some names) = names

-- `deps[name]`, which is nil for a missing key.
unfoldable pub deps_at : Dict String (List String) → String → List String
deps_at deps name = names_or (Dict.lookup name deps)

-- What validateGraph and findCycle report.
pub data GraphError : Type 0 where
  on_itself : String → GraphError
  on_unknown : String → String → GraphError
  cycle : List String → GraphError
  out_of_fuel : GraphError

-- The state of findCycle: `path` holds the steps that are onStack, innermost first, and `settled`
-- those that are settled, the latest first. All others are unvisited.
pub record Walk : Type 0 where
  pub path : List String
  pub settled : List String

pub data Walked : Type 0 where
  walked : Walk → Walked
  stuck : GraphError → Walked

-- cycleFrom, before it is closed: the path from `start` on, outermost first.
unfoldable pub cycle_from : List String → String → List String
cycle_from [] start = []
cycle_from (n ∷ ns) start = if n == start then start ∷ [] else cycle_from ns start ++ (n ∷ [])

abbrev pub then_walk : Walked → (Walk → Walked) → Walked
then_walk (walked w) k = k w
then_walk (stuck e) k = stuck e

-- The loop over a step's dependencies, with the recursive call of `walk` as an argument.
unfoldable pub visit_all : (String → Walk → Walked) → List String → Walk → Walked
unfolding cycle_from
visit_all visit [] w = walked w
visit_all visit (next ∷ rest) w =
    if contains w.path next
    then stuck (cycle (cycle_from w.path next ++ (next ∷ [])))
    else if contains w.settled next
    then visit_all visit rest w
    else then_walk (visit next w) (visit_all visit rest)

abbrev pub pop : List String → List String
pop [] = []
pop (n ∷ ns) = ns

module _ (deps : Dict String (List String)) where
  unfoldable pub walk : ℕ → String → Walk → Walked
  unfolding visit_all deps_at
  walk zero name w = stuck out_of_fuel
  walk (suc fuel) name w =
      then_walk (visit_all (walk fuel) (deps_at deps name) (record w { path = name ∷ w.path }))
        (λ v. walked (record { path = pop v.path; settled = name ∷ v.settled }))

  -- The last loop of findCycle, over every step of the flow.
  unfoldable pub walk_all : ℕ → List String → Walk → Walked
  unfolding walk
  walk_all fuel [] w = walked w
  walk_all fuel (name ∷ names) w =
      if contains w.path name || contains w.settled name
      then walk_all fuel names w
      else then_walk (walk fuel name w) (walk_all fuel names)

abbrev pub names_of : List Step → List String
names_of = map (λ s. s.name)

-- Each nested call of `walk` has one more step on its path, and every step on it is a key of
-- `deps` or the end of an edge of it, so the fuel is more than the number of those.
unfoldable pub edges : Dict String (List String) → ℕ
edges [] = 0
edges ((_, ns) ∷ deps) = length ns + edges deps

unfoldable pub find_cycle : List Step → Walked
unfolding dependencies walk_all edges
find_cycle steps =
    let deps = dependencies steps in
    walk_all deps (suc (length steps + edges deps)) (names_of steps)
      (record { path = []; settled = [] })

-- The check of one step's declared dependencies.
unfoldable pub check_declared : String → List String → List String → Option GraphError
check_declared name known [] = none
check_declared name known (d ∷ ds) =
    let rest = check_declared name known ds in
    if d == name
    then some (on_itself name)
    else if not (contains known d)
    then some (on_unknown name d)
    else rest

abbrev pub declared : Option (List String) → List String
declared none = []
declared (some names) = names

unfoldable pub check_steps : List String → List Step → Option GraphError
unfolding check_declared
check_steps known [] = none
check_steps known (s ∷ steps) = elim (check_declared s.name known (declared s.depends_on)) [
  | some e ↦ some e
  | none ↦ check_steps known steps
]

-- validateGraph: none is acceptance.
unfoldable pub validate_graph : List Step → Option GraphError
unfolding check_steps find_cycle
validate_graph steps = elim (check_steps (names_of steps) steps) [
  | some e ↦ some e
  | none ↦ elim (find_cycle steps) [ walked w ↦ none | stuck e ↦ some e ]
]
