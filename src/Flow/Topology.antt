-- ===== src/Flow/Topology.antt =====
-- The depth-first search of a flow's graph: it finds an order of the steps or a cycle among them.
use jardin.Base.{
  ℕ, zero, suc, ◌+◌, ◌≤◌, String, true, false, List, [], ◌∷◌, ◌≡◌, ◌⊎◌, refl, ap, ◌∙◌, arith,
}
use jardin.Base.{
  contains, string_eq, Within, IsNodup, length, length-le-of_Within, Bool-cases, inl, inr,
}
use jardin.Base.Dict.{Dict}
use jardin.Flow.Graph.{
  Walk, Walked, walked, stuck, GraphError, then_walk, visit_all, walk, walk_all, deps_at, pop,
}
use jardin.Flow.Schedule.{all_done}
use jardin.Flow.Complete.{IsOrdered}
use jardin.Flow.Types.{Step}
use jardin.Flow.Schedule.{new_plan}
use jardin.Flow.Finish.{IsAcyclic, length-names}
use jardin.Flow.Graph.{names_of, dependencies, find_cycle, edges}
use jardin.Flow.Chain.{IsPath, IsCycle, cycle_from-IsCycle}

module _ (deps : Dict String (List String)) (names : List String) where
  -- What a search keeps: its path is a chain of different steps, and the settled steps are ordered.
  pub record IsTrail (w : Walk) : Type 0 where
    chained : IsPath deps w.path
    pub once : IsNodup w.path
    pub on : Within w.path names
    pub ordered : IsOrdered deps w.settled
    pub only : Within w.settled names

  -- What a successful visit of the steps `ds` gives.
  pub record Visited (ds : List String) (w v : Walk) : Type 0 where
    same_path : v.path ≡ w.path
    pub ordered : IsOrdered deps v.settled
    pub only : Within v.settled names
    pub keeps : Within w.settled v.settled
    pub settles : all_done ds v.settled ≡ true

  abbrev pub Ends : List String → Walk → Walked → Type 0
  Ends ds w (walked v) = Visited ds w v
  Ends ds w (stuck e) = IsCycle deps e

  -- A visit that does as it should with the fuel given.
  abbrev IsGood : ℕ → (String → Walk → Walked) → Type 0
  IsGood fuel visit =
      (n : String) (w : Walk)
      → IsTrail (record w { path = n ∷ w.path })
      → IsOrdered deps w.settled
      → length names ≤ length w.path + fuel
      → Ends (n ∷ []) w (visit n w)

  Ends-cons :
      (d : String) (ds : List String) (w v : Walk) (r : Walked)
      → Visited (d ∷ []) w v
      → Ends ds v r
      → Ends (d ∷ ds) w r
  unfolding all_done
  Ends-cons d ds w v (stuck e) one rest = rest
  Ends-cons d ds w v (walked u) one rest = record {
    same_path = rest.same_path ∙ one.same_path;
    ordered = rest.ordered;
    only = rest.only;
    keeps = λ q h. rest.keeps q (one.keeps q h);
    settles = ground (arith, rest.keeps d, one.settles, rest.settles);
  }

  after_one : (d : String) (w v : Walk) → IsTrail w → Visited (d ∷ []) w v → IsTrail v
  after_one d w v t one = record {
    chained = rw (one.same_path) t.chained;
    once = rw (one.same_path) t.once;
    on = rw (one.same_path) t.on;
    ordered = one.ordered;
    only = one.only;
  }

  already : (d : String) (w : Walk) → IsTrail w → contains w.settled d ≡ true → Visited (d ∷ []) w w
  unfolding all_done
  already d w t old = record {
    same_path = refl;
    ordered = t.ordered;
    only = t.only;
    keeps = λ q h. h;
    settles = ground (arith, old);
  }

  IsPath-cons :
      (d : String) (path : List String) (p : String) (ps : List String)
      → path ≡ p ∷ ps
      → contains (deps_at deps p) d ≡ true
      → IsPath deps path
      → IsPath deps (d ∷ path)
  IsPath-cons d [] p ps e edge c = tt
  IsPath-cons d (m ∷ ms) p ps e edge c = let same : m ≡ p = cc e in (rw same edge, c)

  -- One more step on the path.
  longer :
      (d : String) (w : Walk) (p : String) (ps : List String)
      → w.path ≡ p ∷ ps
      → contains (deps_at deps p) d ≡ true
      → contains names d ≡ true
      → contains w.path d ≡ false
      → IsTrail w
      → IsTrail (record w { path = d ∷ w.path })
  longer d w p ps e edge here off t = record {
    chained = IsPath-cons d w.path p ps e edge t.chained;
    once = (off, t.once);
    on = λ q h. ground (arith, here, t.on q);
    ordered = t.ordered;
    only = t.only;
  }

  -- What follows a visit.
  onward :
      (d : String) (ds : List String) (w : Walk) (r : Walked)
      → Ends (d ∷ []) w r
      → (k : Walk → Walked) → ((v : Walk) → Visited (d ∷ []) w v → Ends (d ∷ ds) w (k v))
      → Ends (d ∷ ds) w (then_walk r k)
  onward d ds w (walked v) one k next = next v one
  onward d ds w (stuck e) one k next = one

  module _ (fuel : ℕ) (visit : String → Walk → Walked) (good : IsGood fuel visit) where
    visit_all-Ends :
        (ds : List String) (w : Walk) (p : String) (ps : List String)
        → w.path ≡ p ∷ ps
        → Within ds (deps_at deps p)
        → Within ds names
        → IsTrail w
        → length names ≤ length w.path + fuel
        → Ends ds w (visit_all visit ds w)
    unfolding visit_all all_done
    visit_all-Ends [] w p ps e within known t enough = record {
      same_path = refl;
      ordered = t.ordered;
      only = t.only;
      keeps = λ q h. h;
      settles = refl;
    }
    visit_all-Ends (d ∷ ds) w p ps e within known t enough =
        let edge : contains (deps_at deps p) d ≡ true = within d (ground arith) in
        let here : contains names d ≡ true = known d (ground arith) in
        let rest = λ (v : Walk). λ (one : Visited (d ∷ []) w v).
          Ends-cons d ds w v (visit_all visit ds v) one (
            visit_all-Ends ds v p ps (one.same_path ∙ e) (λ q h. within q (ground arith))
              (λ q h. known q (ground arith)) (after_one d w v t one)
              (rw (one.same_path) enough)) in
        elim (Bool-cases (contains w.path d)) [
          | inl loop ↦
              rw (loop, visit_all) (cycle_from-IsCycle deps w.path ps p d e t.chained loop edge)
          | inr off ↦ elim (Bool-cases (contains w.settled d)) [
            | inl old ↦ rw (off, old, visit_all) (rest w (already d w t old))
            | inr new ↦
                rw (off, new, visit_all)
                  (onward d ds w (visit d w)
                    (good d w (longer d w p ps e edge here off t) t.ordered enough)
                    (visit_all visit ds) rest)
          ]
        ]

  -- Once its dependencies are settled, the step is.
  settled :
      (n : String) (w : Walk)
      → contains names n ≡ true
      → (r : Walked) → Ends (deps_at deps n) (record w { path = n ∷ w.path }) r
      → Ends
          (n ∷ [])
          w
          (then_walk r (λ v. walked (record { path = pop v.path; settled = n ∷ v.settled })))
  unfolding all_done
  settled n w here (stuck e) g = g
  settled n w here (walked v) g = record {
    same_path = ap pop g.same_path;
    ordered = (g.settles, g.ordered);
    only = λ q h. ground (arith, here, g.only q);
    keeps = λ q h. ground (arith, g.keeps q);
    settles = ground arith;
  }

  start-IsTrail :
      (d : String) (w : Walk)
      → w.path ≡ []
      → contains names d ≡ true
      → IsTrail w
      → IsTrail (record w { path = d ∷ w.path })
  start-IsTrail d w e here t = record {
    chained = rw e tt;
    once = rw e (refl, tt);
    on = rw e (λ q h. ground (arith, here));
    ordered = t.ordered;
    only = t.only;
  }

  module _ (closed : (n : String) → Within (deps_at deps n) names) where
    walk-Ends : (fuel : ℕ) → IsGood fuel (walk deps fuel)
    unfolding walk
    walk-Ends zero n w t o enough =
        absurd (omega (arith, enough, length-le-of_Within (n ∷ w.path) names t.once t.on))
    walk-Ends (suc fuel) n w t o enough =
        let inside : Walk = record w { path = n ∷ w.path } in
        settled n w (t.on n (ground arith)) (visit_all (walk deps fuel) (deps_at deps n) inside) (
          visit_all-Ends fuel (walk deps fuel) (walk-Ends fuel) (deps_at deps n) inside n w.path
            refl (λ q h. h) (closed n) t (omega (arith, enough)))

    walk_all-Ends :
        (fuel : ℕ) (ns : List String) (w : Walk)
        → w.path ≡ []
        → IsTrail w
        → Within ns names
        → length names ≤ fuel
        → Ends ns w (walk_all deps fuel ns w)
    unfolding walk_all all_done
    walk_all-Ends fuel [] w e t known enough = record {
      same_path = refl;
      ordered = t.ordered;
      only = t.only;
      keeps = λ q h. h;
      settles = refl;
    }
    walk_all-Ends fuel (d ∷ ds) w e t known enough =
        let off : contains w.path d ≡ false = rw e refl in
        let here : contains names d ≡ true = known d (ground arith) in
        let rest = λ (v : Walk). λ (one : Visited (d ∷ []) w v).
          Ends-cons d ds w v (walk_all deps fuel ds v) one (
            walk_all-Ends fuel ds v (one.same_path ∙ e) (after_one d w v t one)
              (λ q h. known q (ground arith)) enough) in
        elim (Bool-cases (contains w.settled d)) [
          | inl old ↦ rw (off, old, walk_all) (rest w (already d w t old))
          | inr new ↦
              rw (off, new, walk_all)
                (onward d ds w (walk deps fuel d w)
                  (walk-Ends fuel d w (start-IsTrail d w e here t) t.ordered
                    (omega (arith, enough)))
                  (walk_all deps fuel ds) rest)
        ]

-- Each dependency of a step is a step of the flow.
abbrev pub IsClosed : List Step → Type 0
IsClosed steps = (n : String) → Within (deps_at (dependencies steps) n) (names_of steps)

all_done-covers : (ns done : List String) → all_done ns done ≡ true → Within ns done
unfolding all_done
all_done-covers [] done h q k = absurd (cc)
all_done-covers (n ∷ ns) done h q k =
    ground (arith, all_done-covers ns done (ground (arith, h)) q, k)

decided :
    (steps : List Step) (limit : ℕ) (r : Walked)
    → Ends
        (dependencies steps)
        (names_of steps)
        (names_of steps)
        (record { path = []; settled = [] })
        r
    → ((w : Walk) × (r ≡ walked w) × IsAcyclic (new_plan steps limit))
      ⊎ ((e : GraphError) × (r ≡ stuck e) × IsCycle (dependencies steps) e)
unfolding new_plan dependencies
decided steps limit (stuck e) g = inr (e, refl, g)
decided steps limit (walked w) g = inl (
  w,
  refl,
  record {
    order = w.settled;
    ordered = g.ordered;
    covers = all_done-covers (names_of steps) w.settled g.settles;
    only = g.only;
  },
)

-- Of a flow whose dependencies are all steps of it, the search for a cycle either succeeds, and then
-- the flow is acyclic: its steps stand in an order in which each depends only on later ones; or it
-- reports a cycle that is there: a chain of dependencies that ends where it starts. Its fuel is enough.
pub find_cycle_lem :
    (steps : List Step) (limit : ℕ)
    → IsClosed steps
    → ((w : Walk) × (find_cycle steps ≡ walked w) × IsAcyclic (new_plan steps limit))
      ⊎ ((e : GraphError) × (find_cycle steps ≡ stuck e) × IsCycle (dependencies steps) e)
unfolding find_cycle
find_cycle_lem steps limit closed =
    let deps = dependencies steps in
    decided steps limit (find_cycle steps) (
      walk_all-Ends deps (names_of steps) closed (suc (length steps + edges deps)) (names_of steps)
        (record { path = []; settled = [] }) refl
        (record {
          chained = tt;
          once = tt;
          on = λ q h. absurd (cc);
          ordered = tt;
          only = λ q h. absurd (cc);
        })
        (λ q h. h) (omega (arith, length-names steps)))
