-- ===== src/Sync/Whole.antt =====
-- The loop of Sync: every path that it visits is settled, and no other shared path moves.
use jardin.Base.{String, true, false, List, [], ◌∷◌, ◌≡◌, ◌≢◌, refl, arith, contains, All}
use jardin.Base.{string_eq}
use jardin.Base.Dict.{Dict}
use jardin.Sync.Types.{Host, State, FileEntry, Result, ok}
use jardin.Sync.Conflict.{Reconcile}
use jardin.Sync.Reconcile.{reconcile_at, reconciles, reconcile_path, reconcile_all}
use jardin.Sync.Sums.{IsShared}
use jardin.Sync.Converge.{IsSeen, IsSettled, reconcile_path-IsSettled}
use jardin.Sync.Elsewhere.{view, view-reconcile_path}
use jardin.Base.{IsNodup}

module _ (h : Host) where
  view-IsSeen :
      (r : Reconcile) (s t : State)
      → view h r.path t ≡ view h r.path s
      → IsSeen h r s
      → IsSeen h r t
  view-IsSeen r s t e seen = ground arith

  view-IsSettled :
      (q : String) (s t : State) → view h q t ≡ view h q s → IsSettled h q s → IsSettled h q t
  view-IsSettled q s t e settled = ground arith

module _ (h : Host) (local remote : Dict String FileEntry) (base : Dict String String) where
  abbrev pub at : String → Reconcile
  at = reconcile_at local remote base

  abbrev pub run : List String → State → Result (Unit {0}) × State
  run ps = reconcile_all h (reconciles ps local remote base)

  abbrev pub Ready : List String → State → Type 0
  Ready ps s = All (λ q. IsShared h q × IsSeen h (at q) s) ps

  -- What was seen of the paths ahead is still so after another path's reconcile.
  pub still-Ready :
      (p : String) (ps : List String) (s : State)
      → IsShared h p
      → contains ps p ≡ false
      → Ready ps s
      → Ready ps (reconcile_path h (at p) s).1
  unfolding reconcile_at
  still-Ready p [] s shared fresh a = tt
  still-Ready p (q ∷ ps) s shared fresh ((shown, seen), a) =
      let ne : q ≢ p = ground arith in
      let same = (view-reconcile_path h q shown.local_lists (at p) ne shared).at s in
      (
        (shown, view-IsSeen h (at q) s (reconcile_path h (at p) s).1 same seen),
        still-Ready p ps s shared (ground arith) a,
      )

  pub view-run :
      (ps : List String) (s : State) (q : String)
      → Ready ps s
      → IsNodup ps
      → IsShared h q
      → contains ps q ≡ false
      → view h q (run ps s).1 ≡ view h q s
  unfolding reconcile_all reconciles reconcile_at
  view-run [] s q a u shown fresh = refl
  view-run (p ∷ ps) s q ((shared, seen), a) u shown fresh =
      let ne : q ≢ p = ground arith in
      let s' : State = (reconcile_path h (at p) s).1 in
      ground (
        arith,
        (view-reconcile_path h q shown.local_lists (at p) ne shared).at s,
        view-run ps s' q (still-Ready p ps s shared u.0 a) u.1 shown,
      )

  pub run-IsSettled :
      (ps : List String) (s : State) (q : String)
      → Ready ps s
      → IsNodup ps
      → IsShared h q
      → contains ps q ≡ true
      → (run ps s).0 ≡ ok tt
      → IsSettled h q (run ps s).1
  unfolding reconcile_all reconciles reconcile_at
  run-IsSettled [] s q a u shown here e = absurd (cc)
  run-IsSettled (p ∷ ps) s q ((shared, seen), a) u shown here e =
      let s' : State = (reconcile_path h (at p) s).1 in
      let ready : Ready ps s' = still-Ready p ps s shared u.0 a in
      elim (string_eq.dec q p) [
        | yes same ↦ rw same (
            ground (
              arith,
              reconcile_path-IsSettled h (at p) shared s seen,
              view-run ps s' p ready u.1 shared,
            ))
        | no differ ↦ ground (arith, run-IsSettled ps s' q ready u.1 shown)
      ]
