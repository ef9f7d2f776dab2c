-- ===== src/Sync/Deleted.antt =====
-- What a whole sync deletes from the trees: the files of its plan, and no other shared file.
use jardin.Base.{
  String, Bool, true, false, not, ◌&&◌, ◌||◌, List, [], ◌∷◌, ◌≡◌, sym, ◌∙◌, arith, contains, All,
}
use jardin.Base.{string_eq, ◌==◌, Bool-cases, inl, inr, contains-append, IsNodup}
use jardin.Base.Dict.{Dict, NodupKeys}
use jardin.Sync.Types.{Host, State, SyncResult, FileEntry, BulkDelete, empty_result, ok}
use jardin.Sync.Conflict.{conflict_backups, prune_single_writer_conflicts}
use jardin.Sync.Guard.{known, sync_plan, sync-plan}
use jardin.Sync.Manifest.{entry_at, save_manifest}
use jardin.Sync.Reconcile.{
  deletes_local, deletes_remote, plan_path, plan_all, planned_deletes, reconcile_at, reconciles,
  reconcile_path, reconcile_all, settle, sync,
}
use jardin.Sync.Sums.{IsShared, disk_sum, server_sum}
use jardin.Sync.Outcome.{is_present, stays, reconcile_path-present}
use jardin.Sync.Whole.{at, run, Ready, still-Ready, view-run}
use jardin.Sync.Synced.{
  visited, view-prune_pages, Ready-start, same_trees, sync-settle, local_map, remote_map, ready,
  entry_at_missing, sync-IsSynced,
}
use jardin.Sync.Paths.{union_paths-IsNodup, union_paths-misses, index-disk_sum, index-server_sum}

-- A plan lists the path, for either side.
abbrev pub is_planned : BulkDelete → String → Bool
is_planned plan q = contains plan.local q || contains plan.remote q

module _ (h : Host) (local remote : Dict String FileEntry) (base : Dict String String) where
  abbrev goes : String → Bool
  goes q =
      let r = at h local remote base q in
      deletes_local r.local r.remote r.base || deletes_remote r.local r.remote r.base

  is_planned-plan_path :
      (p : String) (plan : BulkDelete) (q : String)
      → is_planned (plan_path (at h local remote base p) plan) q
        ≡ (is_planned plan q || (q == p && goes p))
  unfolding plan_path reconcile_at
  is_planned-plan_path p plan q =
      ground (arith, contains-append plan.local (p ∷ []) q, contains-append plan.remote (p ∷ []) q)

  is_planned-plan_all :
      (ps : List String) (plan : BulkDelete) (q : String)
      → is_planned (plan_all (reconciles ps local remote base) plan) q
        ≡ (is_planned plan q || (contains ps q && goes q))
  unfolding plan_all reconciles
  is_planned-plan_all [] plan q = ground arith
  is_planned-plan_all (p ∷ ps) plan q =
      let r = at h local remote base p in
      ground (arith, is_planned-plan_path p plan q, is_planned-plan_all ps (plan_path r plan) q)

  run-present :
      (ps : List String) (s : State) (q : String)
      → Ready h local remote base ps s
      → IsNodup ps
      → IsShared h q
      → contains ps q ≡ true
      → (run h local remote base ps s).0 ≡ ok tt
      → is_present (disk_sum h q (run h local remote base ps s).1.disk)
        ≡ stays (at h local remote base q)
  unfolding reconcile_all reconciles reconcile_at
  run-present [] s q a u shown here e = absurd (cc)
  run-present (p ∷ ps) s q ((shared, seen), a) u shown here e =
      let s' : State = (reconcile_path h (at h local remote base p) s).1 in
      let rest : Ready h local remote base ps s' =
        still-Ready h local remote base p ps s shared u.0 a in
      elim (string_eq.dec q p) [
        | yes same ↦ rw same (
            ground (
              arith,
              reconcile_path-present h (at h local remote base p) shared s seen,
              view-run h local remote base ps s' p rest u.1 shared,
            ))
        | no differ ↦ ground (arith, run-present ps s' q rest u.1 shown)
      ]

  settle-present :
      (ps : List String) (s t : State) (res : SyncResult) (q : String)
      → Ready h local remote base ps (record s { next = base; res = empty_result })
      → IsNodup ps
      → IsShared h q
      → contains ps q ≡ true
      → settle h base (reconciles ps local remote base) s ≡ (ok res, t)
      → is_present (disk_sum h q t.disk) ≡ stays (at h local remote base q)
  unfolding settle prune_single_writer_conflicts save_manifest
  settle-present ps s t res q a u shown here e =
      let started : State = record s { next = base; res = empty_result } in
      let settled : State = (reconcile_all h (reconciles ps local remote base) started).1 in
      ground (
        arith,
        run-present ps started q a u shown here,
        (view-prune_pages h q shown.local_lists (conflict_backups settled.disk)).at settled,
      )

  settle-away :
      (ps : List String) (s t : State) (res : SyncResult) (q : String)
      → Ready h local remote base ps (record s { next = base; res = empty_result })
      → IsNodup ps
      → IsShared h q
      → contains ps q ≡ false
      → settle h base (reconciles ps local remote base) s ≡ (ok res, t)
      → disk_sum h q t.disk ≡ disk_sum h q s.disk
  unfolding settle prune_single_writer_conflicts save_manifest
  settle-away ps s t res q a u shown away e =
      let started : State = record s { next = base; res = empty_result } in
      let settled : State = (reconcile_all h (reconciles ps local remote base) started).1 in
      ground (
        arith,
        view-run h local remote base ps started q a u shown away,
        (view-prune_pages h q shown.local_lists (conflict_backups settled.disk)).at settled,
      )

module _ (h : Host) (allow : Bool) (s t : State) (res : SyncResult) where
  visited-planned :
      (q : String)
      → is_planned (sync_plan h s) q ≡ (
          contains (visited h s) q
          && goes h (local_map h allow s t res) (remote_map h allow s t res) (known s.manifest) q)
  unfolding sync_plan planned_deletes
  visited-planned q =
      is_planned-plan_all h (local_map h allow s t res) (remote_map h allow s t res)
        (known s.manifest) (visited h s) _ q
      ∙ ground arith

  -- Let no path stand twice in either tree, and let every path that a sync visits be shared (both
  -- listings show it and the server takes it for itself). A sync that then succeeds reports as deleted, on
  -- either side, the files that the plan lists, in its order. Of the shared paths, each that the plan lists for
  -- either side is gone from the disk and from the server, and each other path that the disk or the server had
  -- (with a checksum that is not empty) is on both at the end, with the same checksum.
  pub sync-deletes :
      NodupKeys s.disk
      → NodupKeys s.server
      → All (IsShared h) (visited h s)
      → sync h allow s ≡ (ok res, t)
      → (q : String) → IsShared h q
      → (res.deleted_local ≡ (sync_plan h s).local)
        × (res.deleted_remote ≡ (sync_plan h s).remote)
        × (is_present (disk_sum h q t.disk) ≡ (
            (is_present (disk_sum h q s.disk) || is_present (server_sum h q s.server))
            && not (is_planned (sync_plan h s) q)))
        × (server_sum h q t.server ≡ disk_sum h q t.disk)
  unfolding reconcile_at
  sync-deletes ud us shared e q shown =
      let local = local_map h allow s t res in
      let remote = remote_map h allow s t res in
      let base : Dict String String = known s.manifest in
      let before = ready h allow s t res in
      let start : State = record (before) { next = base; res = empty_result } in
      let trees = same_trees h allow s t res in
      let hd : (p : String) → (entry_at local p).checksum ≡ disk_sum h p s.disk =
        λ p. index-disk_sum h p s.disk ud in
      let hr : (p : String) → (entry_at remote p).checksum ≡ server_sum h p s.server =
        λ p. index-server_sum h p s.server us in
      let a : Ready h local remote base (visited h s) start =
        Ready-start h local remote base (visited h s) start (λ p. rw trees.0 (hd p))
          (λ p. rw trees.1 (hr p)) shared in
      let u : IsNodup (visited h s) = union_paths-IsNodup local remote base in
      let settled = sync-settle h allow s t res e in
      let reports = sync-plan h allow s t res e in
      (
        reports.0,
        reports.1,
        elim (Bool-cases (contains (visited h s) q)) [
          | inl here ↦ ground (
            arith,
            here,
            hd q,
            hr q,
            visited-planned q,
            settle-present h local remote base (visited h s) before t res q a u shown here settled,
          )
          | inr away ↦
              let m = union_paths-misses local remote base q away in
              ground (
                arith,
                away,
                hd q,
                hr q,
                trees.0,
                visited-planned q,
                entry_at_missing local q m.0,
                entry_at_missing remote q m.1,
                settle-away h local remote base (visited h s) before t res q a u shown away settled,
              )
        ],
        sym (sync-IsSynced h allow s t res ud us shared e q shown).alike,
      )
