-- ===== src/Sync/Guard.antt =====
-- The guard on bulk deletion of Sync: what is planned is what is reported, and a refusal does nothing.
use jardin.Base.{◌≤◌, ◌<◌, ◌+◌, String, Bool, false, List, [], ◌∷◌, ◌≡◌, ◌≢◌, arith, length}
use jardin.Base.{if◌then◌else◌}
use jardin.Base.Dict.{Dict}
use jardin.Sync.Types.{
  Host, State, SyncResult, empty_result, BulkDelete, bulk_total, ok, Manifest, pure, missing,
  unreadable, corrupt, files,
}
use jardin.Sync.Remote.{tree, sync_tree}
use jardin.Sync.Disk.{local_tree}
use jardin.Sync.Manifest.{load_manifest, save_manifest, index_by_path, union_paths}
use jardin.Sync.Conflict.{
  Reconcile, single_writer, prune_page, prune_pages, prune_single_writer_conflicts,
  conflict_backups,
}
use jardin.Sync.Reconcile.{
  plan_path, plan_all, planned_deletes, reconciles, reconcile_path, reconcile_all, settle, sync,
}
use jardin.Sync.Frame.{Leaves, Leaves-bind, frame_rules}
use jardin.Sync.Deletions.{
  deletions, resolve_conflict-deletions, upload_file-deletions, download_file-deletions,
  delete-deletions, remove_local-deletions,
}

abbrev pub Agrees : BulkDelete → State → Type 0
Agrees plan s = (s.res.deleted_local ≡ plan.local) × (s.res.deleted_remote ≡ plan.remote)

module _ (h : Host) where
  reconcile_path-Agrees :
      (r : Reconcile) (plan : BulkDelete) (s t : State)
      → Agrees plan s
      → reconcile_path h r s ≡ (ok tt, t)
      → Agrees (plan_path r plan) t
  unfolding reconcile_path plan_path
  reconcile_path-Agrees r plan s t a e = ground (
    arith,
    (resolve_conflict-deletions h r).at s,
    (upload_file-deletions h r.path).at s,
    (download_file-deletions h r.path).at s,
    (delete-deletions h r.path).at s,
    (remove_local-deletions r.path).at s,
  )

  reconcile_all-Agrees :
      (rs : List Reconcile) (plan : BulkDelete) (s t : State)
      → Agrees plan s
      → reconcile_all h rs s ≡ (ok tt, t)
      → Agrees (plan_all rs plan) t
  unfolding reconcile_all plan_all
  reconcile_all-Agrees [] plan s t a e = ground arith
  reconcile_all-Agrees (r ∷ rs) plan s t a e = ground (
    arith,
    reconcile_path-Agrees r plan s (reconcile_path h r s).1 a,
    reconcile_all-Agrees rs (plan_path r plan) (reconcile_path h r s).1 t,
  )

prune_page-deletions : (page : String) → Leaves deletions (prune_page page)
unfolding prune_page
prune_page-deletions page = search (frame_rules, remove_local-deletions)

prune_pages-deletions : (pages : List String) → Leaves deletions (prune_pages pages)
unfolding prune_pages
prune_pages-deletions [] = search frame_rules
prune_pages-deletions (page ∷ pages) =
    Leaves-bind (if single_writer page then prune_page page else pure tt) (λ _. prune_pages pages)
      (search (frame_rules, prune_page-deletions)) (λ _. prune_pages-deletions pages)

module _ (h : Host) where
  settle-Agrees :
      (base : Dict String String) (rs : List Reconcile) (plan : BulkDelete) (s t : State)
      (res : SyncResult)
      → plan.local ≡ []
      → plan.remote ≡ []
      → settle h base rs s ≡ (ok res, t)
      → (res.deleted_local ≡ (plan_all rs plan).local)
        × (res.deleted_remote ≡ (plan_all rs plan).remote)
  unfolding settle prune_single_writer_conflicts save_manifest
  settle-Agrees base rs plan s t res el er e =
      let started : State = record s { next = base; res = empty_result } in
      let settled : State = (reconcile_all h rs started).1 in
      ground (
        arith,
        reconcile_all-Agrees h rs plan started settled,
        (prune_pages-deletions (conflict_backups settled.disk)).at settled,
      )

-- What the manifest file stands for when it can be read.
abbrev pub known : Manifest → Dict String String
known missing = []
known unreadable = []
known corrupt = []
known (files m) = m

module _ (h : Host) where
  unfoldable pub sync_reconciles : State → List Reconcile
  sync_reconciles s =
      let local = index_by_path (local_tree h s.disk) in
      let remote = index_by_path (sync_tree h s.server) in
      let base = known s.manifest in reconciles (union_paths local remote base) local remote base

  unfoldable pub sync_plan : State → BulkDelete
  sync_plan s =
      let local = index_by_path (local_tree h s.disk) in
      let remote = index_by_path (sync_tree h s.server) in
      let base = known s.manifest in
      planned_deletes (union_paths local remote base) local remote base

  -- A sync that succeeds reports as deleted, on either side, the files that the plan lists, in its order.
  pub sync-plan :
      (allow : Bool) (s t : State) (res : SyncResult)
      → sync h allow s ≡ (ok res, t)
      → (res.deleted_local ≡ (sync_plan s).local) × (res.deleted_remote ≡ (sync_plan s).remote)
  unfolding sync sync_plan sync_reconciles planned_deletes load_manifest tree
  sync-plan allow s t res e =
      let ready : State = (tree h (load_manifest s).1).1 in
      let nothing : BulkDelete = record {
        local = [];
        remote = [];
        local_files = length (index_by_path (local_tree h s.disk));
        remote_files = length (index_by_path (sync_tree h s.server));
      } in
      ground (arith, settle-Agrees h (known s.manifest) (sync_reconciles s) nothing ready t res)

  -- A sync that was not told to allow bulk deletion, and that succeeds, reports at most ten deletions,
  -- both sides together.
  sync-deletes_few :
      (s t : State) (res : SyncResult)
      → sync h false s ≡ (ok res, t)
      → length res.deleted_local + length res.deleted_remote ≤ 10
  unfolding sync load_manifest tree bulk_total sync_plan
  sync-deletes_few s t res e = ground (arith, sync-plan false s t res)

  -- If the plan lists more than ten deletions and bulk deletion is not allowed, the sync fails, and
  -- both trees and the manifest are as they were.
  pub sync_refuses :
      (s : State)
      → 10 < bulk_total (sync_plan s)
      → ((res : SyncResult) → (sync h false s).0 ≢ ok res)
        × ((sync h false s).1.disk ≡ s.disk)
        × ((sync h false s).1.server ≡ s.server)
        × ((sync h false s).1.manifest ≡ s.manifest)
  unfolding sync load_manifest tree sync_plan
  sync_refuses s many = (λ res. ground arith, ground arith, ground arith, ground arith)
