-- ===== src/Sync/Reconcile.antt =====
-- internal/sync/sync.go: the three-way reconcile behind its guard on deletions.
use jardin.Base.{String, Bool, not, ◌&&◌, List, [], ◌∷◌, ◌++◌}
use jardin.Base.{◌==◌, string_eq, ltb, length, if◌then◌else◌}
use jardin.Base.Dict
use jardin.Base.Dict.{Dict}
use jardin.Sync.Types.{
  Host, FileEntry, BulkDelete, bulk_total, max_silent_deletes, SyncResult, empty_result, M,
  bulk_delete, ◌>>=◌, ◌>>◌, pure, fail, gets, modify,
}
use jardin.Sync.Remote.{tree, delete}
use jardin.Sync.Disk.{local_tree, remove_local, upload_file, download_file}
use jardin.Sync.Manifest.{
  load_manifest, save_manifest, index_by_path, entry_at, base_at, union_paths, set_base,
}
use jardin.Sync.Conflict.{
  Reconcile, note_upload, note_download, resolve_conflict, prune_single_writer_conflicts,
}

unfoldable pub deletes_local : FileEntry → FileEntry → String → Bool
deletes_local local remote base =
    local.checksum == base && not (remote.checksum == base) && remote.checksum == ""

unfoldable pub deletes_remote : FileEntry → FileEntry → String → Bool
deletes_remote local remote base =
    remote.checksum == base && not (local.checksum == base) && local.checksum == ""

-- What the reconcile of one path reads of the three maps.
unfoldable pub reconcile_at :
    Dict String FileEntry → Dict String FileEntry → Dict String String → String → Reconcile
unfolding entry_at base_at
reconcile_at local remote base p = record {
  path = p;
  local = entry_at local p;
  remote = entry_at remote p;
  base = base_at base p;
}

unfoldable pub plan_path : Reconcile → BulkDelete → BulkDelete
unfolding deletes_local deletes_remote
plan_path r plan =
    if deletes_local r.local r.remote r.base
    then record plan { local = plan.local ++ (r.path ∷ []) }
    else if deletes_remote r.local r.remote r.base
    then record plan { remote = plan.remote ++ (r.path ∷ []) }
    else plan

unfoldable pub plan_all : List Reconcile → BulkDelete → BulkDelete
unfolding plan_path
plan_all [] plan = plan
plan_all (r ∷ rs) plan = plan_all rs (plan_path r plan)

unfoldable pub reconciles :
    List String
    → Dict String FileEntry
    → Dict String FileEntry
    → Dict String String
    → List Reconcile
unfolding reconcile_at
reconciles [] local remote base = []
reconciles (p ∷ ps) local remote base =
    reconcile_at local remote base p ∷ reconciles ps local remote base

-- plannedDeletes
unfoldable pub planned_deletes :
    List String → Dict String FileEntry → Dict String FileEntry → Dict String String → BulkDelete
unfolding plan_all reconciles
planned_deletes paths local remote base =
    plan_all (reconciles paths local remote base)
      (record { local = []; remote = []; local_files = length local; remote_files = length remote })

abbrev pub note_deleted_remote : Reconcile → M (Unit {0})
note_deleted_remote r = modify (λ s. record s {
  res = record (s.res) { deleted_remote = s.res.deleted_remote ++ (r.path ∷ []) };
  next = Dict.erase r.path s.next;
})

abbrev pub note_deleted_local : Reconcile → M (Unit {0})
note_deleted_local r = modify (λ s. record s {
  res = record (s.res) { deleted_local = s.res.deleted_local ++ (r.path ∷ []) };
  next = Dict.erase r.path s.next;
})

module _ (h : Host) where
  unfoldable pub apply_local_change : Reconcile → M (Unit {0})
  unfolding deletes_remote
  apply_local_change r =
      if deletes_remote r.local r.remote r.base
      then (do delete h r.path; note_deleted_remote r)
      else (do upload_file h r.path; note_upload r)

  unfoldable pub apply_remote_change : Reconcile → M (Unit {0})
  unfolding deletes_local
  apply_remote_change r =
      if deletes_local r.local r.remote r.base
      then (do remove_local r.path; note_deleted_local r)
      else (do download_file h r.path; note_download r)

  -- Both sides agree: the pair is re-based.
  abbrev pub rebase : Reconcile → M (Unit {0})
  rebase r = modify (λ s. record s { next = set_base s.next r.path r.local.checksum })

  unfoldable pub reconcile_path : Reconcile → M (Unit {0})
  unfolding apply_local_change apply_remote_change
  reconcile_path r =
      let local_mod = not (r.local.checksum == r.base) in
      let remote_mod = not (r.remote.checksum == r.base) in
      if not local_mod && not remote_mod
      then rebase r
      else if local_mod && not remote_mod
      then apply_local_change r
      else if not local_mod && remote_mod
      then apply_remote_change r
      else if r.local.checksum == r.remote.checksum
      then rebase r
      else resolve_conflict h r

  unfoldable pub reconcile_all : List Reconcile → M (Unit {0})
  reconcile_all [] = pure tt
  reconcile_all (r ∷ rs) = do reconcile_path r; reconcile_all rs

  -- The part of Sync behind the guard.
  unfoldable pub settle : Dict String String → List Reconcile → M SyncResult
  settle base rs = do
    modify (λ s. record s { next = base; res = empty_result })
    reconcile_all rs
    prune_single_writer_conflicts
    next ← gets (λ s. s.next)
    save_manifest next
    gets (λ s. s.res)

  -- Sync, with the client's AllowBulkDelete.
  unfoldable pub sync : Bool → M SyncResult
  sync allow_bulk_delete = do
    base ← load_manifest
    local_list ← gets (λ s. local_tree h s.disk)
    remote_list ← tree h
    let local = index_by_path local_list
    let remote = index_by_path remote_list
    let paths = union_paths local remote base
    let plan = planned_deletes paths local remote base
    if ltb max_silent_deletes (bulk_total plan) && not allow_bulk_delete
        then fail (bulk_delete plan)
        else settle base (reconciles paths local remote base)
