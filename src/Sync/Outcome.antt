-- ===== src/Sync/Outcome.antt =====
-- What a reconcile leaves on the disk of its path, branch by branch.
use jardin.Base.{String, Bool, true, false, not, ◌&&◌, ◌||◌, ◌≡◌, arith}
use jardin.Base.{◌==◌, string_eq, if◌then◌else◌}
use jardin.Sync.Types.{Host, State, ok}
use jardin.Sync.Remote.{download}
use jardin.Sync.Disk.{read_disk}
use jardin.Sync.Conflict.{
  Reconcile, local_wins, write_conflict_copy, backup_remote_and_push_local,
  backup_local_and_pull_remote, keep_server_copy, keep_local_copy, resolve_single_writer,
  resolve_edits, resolve_conflict,
}
use jardin.Sync.Reconcile.{
  deletes_local, deletes_remote, apply_local_change, apply_remote_change, reconcile_path,
}
use jardin.Sync.Frame.{Ensures-bind}
use jardin.Sync.Sums.{
  IsShared, disk_sum, disk_sum-remove_local, upload_file_lem, download_file_lem, but_server-delete,
}
use jardin.Sync.Converge.{
  IsSeen, push_path, pull_path, copy_and_push, copy_and_pull, after_copy, after_read,
  after_download,
}

-- A tree shows the path.
abbrev pub is_present : String → Bool
is_present sum = not (sum == "")

-- One of the trees shows the path, and it is not to be deleted.
abbrev pub stays : Reconcile → Bool
stays r =
    (is_present r.local.checksum || is_present r.remote.checksum)
    && not (deletes_local r.local r.remote r.base || deletes_remote r.local r.remote r.base)

module _ (h : Host) (r : Reconcile) (shared : IsShared h r.path) (s : State)
    (seen : IsSeen h r s) where
  push-disk :
      (push_path h r s).0 ≡ ok tt → disk_sum h r.path (push_path h r s).1.disk ≡ r.local.checksum
  push-disk e = ground (arith, seen.local, upload_file_lem h r.path shared s)

  pull-disk :
      (pull_path h r s).0 ≡ ok tt → disk_sum h r.path (pull_path h r s).1.disk ≡ r.remote.checksum
  pull-disk e = ground (arith, seen.remote, download_file_lem h r.path shared s)

  keep_server_copy-disk :
      (keep_server_copy h r s).0 ≡ ok tt
      → disk_sum h r.path (keep_server_copy h r s).1.disk ≡ r.remote.checksum
  unfolding keep_server_copy
  keep_server_copy-disk e = ground (arith, pull-disk)

  keep_local_copy-disk :
      (keep_local_copy h r s).0 ≡ ok tt
      → disk_sum h r.path (keep_local_copy h r s).1.disk ≡ r.local.checksum
  unfolding keep_local_copy
  keep_local_copy-disk e = ground (arith, push-disk)

  -- The checksum of the side that wins.
  abbrev winner : String
  winner = if local_wins h r.local r.remote then r.local.checksum else r.remote.checksum

  resolve_single_writer-disk :
      (resolve_single_writer h r s).0 ≡ ok tt
      → disk_sum h r.path (resolve_single_writer h r s).1.disk ≡ winner
  unfolding resolve_single_writer
  resolve_single_writer-disk e = ground (arith, push-disk, pull-disk)

module _ (h : Host) (r : Reconcile) (shared : IsShared h r.path) (s : State)
    (seen : IsSeen h r s) where
  copy_and_push-disk :
      (body : String)
      → (copy_and_push h r body s).0 ≡ ok tt
      → disk_sum h r.path (copy_and_push h r body s).1.disk ≡ r.local.checksum
  unfolding copy_and_push
  copy_and_push-disk body e = ground (
    arith,
    push-disk h r shared (write_conflict_copy r.path body s).1 (after_copy h r shared s seen body),
  )

  copy_and_pull-disk :
      (body : String)
      → (copy_and_pull h r body s).0 ≡ ok tt
      → disk_sum h r.path (copy_and_pull h r body s).1.disk ≡ r.remote.checksum
  unfolding copy_and_pull
  copy_and_pull-disk body e = ground (
    arith,
    pull-disk h r shared (write_conflict_copy r.path body s).1 (after_copy h r shared s seen body),
  )

module _ (h : Host) (r : Reconcile) (shared : IsShared h r.path) (s : State)
    (seen : IsSeen h r s) where
  backup_remote_and_push_local-disk :
      (backup_remote_and_push_local h r s).0 ≡ ok tt
      → disk_sum h r.path (backup_remote_and_push_local h r s).1.disk ≡ r.local.checksum
  unfolding backup_remote_and_push_local copy_and_push
  backup_remote_and_push_local-disk =
      Ensures-bind (λ t. disk_sum h r.path t.disk ≡ r.local.checksum) (copy_and_push h r) tt
        (download h r.path) s
        (copy_and_push-disk h r shared (download h r.path s).1 (after_download h r shared s seen))

  backup_local_and_pull_remote-disk :
      (backup_local_and_pull_remote h r s).0 ≡ ok tt
      → disk_sum h r.path (backup_local_and_pull_remote h r s).1.disk ≡ r.remote.checksum
  unfolding backup_local_and_pull_remote copy_and_pull
  backup_local_and_pull_remote-disk =
      Ensures-bind (λ t. disk_sum h r.path t.disk ≡ r.remote.checksum) (copy_and_pull h r) tt
        (read_disk r.path) s
        (copy_and_pull-disk h r shared (read_disk r.path s).1 (after_read h r shared s seen))

  resolve_edits-disk :
      (resolve_edits h r s).0 ≡ ok tt
      → disk_sum h r.path (resolve_edits h r s).1.disk ≡ winner h r shared s seen
  unfolding resolve_edits
  resolve_edits-disk e =
      ground (arith, backup_remote_and_push_local-disk, backup_local_and_pull_remote-disk)

  resolve_conflict-present :
      r.local.checksum == r.remote.checksum ≡ false
      → (resolve_conflict h r s).0 ≡ ok tt
      → is_present (disk_sum h r.path (resolve_conflict h r s).1.disk) ≡ true
  unfolding resolve_conflict
  resolve_conflict-present differ e = ground (
    arith,
    keep_server_copy-disk h r shared s seen,
    keep_local_copy-disk h r shared s seen,
    resolve_single_writer-disk h r shared s seen,
    resolve_edits-disk,
  )

  apply_local_change-present :
      r.remote.checksum == r.base ≡ true
      → r.local.checksum == r.base ≡ false
      → (apply_local_change h r s).0 ≡ ok tt
      → is_present (disk_sum h r.path (apply_local_change h r s).1.disk) ≡ stays r
  unfolding apply_local_change deletes_local deletes_remote
  apply_local_change-present same moved e =
      ground (arith, push-disk h r shared s seen, seen.local, but_server-delete s h r.path)

  apply_remote_change-present :
      r.local.checksum == r.base ≡ true
      → r.remote.checksum == r.base ≡ false
      → (apply_remote_change h r s).0 ≡ ok tt
      → is_present (disk_sum h r.path (apply_remote_change h r s).1.disk) ≡ stays r
  unfolding apply_remote_change deletes_local deletes_remote
  apply_remote_change-present same moved e =
      ground (arith, pull-disk h r shared s seen, disk_sum-remove_local h r.path shared s)

  pub reconcile_path-present :
      (reconcile_path h r s).0 ≡ ok tt
      → is_present (disk_sum h r.path (reconcile_path h r s).1.disk) ≡ stays r
  unfolding reconcile_path deletes_local deletes_remote
  reconcile_path-present e = ground (
    arith, seen.local, seen.remote, apply_local_change-present, apply_remote_change-present,
    resolve_conflict-present,
  )
