-- ===== src/Sync/Converge.antt =====
-- After a path is settled, both trees and the next base show the same of it.
use jardin.Base.{String, ◌≡◌, arith}
use jardin.Base.{string_eq}
use jardin.Base.Dict.{lookup-insert, lookup-erase}
use jardin.Sync.Types.{Host, State, M, ok, ◌>>◌}
use jardin.Sync.Remote.{download}
use jardin.Sync.Disk.{read_disk, upload_file, download_file}
use jardin.Sync.Manifest.{base_at, set_base}
use jardin.Sync.Conflict.{
  Reconcile, note_upload, note_download, write_conflict_copy, backup_remote_and_push_local,
  backup_local_and_pull_remote, keep_server_copy, keep_local_copy, resolve_single_writer,
  resolve_edits, resolve_conflict,
}
use jardin.Sync.Reconcile.{apply_local_change, apply_remote_change, rebase, reconcile_path}
use jardin.Sync.Frame.{Ensures-bind}
use jardin.Sync.Sums.{
  IsShared, disk_sum, server_sum, trees-read_disk, trees-download, but_disk-write_conflict_copy,
  disk_sum-write_conflict_copy, server_sum-delete, but_server-delete, disk_sum-remove_local,
  but_disk-remove_local, upload_file_lem, download_file_lem,
}

module _ (h : Host) where
  -- The pair was read from the trees as they are.
  pub record IsSeen (r : Reconcile) (s : State) : Type 0 where
    pub local : r.local.checksum ≡ disk_sum h r.path s.disk
    pub remote : r.remote.checksum ≡ server_sum h r.path s.server

  -- Disk, server and next base agree on the path.
  pub record IsSettled (p : String) (t : State) : Type 0 where
    pub alike : disk_sum h p t.disk ≡ server_sum h p t.server
    pub based : base_at t.next p ≡ disk_sum h p t.disk

-- The two ways to settle a path outright.
abbrev pub push_path : Host → Reconcile → M (Unit {0})
push_path h r = do upload_file h r.path; note_upload r

abbrev pub pull_path : Host → Reconcile → M (Unit {0})
pull_path h r = do download_file h r.path; note_download r

module _ (h : Host) (r : Reconcile) (shared : IsShared h r.path) (s : State)
    (seen : IsSeen h r s) where
  push-IsSettled : (push_path h r s).0 ≡ ok tt → IsSettled h r.path (push_path h r s).1
  unfolding base_at
  push-IsSettled e = ground (
    arith,
    upload_file_lem h r.path shared s,
    lookup-insert r.path r.path r.local.checksum (upload_file h r.path s).1.next,
  )

  pull-IsSettled : (pull_path h r s).0 ≡ ok tt → IsSettled h r.path (pull_path h r s).1
  unfolding base_at
  pull-IsSettled e = ground (
    arith,
    download_file_lem h r.path shared s,
    lookup-insert r.path r.path r.remote.checksum (download_file h r.path s).1.next,
  )

  keep_server_copy-IsSettled :
      (keep_server_copy h r s).0 ≡ ok tt → IsSettled h r.path (keep_server_copy h r s).1
  unfolding keep_server_copy
  keep_server_copy-IsSettled e = ground (arith, pull-IsSettled)

  keep_local_copy-IsSettled :
      (keep_local_copy h r s).0 ≡ ok tt → IsSettled h r.path (keep_local_copy h r s).1
  unfolding keep_local_copy
  keep_local_copy-IsSettled e = ground (arith, push-IsSettled)

  resolve_single_writer-IsSettled :
      (resolve_single_writer h r s).0 ≡ ok tt → IsSettled h r.path (resolve_single_writer h r s).1
  unfolding resolve_single_writer
  resolve_single_writer-IsSettled e = ground (arith, push-IsSettled, pull-IsSettled)

-- A backup is written first, and leaves what was seen as it was.
module _ (h : Host) (r : Reconcile) (shared : IsShared h r.path) (s : State)
    (seen : IsSeen h r s) where
  pub after_copy : (body : String) → IsSeen h r (write_conflict_copy r.path body s).1
  after_copy body = ground (
    arith,
    disk_sum-write_conflict_copy h r.path shared s body,
    but_disk-write_conflict_copy r.path body s,
  )

  pub after_read : IsSeen h r (read_disk r.path s).1
  after_read = ground (arith, trees-read_disk s r.path)

  pub after_download : IsSeen h r (download h r.path s).1
  after_download = ground (arith, trees-download s h r.path)

-- The second half of a resolution between two edits.
unfoldable pub copy_and_push : Host → Reconcile → String → M (Unit {0})
copy_and_push h r body = do write_conflict_copy r.path body; upload_file h r.path; note_upload r

unfoldable pub copy_and_pull : Host → Reconcile → String → M (Unit {0})
copy_and_pull h r body = do write_conflict_copy r.path body; download_file h r.path; note_download r

module _ (h : Host) (r : Reconcile) (shared : IsShared h r.path) (s : State)
    (seen : IsSeen h r s) where
  copy_and_push-IsSettled :
      (body : String)
      → (copy_and_push h r body s).0 ≡ ok tt
      → IsSettled h r.path (copy_and_push h r body s).1
  unfolding copy_and_push
  copy_and_push-IsSettled body e = ground (
    arith,
    push-IsSettled h r shared (write_conflict_copy r.path body s).1
        (after_copy h r shared s seen body),
  )

  copy_and_pull-IsSettled :
      (body : String)
      → (copy_and_pull h r body s).0 ≡ ok tt
      → IsSettled h r.path (copy_and_pull h r body s).1
  unfolding copy_and_pull
  copy_and_pull-IsSettled body e = ground (
    arith,
    pull-IsSettled h r shared (write_conflict_copy r.path body s).1
        (after_copy h r shared s seen body),
  )

module _ (h : Host) (r : Reconcile) (shared : IsShared h r.path) (s : State)
    (seen : IsSeen h r s) where
  backup_remote_and_push_local-IsSettled :
      (backup_remote_and_push_local h r s).0 ≡ ok tt
      → IsSettled h r.path (backup_remote_and_push_local h r s).1
  unfolding backup_remote_and_push_local copy_and_push
  backup_remote_and_push_local-IsSettled =
      Ensures-bind (IsSettled h r.path) (copy_and_push h r) tt (download h r.path) s (
        copy_and_push-IsSettled h r shared (download h r.path s).1
          (after_download h r shared s seen))

  backup_local_and_pull_remote-IsSettled :
      (backup_local_and_pull_remote h r s).0 ≡ ok tt
      → IsSettled h r.path (backup_local_and_pull_remote h r s).1
  unfolding backup_local_and_pull_remote copy_and_pull
  backup_local_and_pull_remote-IsSettled =
      Ensures-bind (IsSettled h r.path) (copy_and_pull h r) tt (read_disk r.path) s
        (copy_and_pull-IsSettled h r shared (read_disk r.path s).1 (after_read h r shared s seen))

module _ (h : Host) (r : Reconcile) (shared : IsShared h r.path) (s : State)
    (seen : IsSeen h r s) where
  resolve_edits-IsSettled :
      (resolve_edits h r s).0 ≡ ok tt → IsSettled h r.path (resolve_edits h r s).1
  unfolding resolve_edits
  resolve_edits-IsSettled e = ground (
    arith,
    backup_remote_and_push_local-IsSettled h r shared s seen,
    backup_local_and_pull_remote-IsSettled h r shared s seen,
  )

  resolve_conflict-IsSettled :
      (resolve_conflict h r s).0 ≡ ok tt → IsSettled h r.path (resolve_conflict h r s).1
  unfolding resolve_conflict
  resolve_conflict-IsSettled e = ground (
    arith,
    keep_server_copy-IsSettled h r shared s seen,
    keep_local_copy-IsSettled h r shared s seen,
    resolve_single_writer-IsSettled h r shared s seen,
    resolve_edits-IsSettled,
  )

  rebase-IsSettled : r.local.checksum ≡ r.remote.checksum → IsSettled h r.path (rebase h r s).1
  unfolding base_at set_base
  rebase-IsSettled e = ground (
    arith,
    lookup-insert r.path r.path r.local.checksum s.next,
    lookup-erase r.path r.path s.next,
  )

  apply_local_change-IsSettled :
      r.remote.checksum ≡ r.base
      → (apply_local_change h r s).0 ≡ ok tt
      → IsSettled h r.path (apply_local_change h r s).1
  unfolding apply_local_change base_at
  apply_local_change-IsSettled e = ground (
    arith,
    push-IsSettled h r shared s seen,
    server_sum-delete h r.path shared s,
    but_server-delete s h r.path,
    lookup-erase r.path r.path s.next,
  )

  apply_remote_change-IsSettled :
      (apply_remote_change h r s).0 ≡ ok tt → IsSettled h r.path (apply_remote_change h r s).1
  unfolding apply_remote_change base_at
  apply_remote_change-IsSettled = ground (
    arith,
    pull-IsSettled h r shared s seen,
    disk_sum-remove_local h r.path shared s,
    but_disk-remove_local s r.path,
    lookup-erase r.path r.path s.next,
  )

  -- If the path is shared (both listings show it and the server takes it for itself) and its
  -- checksums were read from the trees as they are, then a reconcile of the path that succeeds
  -- leaves disk, server and next base with one and the same checksum of it, or all without it.
  pub reconcile_path-IsSettled :
      (reconcile_path h r s).0 ≡ ok tt → IsSettled h r.path (reconcile_path h r s).1
  unfolding reconcile_path
  reconcile_path-IsSettled = ground (
    arith, rebase-IsSettled, apply_local_change-IsSettled, apply_remote_change-IsSettled,
    resolve_conflict-IsSettled,
  )
