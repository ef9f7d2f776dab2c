-- ===== src/Sync/Elsewhere.antt =====
-- Settling one path leaves every other shared path as it was.
use jardin.Base.{String, false, ◌≡◌, ◌≢◌, refl, arith}
use jardin.Base.{string_eq, ap}
use jardin.Base.Dict.{lookup-insert, lookup-erase}
use jardin.Sync.Types.{Host, State, Error, attempt}
use jardin.Sync.Remote.{download, upload, delete, write_file, torn_put}
use jardin.Sync.Disk.{sync_skip, read_disk, write_disk, remove_local, upload_file, download_file}
use jardin.Sync.Manifest.{base_at, set_base}
use jardin.Sync.Conflict.{
  Reconcile, note_upload, note_download, note_conflict, conflict_path, write_conflict_copy,
  keep_server_copy, keep_local_copy, resolve_single_writer, resolve_edits, resolve_conflict,
}
use jardin.Sync.Reconcile.{
  rebase, note_deleted_remote, note_deleted_local, apply_local_change, apply_remote_change,
  reconcile_path,
}
use jardin.Sync.Sums.{IsShared, disk_sum, server_sum, lookup-tear, conflict_path-skipped}
use jardin.Sync.Frame.{Leaves, Leaves-if, frame_rules}
use jardin.Sync.Converge.{push_path, pull_path}

-- What the three maps show of a path.
abbrev pub view : Host → String → State → String × String × String
view h q s = (disk_sum h q s.disk, server_sum h q s.server, base_at s.next q)

module _ (h : Host) (q : String) where
  view-attempt : (e : Error) → Leaves (view h q) (attempt e)
  unfolding attempt
  view-attempt e = record { at = λ s. ground arith }

  view-read_disk : (p : String) → Leaves (view h q) (read_disk p)
  unfolding read_disk
  view-read_disk p = record { at = λ s. ground arith }

  view-download : (p : String) → Leaves (view h q) (download h p)
  unfolding download
  view-download p = record { at = λ s. ground arith }

  view-note_conflict : (what : String) → Leaves (view h q) (note_conflict what)
  view-note_conflict what = record { at = λ s. refl }

  view-write_disk : (p body : String) → q ≢ p → Leaves (view h q) (write_disk p body)
  unfolding write_disk disk_sum write_file
  view-write_disk p body ne = record {
    at = λ s. ground (
      arith,
      lookup-tear q p s.now s.torn s.disk,
      lookup-insert q p (record { content = body; mod_time = s.now; locked = false }) s.disk,
    );
  }

  pub view-remove_local : (p : String) → q ≢ p → Leaves (view h q) (remove_local p)
  unfolding remove_local disk_sum
  view-remove_local p ne = record { at = λ s. ground (arith, lookup-erase q p s.disk) }

module _ (h : Host) (q p : String) (ne : q ≢ p) (shared : IsShared h p) where
  view-upload : (body : String) → Leaves (view h q) (upload h p body)
  unfolding upload server_sum write_file torn_put
  view-upload body = record {
    at = λ s. ground (
      arith,
      shared.resolved,
      lookup-tear q p s.now s.torn s.server,
      lookup-insert q p (record { content = body; mod_time = s.now; locked = false }) s.server,
    );
  }

  view-delete : Leaves (view h q) (delete h p)
  unfolding delete server_sum
  view-delete = record { at = λ s. ground (arith, shared.resolved, lookup-erase q p s.server) }

  view-upload_file : Leaves (view h q) (upload_file h p)
  unfolding upload_file
  view-upload_file = search (frame_rules, view-read_disk, view-upload)

  view-download_file : Leaves (view h q) (download_file h p)
  unfolding download_file
  view-download_file = search (frame_rules, view-download, view-write_disk)

module _ (h : Host) (q : String) (r : Reconcile) (ne : q ≢ r.path) where
  view-note_upload : Leaves (view h q) (note_upload r)
  unfolding base_at
  view-note_upload = record {
    at = λ s. ground (arith, lookup-insert q r.path r.local.checksum s.next);
  }

  view-note_download : Leaves (view h q) (note_download r)
  unfolding base_at
  view-note_download = record {
    at = λ s. ground (arith, lookup-insert q r.path r.remote.checksum s.next);
  }

  view-note_deleted_remote : Leaves (view h q) (note_deleted_remote r)
  unfolding base_at
  view-note_deleted_remote = record { at = λ s. ground (arith, lookup-erase q r.path s.next) }

  view-note_deleted_local : Leaves (view h q) (note_deleted_local r)
  unfolding base_at
  view-note_deleted_local = record { at = λ s. ground (arith, lookup-erase q r.path s.next) }

  view-rebase : Leaves (view h q) (rebase h r)
  unfolding base_at set_base
  view-rebase = record {
    at = λ s.
        ground
          (arith, lookup-insert q r.path r.local.checksum s.next, lookup-erase q r.path s.next);
  }

pub not_backup : (q p : String) → sync_skip q ≡ false → q ≢ conflict_path p
not_backup q p shown e = cc (ap sync_skip e, conflict_path-skipped p)

module _ (h : Host) (q : String) (shown : sync_skip q ≡ false) where
  view-write_conflict_copy : (p body : String) → Leaves (view h q) (write_conflict_copy p body)
  unfolding write_conflict_copy
  view-write_conflict_copy p body =
      view-write_disk h q (conflict_path p) body (not_backup q p shown)

  module _ (r : Reconcile) (ne : q ≢ r.path) (shared : IsShared h r.path) where
    view-push : Leaves (view h q) (push_path h r)
    view-push = search (frame_rules, view-upload_file, view-note_upload)

    view-pull : Leaves (view h q) (pull_path h r)
    view-pull = search (frame_rules, view-download_file, view-note_download)

    view-resolve_edits : Leaves (view h q) (resolve_edits h r)
    unfolding resolve_edits
    view-resolve_edits =
        search
          (
            frame_rules, view-download, view-read_disk, view-write_conflict_copy, view-upload_file,
            view-download_file, view-note_upload, view-note_download, view-note_conflict,
          )
          depth 7

    view-resolve_conflict : Leaves (view h q) (resolve_conflict h r)
    unfolding resolve_conflict keep_server_copy keep_local_copy resolve_single_writer
    view-resolve_conflict =
        search
          (
            frame_rules, view-resolve_edits, view-upload_file, view-download_file, view-note_upload,
            view-note_download, view-note_conflict,
          )
          depth 7

    view-apply_local_change : Leaves (view h q) (apply_local_change h r)
    unfolding apply_local_change base_at
    view-apply_local_change = search (frame_rules, view-delete, view-note_deleted_remote, view-push)

    view-apply_remote_change : Leaves (view h q) (apply_remote_change h r)
    unfolding apply_remote_change base_at
    view-apply_remote_change =
        search (frame_rules, view-remove_local, view-note_deleted_local, view-pull)

    -- Let the client not skip the path `q`, and let `r` be the pair of another path, which is shared.
    -- Then the reconcile of `r`, whether it succeeds or fails, leaves the checksum of `q` on the disk,
    -- on the server and in the next base as it was.
    pub view-reconcile_path : Leaves (view h q) (reconcile_path h r)
    unfolding reconcile_path
    view-reconcile_path = Leaves-if _ _ _ (view-rebase h q r ne) (
        Leaves-if _ _ _ view-apply_local_change (
          Leaves-if _ _ _ view-apply_remote_change
            (Leaves-if _ _ _ (view-rebase h q r ne) view-resolve_conflict)))
