-- ===== src/Sync/NoLoss.antt =====
-- Two edits of one path: whatever happens on the way, both versions are still somewhere.
use jardin.Base.{String, false, Option, none, some, ◌≡◌, ◌≢◌, ◌⊎◌, inl, inr, arith}
use jardin.Base.{string_eq}
use jardin.Base.Dict
use jardin.Base.Dict.{Dict, lookup-insert}
use jardin.Sync.Types.{Host, File, Files, State, ok}
use jardin.Sync.Remote.{download, write_file}
use jardin.Sync.Disk.{read_disk, write_disk, upload_file, download_file}
use jardin.Sync.Conflict.{
  Reconcile, conflict_path, single_writer, write_conflict_copy, backup_remote_and_push_local,
  backup_local_and_pull_remote, resolve_edits, resolve_conflict,
}
use jardin.Sync.Reconcile.{reconcile_path}
use jardin.Sync.Sums.{
  IsShared, lookup-tear, conflict_path-ne, trees-read_disk, trees-download, but_server-upload,
  but_disk-write_disk,
}
use jardin.Sync.Frame.{Result-cases}
use jardin.Sync.Converge.{copy_and_push, copy_and_pull}

abbrev content_of : Option File → Option String
content_of none = none
content_of (some f) = some f.content

-- The bytes that a tree holds at a path.
abbrev pub content_at : String → Files → Option String
content_at p tree = content_of (Dict.lookup p tree)

-- The machine's edit is at its place or backed up, and the server's edit is on the server or backed up.
pub record KeepsBoth (p mine theirs : String) (t : State) : Type 0 where
  pub local_kept :
      (content_at p t.disk ≡ some mine) ⊎ (content_at (conflict_path p) t.disk ≡ some mine)
  pub remote_kept :
      (content_at p t.server ≡ some theirs) ⊎ (content_at (conflict_path p) t.disk ≡ some theirs)

-- The same with both at their places.
pub record AtHome (p mine theirs : String) (s : State) : Type 0 where
  pub at_disk : content_at p s.disk ≡ some mine
  pub at_server : content_at p s.server ≡ some theirs

module _ (h : Host) (p mine theirs : String) (shared : IsShared h p) (s : State)
    (home : AtHome p mine theirs s) where
  AtHome-download : AtHome p mine theirs (download h p s).1
  unfolding download
  AtHome-download = ground arith

  AtHome-read_disk : AtHome p mine theirs (read_disk p s).1
  unfolding read_disk
  AtHome-read_disk = ground arith

  download-content : (body : String) → (download h p s).0 ≡ ok body → body ≡ theirs
  unfolding download
  download-content body e = ground (arith, shared.resolved)

  read_disk-content : (body : String) → (read_disk p s).0 ≡ ok body → body ≡ mine
  unfolding read_disk
  read_disk-content body e = ground arith

  AtHome-write_conflict_copy :
      (body : String) → AtHome p mine theirs (write_conflict_copy p body s).1
  unfolding write_conflict_copy write_disk write_file
  AtHome-write_conflict_copy body = ground (
    arith,
    conflict_path-ne p shared.local_lists,
    lookup-tear p (conflict_path p) s.now s.torn s.disk,
    lookup-insert p (conflict_path p) (record { content = body; mod_time = s.now; locked = false })
        s.disk,
  )

  copy-content :
      (body : String)
      → (write_conflict_copy p body s).0 ≡ ok tt
      → content_at (conflict_path p) (write_conflict_copy p body s).1.disk ≡ some body
  unfolding write_conflict_copy write_disk write_file
  copy-content body e = ground (
    arith,
    lookup-insert (conflict_path p) (conflict_path p)
        (record { content = body; mod_time = s.now; locked = false }) s.disk,
  )

module _ (p : String) (s : State) where
  backup-write_disk :
      (body : String)
      → p ≢ conflict_path p
      → content_at (conflict_path p) (write_disk p body s).1.disk
        ≡ content_at (conflict_path p) s.disk
  unfolding write_disk write_file
  backup-write_disk body ne = ground (
    arith,
    lookup-tear (conflict_path p) p s.now s.torn s.disk,
    lookup-insert (conflict_path p) p (record { content = body; mod_time = s.now; locked = false })
        s.disk,
  )

module _ (h : Host) (p : String) (s : State) where
  disk-upload_file : (upload_file h p s).1.disk ≡ s.disk
  unfolding upload_file
  disk-upload_file = elim (Result-cases (read_disk p s).0) [
    | inl (body, e) ↦
        ground (arith, trees-read_disk s p, but_server-upload (read_disk p s).1 h p body)
    | inr (x, e) ↦ ground (arith, trees-read_disk s p)
  ]

  server-download_file : (download_file h p s).1.server ≡ s.server
  unfolding download_file
  server-download_file = elim (Result-cases (download h p s).0) [
    | inl (body, e) ↦
        ground (arith, trees-download s h p, but_disk-write_disk (download h p s).1 p body)
    | inr (x, e) ↦ ground (arith, trees-download s h p)
  ]

  backup-download_file :
      p ≢ conflict_path p
      → content_at (conflict_path p) (download_file h p s).1.disk
        ≡ content_at (conflict_path p) s.disk
  unfolding download_file
  backup-download_file ne = elim (Result-cases (download h p s).0) [
    | inl (body, e) ↦
        ground (arith, trees-download s h p, backup-write_disk p (download h p s).1 body ne)
    | inr (x, e) ↦ ground (arith, trees-download s h p)
  ]

-- A block that goes on only where its first part succeeded.
module _ (h : Host) (r : Reconcile) (mine theirs : String) (shared : IsShared h r.path) (s : State)
    (home : AtHome r.path mine theirs s) where
  copy_and_push-KeepsBoth : KeepsBoth r.path mine theirs (copy_and_push h r theirs s).1
  unfolding copy_and_push
  copy_and_push-KeepsBoth = ground (
    arith,
    AtHome-write_conflict_copy h r.path mine theirs shared s home theirs,
    copy-content h r.path mine theirs shared s home theirs,
    disk-upload_file h r.path (write_conflict_copy r.path theirs s).1,
  )

  copy_and_pull-KeepsBoth : KeepsBoth r.path mine theirs (copy_and_pull h r mine s).1
  unfolding copy_and_pull
  copy_and_pull-KeepsBoth = ground (
    arith,
    AtHome-write_conflict_copy h r.path mine theirs shared s home mine,
    copy-content h r.path mine theirs shared s home mine,
    conflict_path-ne r.path shared.local_lists,
    server-download_file h r.path (write_conflict_copy r.path mine s).1,
    backup-download_file h r.path (write_conflict_copy r.path mine s).1,
  )

module _ (h : Host) (r : Reconcile) (mine theirs : String) (shared : IsShared h r.path) (s : State)
    (home : AtHome r.path mine theirs s) where
  backup_remote_and_push_local-KeepsBoth :
      KeepsBoth r.path mine theirs (backup_remote_and_push_local h r s).1
  unfolding backup_remote_and_push_local copy_and_push
  backup_remote_and_push_local-KeepsBoth = elim (Result-cases (download h r.path s).0) [
    | inl (body, e) ↦ ground (
      arith,
      download-content h r.path mine theirs shared s home body,
      copy_and_push-KeepsBoth h r mine theirs shared (download h r.path s).1
          (AtHome-download h r.path mine theirs shared s home),
    )
    | inr (x, e) ↦ ground (arith, AtHome-download h r.path mine theirs shared s home)
  ]

  backup_local_and_pull_remote-KeepsBoth :
      KeepsBoth r.path mine theirs (backup_local_and_pull_remote h r s).1
  unfolding backup_local_and_pull_remote copy_and_pull
  backup_local_and_pull_remote-KeepsBoth = elim (Result-cases (read_disk r.path s).0) [
    | inl (body, e) ↦ ground (
      arith,
      read_disk-content h r.path mine theirs shared s home body,
      copy_and_pull-KeepsBoth h r mine theirs shared (read_disk r.path s).1
          (AtHome-read_disk h r.path mine theirs shared s home),
    )
    | inr (x, e) ↦ ground (arith, AtHome-read_disk h r.path mine theirs shared s home)
  ]

  resolve_edits-KeepsBoth : KeepsBoth r.path mine theirs (resolve_edits h r s).1
  unfolding resolve_edits
  resolve_edits-KeepsBoth =
      ground (arith, backup_remote_and_push_local-KeepsBoth, backup_local_and_pull_remote-KeepsBoth)

  -- Let a shared path hold `mine` on the disk and `theirs` on the server. If both sides edited it
  -- since the last sync, differently, neither side deleted it, and it is not a single writer's, then
  -- after its reconcile, whether that succeeds or fails on the way, `mine` is at its place on the
  -- disk or in the backup, and `theirs` is on the server or in the backup.
  pub reconcile_path-KeepsBoth :
      r.local.checksum ≢ r.base
      → r.remote.checksum ≢ r.base
      → r.local.checksum ≢ r.remote.checksum
      → r.local.checksum ≢ ""
      → r.remote.checksum ≢ ""
      → single_writer r.path ≡ false
      → KeepsBoth r.path mine theirs (reconcile_path h r s).1
  unfolding reconcile_path resolve_conflict
  reconcile_path-KeepsBoth lm rm differ l0 r0 many = ground (arith, resolve_edits-KeepsBoth)
