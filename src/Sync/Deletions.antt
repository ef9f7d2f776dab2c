-- ===== src/Sync/Deletions.antt =====
-- What is reported as deleted: only the two deletions themselves add to it.
use jardin.Base.{String, List, refl, arith}
use jardin.Sync.Types.{Host, State, Error, attempt}
use jardin.Sync.Remote.{download, upload, delete}
use jardin.Sync.Disk.{read_disk, write_disk, remove_local, upload_file, download_file}
use jardin.Sync.Conflict.{
  write_conflict_copy, resolve_conflict, Reconcile, note_upload, note_download, note_conflict,
  resolve_edits, resolve_single_writer, keep_server_copy, keep_local_copy,
}
use jardin.Sync.Frame.{Leaves, Leaves-if, frame_rules}

-- What has been reported as deleted so far.
abbrev pub Deletions : Type 0
Deletions = List String × List String

abbrev pub deletions : State → Deletions
deletions s = (s.res.deleted_local, s.res.deleted_remote)

pub attempt-deletions : (e : Error) → Leaves deletions (attempt e)
unfolding attempt
attempt-deletions e = record { at = λ s. ground arith }

pub download-deletions : (h : Host) (p : String) → Leaves deletions (download h p)
unfolding download
download-deletions h p = record { at = λ s. ground arith }

pub upload-deletions : (h : Host) (p body : String) → Leaves deletions (upload h p body)
unfolding upload
upload-deletions h p body = record { at = λ s. ground arith }

pub write_disk-deletions : (p body : String) → Leaves deletions (write_disk p body)
unfolding write_disk
write_disk-deletions p body = record { at = λ s. ground arith }

pub read_disk-deletions : (p : String) → Leaves deletions (read_disk p)
unfolding read_disk
read_disk-deletions p = record { at = λ s. ground arith }

pub remove_local-deletions : (p : String) → Leaves deletions (remove_local p)
unfolding remove_local
remove_local-deletions p = record { at = λ s. ground arith }

pub delete-deletions : (h : Host) (p : String) → Leaves deletions (delete h p)
unfolding delete
delete-deletions h p = record { at = λ s. ground arith }

note_upload-deletions : (r : Reconcile) → Leaves deletions (note_upload r)
note_upload-deletions r = record { at = λ s. refl }

note_download-deletions : (r : Reconcile) → Leaves deletions (note_download r)
note_download-deletions r = record { at = λ s. refl }

note_conflict-deletions : (what : String) → Leaves deletions (note_conflict what)
note_conflict-deletions what = record { at = λ s. refl }

write_conflict_copy-deletions : (p body : String) → Leaves deletions (write_conflict_copy p body)
unfolding write_conflict_copy
write_conflict_copy-deletions p body = write_disk-deletions _ body

module _ (h : Host) where
  pub upload_file-deletions : (p : String) → Leaves deletions (upload_file h p)
  unfolding upload_file
  upload_file-deletions p = search (frame_rules, read_disk-deletions, upload-deletions)

  pub download_file-deletions : (p : String) → Leaves deletions (download_file h p)
  unfolding download_file
  download_file-deletions p = search (frame_rules, download-deletions, write_disk-deletions)

  ruleset deletion_rules = (
    frame_rules, note_upload-deletions, note_download-deletions, note_conflict-deletions,
    upload_file-deletions, download_file-deletions, download-deletions,
    write_conflict_copy-deletions, read_disk-deletions,
  )

  resolve_edits-deletions : (r : Reconcile) → Leaves deletions (resolve_edits h r)
  unfolding resolve_edits
  resolve_edits-deletions r = search deletion_rules depth 7

  resolve_single_writer-deletions : (r : Reconcile) → Leaves deletions (resolve_single_writer h r)
  unfolding resolve_single_writer
  resolve_single_writer-deletions r = search deletion_rules

  keep_copies-deletions :
      (r : Reconcile)
      → Leaves deletions (keep_server_copy h r) × Leaves deletions (keep_local_copy h r)
  unfolding keep_server_copy keep_local_copy
  keep_copies-deletions r = (search deletion_rules, search deletion_rules)

  pub resolve_conflict-deletions : (r : Reconcile) → Leaves deletions (resolve_conflict h r)
  unfolding resolve_conflict
  resolve_conflict-deletions r = Leaves-if _ _ _ (keep_copies-deletions r).0 (
      Leaves-if _ _ _ (keep_copies-deletions r).1
        (Leaves-if _ _ _ (resolve_single_writer-deletions r) (resolve_edits-deletions r)))
