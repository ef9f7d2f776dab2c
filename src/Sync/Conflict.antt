-- ===== src/Sync/Conflict.antt =====
-- internal/sync/conflict.go and singlewriter.go: a path that both sides changed.
use jardin.Base.{ℕ, String, ◌<>◌, Bool, false, not, ◌&&◌, Option, none, some, List, [], ◌∷◌}
use jardin.Base.{◌++◌, ◌==◌, string_eq, nat_eq, ltb, if◌then◌else◌}
use jardin.Base.Dict
use jardin.Base.Text.{cut_prefix, cut_suffix, has_prefix, has_text, text_lt, parents, sort_strings}
use jardin.Sync.Types.{Host, Files, FileEntry, M, ◌>>=◌, ◌>>◌, pure, gets, modify}
use jardin.Sync.Remote.{download}
use jardin.Sync.Disk.{
  skip_walk_dir, reached, read_disk, write_disk, remove_local, upload_file, download_file,
}
use jardin.Sync.Manifest.{parse_time}

-- The fields of `reconcile` that a path's settlement only reads; `next` and `res` are the state's.
pub record Reconcile : Type 0 where
  pub path : String
  pub local : FileEntry
  pub remote : FileEntry
  pub base : String

unfoldable pub single_writer : String → Bool
unfolding cut_prefix has_text
single_writer rel = elim (cut_prefix rel "usage/") [ none ↦ false | some rest ↦ has_text rest "/" ]

-- The instants decide if both parse and differ, else the checksums.
abbrev pub newer : Option ℕ → Option ℕ → Bool → Bool
newer (some lt) (some rt) tie = if lt == rt then tie else ltb rt lt
newer (some lt) none tie = tie
newer none rt tie = tie

unfoldable pub local_wins : Host → FileEntry → FileEntry → Bool
local_wins h local remote =
    newer (parse_time h local.mod_time) (parse_time h remote.mod_time)
      (not (text_lt local.checksum remote.checksum))

unfoldable pub conflict_path : String → String
conflict_path p = ".conflicts/" <> p

-- writeConflictCopy
unfoldable pub write_conflict_copy : String → String → M (Unit {0})
unfolding conflict_path write_disk
write_conflict_copy p body = write_disk (conflict_path p) body

-- Appends to the result and sets the path's checksum in the next base.
abbrev pub note_upload : Reconcile → M (Unit {0})
note_upload r = modify (λ s. record s {
  res = record (s.res) { uploaded = s.res.uploaded ++ (r.path ∷ []) };
  next = Dict.insert r.path r.local.checksum s.next;
})

abbrev pub note_download : Reconcile → M (Unit {0})
note_download r = modify (λ s. record s {
  res = record (s.res) { downloaded = s.res.downloaded ++ (r.path ∷ []) };
  next = Dict.insert r.path r.remote.checksum s.next;
})

abbrev pub note_conflict : String → M (Unit {0})
note_conflict what =
    modify (λ s. record s { res = record (s.res) { conflicts = s.res.conflicts ++ (what ∷ []) } })

module _ (h : Host) where
  unfoldable pub keep_server_copy : Reconcile → M (Unit {0})
  keep_server_copy r = do
    download_file h r.path
    note_download r
    note_conflict (r.path <> " (deleted locally, edited on server — kept server copy)")

  unfoldable pub keep_local_copy : Reconcile → M (Unit {0})
  keep_local_copy r = do
    upload_file h r.path
    note_upload r
    note_conflict (r.path <> " (deleted on server, edited locally — kept local copy)")

  unfoldable pub backup_remote_and_push_local : Reconcile → M (Unit {0})
  backup_remote_and_push_local r = do
    body ← download h r.path
    write_conflict_copy r.path body
    upload_file h r.path
    note_upload r

  unfoldable pub backup_local_and_pull_remote : Reconcile → M (Unit {0})
  backup_local_and_pull_remote r = do
    body ← read_disk r.path
    write_conflict_copy r.path body
    download_file h r.path
    note_download r

  unfoldable pub resolve_single_writer : Reconcile → M (Unit {0})
  resolve_single_writer r =
      if local_wins h r.local r.remote
      then (do upload_file h r.path; note_upload r)
      else (do download_file h r.path; note_download r)

  unfoldable pub resolve_edits : Reconcile → M (Unit {0})
  unfolding backup_remote_and_push_local backup_local_and_pull_remote
  resolve_edits r = do
    if local_wins h r.local r.remote
        then backup_remote_and_push_local r
        else backup_local_and_pull_remote r
    note_conflict (r.path <> " (edited on both, losing copy at .conflicts/" <> r.path <> ")")

  unfoldable pub resolve_conflict : Reconcile → M (Unit {0})
  unfolding keep_server_copy keep_local_copy resolve_single_writer resolve_edits
  resolve_conflict r =
      if r.local.checksum == ""
      then keep_server_copy r
      else if r.remote.checksum == ""
      then keep_local_copy r
      else if single_writer r.path
      then resolve_single_writer r
      else resolve_edits r

-- backedUpPath: "" stands for a file that is no backup.
unfoldable pub backed_up_path : String → String
unfolding cut_prefix cut_suffix
backed_up_path rel = elim (cut_prefix rel ".conflicts/") [
  | some page ↦ page
  | none ↦ elim (cut_suffix rel ".conflict") [ some page ↦ page | none ↦ "" ]
]

unfoldable pub backup_pages : Files → List String
backup_pages [] = []
backup_pages ((p, f) ∷ rest) =
    let pages = backup_pages rest in
    let page = backed_up_path p in
    if reached (λ d. not (has_prefix d ".conflicts") && skip_walk_dir d) (parents p)
      && not (page == "")
    then page ∷ pages
    else pages

-- ConflictBackups
unfoldable pub conflict_backups : Files → List String
unfolding backup_pages sort_strings
conflict_backups disk = sort_strings (backup_pages disk)

-- Both places where a backup of the page may lie.
unfoldable pub prune_page : String → M (Unit {0})
unfolding conflict_path remove_local
prune_page page = do remove_local (conflict_path page); remove_local (page <> ".conflict")

unfoldable pub prune_pages : List String → M (Unit {0})
prune_pages [] = pure tt
prune_pages (page ∷ pages) = do
  if single_writer page then prune_page page else pure tt
  prune_pages pages

-- pruneSingleWriterConflicts
unfoldable pub prune_single_writer_conflicts : M (Unit {0})
unfolding prune_pages conflict_backups
prune_single_writer_conflicts = do pages ← gets (λ s. conflict_backups s.disk); prune_pages pages
