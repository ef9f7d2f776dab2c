-- ===== src/Sync/Disk.antt =====
-- This machine's side of a sync: internal/sync/tree.go and transfer.go, and the calls of `os`.
use Prim.Native.String.{len}
use jardin.Base.{String, ◌<>◌, Bool, true, not, ◌&&◌, ◌||◌, none, some, List, [], ◌∷◌}
use jardin.Base.{◌==◌, string_eq, if◌then◌else◌}
use jardin.Base.Dict
use jardin.Base.Text.{has_prefix, has_suffix, parents}
use jardin.Sync.Types.{
  Host, File, Files, FileEntry, M, read_failed, write_failed, remove_failed, ◌>>=◌, ◌>>◌, pure,
  fail, gets, modify, attempt, or_leaves,
}
use jardin.Sync.Remote.{in_package_dir, write_file, tear, upload, download}

unfoldable pub sync_skip : String → Bool
sync_skip rel =
    rel == "tokens.json"
    || has_prefix rel "."
    || has_prefix rel "runs/"
    || has_prefix rel "local/"
    || in_package_dir rel
    || has_suffix rel ".conflict"
    || has_suffix rel ".tmp"
    || has_suffix rel ".log"

unfoldable pub skip_walk_dir : String → Bool
skip_walk_dir rel = not (rel == ".") && sync_skip (rel <> "/")

-- The walk reaches a file if it prunes none of the directories above it.
unfoldable pub reached : (String → Bool) → List String → Bool
reached prunes [] = true
reached prunes (d ∷ ds) = not (prunes d) && reached prunes ds

-- Does the walk list this file?
unfoldable pub listed : String → File → Bool
listed p f = reached skip_walk_dir (parents p) && not (sync_skip p) && not f.locked

module _ (h : Host) where
  unfoldable pub local_entry : String → File → FileEntry
  local_entry p f = record {
    path = p;
    checksum = h.checksum f.content;
    size = len f.content;
    mod_time = f.mod_time;
  }

  -- LocalTree. The walk swallows every error, so a file that cannot be read is left out.
  unfoldable pub local_tree : Files → List FileEntry
  unfolding local_entry
  local_tree [] = []
  local_tree ((p, f) ∷ rest) =
      let entries = local_tree rest in if listed p f then local_entry p f ∷ entries else entries

-- os.ReadFile
unfoldable pub read_disk : String → M String
unfolding attempt
read_disk p = do
  attempt (read_failed p)
  found ← gets (λ s. Dict.lookup p s.disk)
  elim found [
    | none ↦ fail (read_failed p)
    | some f ↦ if f.locked then fail (read_failed p) else pure f.content
  ]

-- os.MkdirAll of the parent and os.WriteFile, which may leave a part of the file where it fails.
unfoldable pub write_disk : String → String → M (Unit {0})
unfolding attempt write_file tear
write_disk p body = do
  or_leaves (attempt (write_failed p)) (λ s. record s { disk = tear s.torn s.now p s.disk })
  after ← gets (λ s. write_file s.now p body s.disk)
  elim after [ none ↦ fail (write_failed p) | some disk ↦ modify (λ s. record s { disk = disk }) ]

-- removeLocal: os.Remove, where a missing file is no error.
unfoldable pub remove_local : String → M (Unit {0})
unfolding attempt
remove_local p = do attempt (remove_failed p); modify (λ s. record s { disk = Dict.erase p s.disk })

module _ (h : Host) where
  unfoldable pub upload_file : String → M (Unit {0})
  unfolding read_disk upload
  upload_file p = do body ← read_disk p; upload h p body

  unfoldable pub download_file : String → M (Unit {0})
  unfolding download write_disk
  download_file p = do body ← download h p; write_disk p body
