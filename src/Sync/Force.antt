-- ===== src/Sync/Force.antt =====
-- Push, Pull and ResetBase of internal/sync/transfer.go: the one-directional ways.
use jardin.Base.{String, Bool, true, not, Option, none, some, List, [], ◌∷◌, ◌++◌}
use jardin.Base.{◌==◌, string_eq, if◌then◌else◌}
use jardin.Base.Dict
use jardin.Base.Dict.{Dict}
use jardin.Sync.Types.{
  Host, FileEntry, SyncResult, empty_result, missing, M, manifest_failed, ◌>>=◌, ◌>>◌, pure, gets,
  modify, attempt,
}
use jardin.Sync.Remote.{tree}
use jardin.Sync.Disk.{local_tree, upload_file, download_file}
use jardin.Sync.Manifest.{load_manifest, save_manifest, index_by_path}

-- Does the other side lack this entry's content?
abbrev pub is_stale : FileEntry → Option FileEntry → Bool
is_stale e none = true
is_stale e (some other) = not (e.checksum == other.checksum)

module _ (h : Host) where
  -- The loop of Push. The base under construction is `next`.
  unfoldable pub push_all : Dict String FileEntry → List FileEntry → M (Unit {0})
  push_all remote [] = pure tt
  push_all remote (l ∷ ls) =
      let rest = push_all remote ls in
      do
        if is_stale l (Dict.lookup l.path remote)
            then (do
              upload_file h l.path
              modify (λ s. record s {
                res = record (s.res) { uploaded = s.res.uploaded ++ (l.path ∷ []) };
              }))
            else pure tt
        modify (λ s. record s { next = Dict.insert l.path l.checksum s.next })
        rest

  unfoldable pub push : M SyncResult
  push = do
    local ← gets (λ s. local_tree h s.disk)
    remote ← tree h
    base ← load_manifest
    modify (λ s. record s { next = base; res = empty_result })
    push_all (index_by_path remote) local
    next ← gets (λ s. s.next)
    save_manifest next
    gets (λ s. s.res)

  -- The loop of Pull.
  unfoldable pub pull_all : Dict String FileEntry → List FileEntry → M (Unit {0})
  pull_all local [] = pure tt
  pull_all local (r ∷ rs) =
      let rest = pull_all local rs in
      do
        if is_stale r (Dict.lookup r.path local)
            then (do
              download_file h r.path
              modify (λ s. record s {
                res = record (s.res) { downloaded = s.res.downloaded ++ (r.path ∷ []) };
              }))
            else pure tt
        modify (λ s. record s { next = Dict.insert r.path r.checksum s.next })
        rest

  unfoldable pub pull : M SyncResult
  pull = do
    local ← gets (λ s. local_tree h s.disk)
    remote ← tree h
    base ← load_manifest
    modify (λ s. record s { next = base; res = empty_result })
    pull_all (index_by_path local) remote
    next ← gets (λ s. s.next)
    save_manifest next
    gets (λ s. s.res)

-- ResetBase
unfoldable pub reset_base : M (Unit {0})
unfolding attempt
reset_base = do attempt manifest_failed; modify (λ s. record s { manifest = missing })
