-- ===== src/Sync/Remote.antt =====
-- The server's side of a sync: internal/server/sync_api.go, and the client's calls of it
-- (internal/sync/client.go). Authentication and the choice of the space's root stand before these
-- handlers; a refusal there is a fault of the call.
use Prim.Native.String.{len}
use jardin.Base.{String, Bool, false, ◌||◌, Option, none, some, List, [], ◌∷◌}
use jardin.Base.{◌==◌, string_eq, if◌then◌else◌}
use jardin.Base.Dict
use jardin.Base.Text.{has_prefix, has_suffix, has_text}
use jardin.Sync.Types.{
  Host, File, Files, FileEntry, M, download_failed, upload_failed, delete_failed, tree_failed,
  ◌>>=◌, ◌>>◌, pure, fail, gets, modify, attempt, or_leaves,
}

-- The same rule stands in internal/sync/tree.go.
unfoldable pub in_package_dir : String → Bool
in_package_dir rel = has_prefix rel "node_modules/" || has_text rel "/node_modules/"

-- The server's rule. (Its path separator is the slash.)
unfoldable pub server_skip : String → Bool
server_skip rel =
    rel == "tokens.json"
    || has_prefix rel "."
    || has_prefix rel "runs/"
    || in_package_dir rel
    || has_suffix rel ".conflict"
    || has_suffix rel ".tmp"
    || rel == "spaces"
    || has_prefix rel "spaces/"

-- os.WriteFile: an existing file keeps its mode.
unfoldable pub write_file : String → String → String → Files → Option Files
write_file now p body tree = elim (Dict.lookup p tree) [
  | none ↦ some (Dict.insert p (record { content = body; mod_time = now; locked = false }) tree)
  | some f ↦
      if f.locked
      then none
      else some (Dict.insert p (record { content = body; mod_time = now; locked = false }) tree)
]

-- What an os.WriteFile that fails leaves: a part of the file, unless it could not be opened.
unfoldable pub tear : Option String → String → String → Files → Files
unfolding write_file
tear none now p tree = tree
tear (some part) now p tree = elim (write_file now p part tree) as (λ x. Files) [
  | none ↦ tree
  | some after ↦ after
]

module _ (h : Host) where
  -- Paths are relative to the root here, and a cleaned rooted path has no ".." left, so the last
  -- test of the source, that the joined path lies under the root, always passes.
  unfoldable pub resolve_sync_path : String → Option String
  resolve_sync_path rel =
      let clean = h.clean rel in if clean == "." || server_skip clean then none else some clean

  -- A file that cannot be read is listed with the checksum of no bytes.
  unfoldable pub server_entry : String → File → FileEntry
  server_entry p f = record {
    path = p;
    checksum = h.checksum (if f.locked then "" else f.content);
    size = len f.content;
    mod_time = f.mod_time;
  }

  unfoldable pub sync_tree : Files → List FileEntry
  unfolding server_entry
  sync_tree [] = []
  sync_tree ((p, f) ∷ rest) =
      let entries = sync_tree rest in if server_skip p then entries else server_entry p f ∷ entries

  -- The answer is the file's bytes, or a status other than 200.
  unfoldable pub sync_get_file : String → Files → Option String
  sync_get_file rel server = elim (resolve_sync_path rel) [
    | none ↦ none
    | some full ↦ elim (Dict.lookup full server) [
      | none ↦ none
      | some f ↦ if f.locked then none else some f.content
    ]
  ]

  -- The file tree after a PUT that answers 204; `torn_put` gives it after a write that fails on the way.
  unfoldable pub sync_put_file : String → String → String → Files → Option Files
  sync_put_file now rel body server = elim (resolve_sync_path rel) [
    | none ↦ none
    | some full ↦ write_file now full body server
  ]

  unfoldable pub sync_delete_file : String → Files → Option Files
  sync_delete_file rel server = elim (resolve_sync_path rel) [
    | none ↦ none
    | some full ↦ some (Dict.erase full server)
  ]

  -- Client.Tree
  unfoldable pub tree : M (List FileEntry)
  unfolding attempt
  tree = do attempt tree_failed; gets (λ s. sync_tree s.server)

  -- Client.Download. The handler sees the path as the router decodes it.
  unfoldable pub download : String → M String
  unfolding attempt sync_get_file
  download p = do
    attempt (download_failed p)
    server ← gets (λ s. s.server)
    elim (sync_get_file (h.routed p) server) [
      | none ↦ fail (download_failed p)
      | some body ↦ pure body
    ]

  -- What a PUT leaves whose write fails on the way.
  unfoldable pub torn_put : Option String → String → String → Files → Files
  unfolding tear
  torn_put torn now rel server = elim (resolve_sync_path rel) as (λ x. Files) [
    | none ↦ server
    | some full ↦ tear torn now full server
  ]

  -- Client.Upload
  unfoldable pub upload : String → String → M (Unit {0})
  unfolding attempt sync_put_file torn_put
  upload p body = do
    or_leaves (attempt (upload_failed p))
        (λ s. record s { server = torn_put s.torn s.now (h.routed p) s.server })
    after ← gets (λ s. sync_put_file s.now (h.routed p) body s.server)
    elim after [
      | none ↦ fail (upload_failed p)
      | some server ↦ modify (λ s. record s { server = server })
    ]

  -- Client.Delete
  unfoldable pub delete : String → M (Unit {0})
  unfolding attempt sync_delete_file
  delete p = do
    attempt (delete_failed p)
    after ← gets (λ s. sync_delete_file (h.routed p) s.server)
    elim after [
      | none ↦ fail (delete_failed p)
      | some server ↦ modify (λ s. record s { server = server })
    ]
