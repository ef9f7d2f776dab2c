-- ===== src/Sync/Sums.antt =====
-- What a tree shows of a path: the checksum that its listing gives, or none at all.
use Prim.Native.String.append
use jardin.Base.{String, ◌<>◌, true, false, Option, none, some, ◌≡◌, ◌≢◌, refl, ap, arith}
use jardin.Base.{string_eq, if◌then◌else◌}
use jardin.Base.Dict
use jardin.Base.Dict.{Dict, lookup-insert, lookup-erase}
use jardin.Base.Text.{has_prefix, parents}
use jardin.Sync.Types.{Host, File, Files, State, Result, ok, err}
use jardin.Sync.Remote.{server_skip, resolve_sync_path, write_file, tear, download, upload, delete}
use jardin.Sync.Disk.{
  sync_skip, skip_walk_dir, reached, listed, read_disk, write_disk, remove_local, upload_file,
  download_file,
}
use jardin.Sync.Conflict.{conflict_path, write_conflict_copy}

-- Paths that both listings show and that the server takes for themselves.
pub record IsShared (h : Host) (p : String) : Type 0 where
  pub resolved : resolve_sync_path h (h.routed p) ≡ some p
  pub server_lists : server_skip p ≡ false
  pub local_lists : sync_skip p ≡ false
  pub walked : reached skip_walk_dir (parents p) ≡ true

module _ (h : Host) where
  abbrev pub disk_sum_of : String → Option File → String
  disk_sum_of p none = ""
  disk_sum_of p (some f) = if listed p f then h.checksum f.content else ""

  -- The checksum in the local listing, "" if the path is not listed.
  unfoldable pub disk_sum : String → Files → String
  unfolding listed
  disk_sum p disk = disk_sum_of p (Dict.lookup p disk)

  abbrev pub server_sum_of : String → Option File → String
  server_sum_of p none = ""
  server_sum_of p (some f) =
      if server_skip p then "" else h.checksum (if f.locked then "" else f.content)

  unfoldable pub server_sum : String → Files → String
  server_sum p server = server_sum_of p (Dict.lookup p server)

conflict_path-cons : (p : String) → conflict_path p ≡ String.◌∷◌ "." ("conflicts/" <> p)
unfolding conflict_path
conflict_path-cons p = append.cons "." "conflicts/" p

-- A backup is never listed: the dot fences it.
pub conflict_path-skipped : (p : String) → sync_skip (conflict_path p) ≡ true
unfolding sync_skip has_prefix
conflict_path-skipped p = rw conflict_path-cons (ground arith)

pub conflict_path-ne : (p : String) → sync_skip p ≡ false → p ≢ conflict_path p
conflict_path-ne p shown e = cc (ap sync_skip e, conflict_path-skipped p)

-- A torn write touches no other path.
pub lookup-tear :
    (q p now : String) (torn : Option String) (tree : Files)
    → q ≢ p
    → Dict.lookup q (tear torn now p tree) ≡ Dict.lookup q tree
unfolding tear write_file
lookup-tear q p now none tree ne = refl
lookup-tear q p now (some part) tree ne =
    ground
      (arith, lookup-insert q p (record { content = part; mod_time = now; locked = false }) tree)

-- Which parts of the state each call leaves alone.
abbrev pub trees : State → Files × Files × Dict String String
trees s = (s.disk, s.server, s.next)

abbrev pub but_server : State → Files × Dict String String
but_server s = (s.disk, s.next)

abbrev pub but_disk : State → Files × Dict String String
but_disk s = (s.server, s.next)

module _ (s : State) where
  pub trees-read_disk : (p : String) → trees (read_disk p s).1 ≡ trees s
  unfolding read_disk
  trees-read_disk p = ground arith

  pub trees-download : (h : Host) (p : String) → trees (download h p s).1 ≡ trees s
  unfolding download
  trees-download h p = ground arith

  pub but_server-upload :
      (h : Host) (p body : String) → but_server (upload h p body s).1 ≡ but_server s
  unfolding upload
  but_server-upload h p body = ground arith

  pub but_server-delete : (h : Host) (p : String) → but_server (delete h p s).1 ≡ but_server s
  unfolding delete
  but_server-delete h p = ground arith

  pub but_disk-write_disk : (p body : String) → but_disk (write_disk p body s).1 ≡ but_disk s
  unfolding write_disk
  but_disk-write_disk p body = ground arith

  pub but_disk-remove_local : (p : String) → but_disk (remove_local p s).1 ≡ but_disk s
  unfolding remove_local
  but_disk-remove_local p = ground arith

pub but_disk-write_conflict_copy :
    (p body : String) (s : State) → but_disk (write_conflict_copy p body s).1 ≡ but_disk s
unfolding write_conflict_copy
but_disk-write_conflict_copy p body s = but_disk-write_disk s (conflict_path p) body

module _ (h : Host) (p : String) (shared : IsShared h p) (s : State) where
  disk_sum-read_disk :
      (body : String) → (read_disk p s).0 ≡ ok body → disk_sum h p s.disk ≡ h.checksum body
  unfolding read_disk disk_sum
  disk_sum-read_disk body e = ground (arith, shared.local_lists, shared.walked)

  server_sum-download :
      (body : String) → (download h p s).0 ≡ ok body → server_sum h p s.server ≡ h.checksum body
  unfolding download server_sum
  server_sum-download body e = ground (arith, shared.resolved, shared.server_lists)

  server_sum-upload :
      (body : String)
      → (upload h p body s).0 ≡ ok tt
      → server_sum h p (upload h p body s).1.server ≡ h.checksum body
  unfolding upload server_sum write_file
  server_sum-upload body e = ground (
    arith,
    shared.resolved,
    shared.server_lists,
    lookup-insert p p (record { content = body; mod_time = s.now; locked = false }) s.server,
  )

  pub server_sum-delete : (delete h p s).0 ≡ ok tt → server_sum h p (delete h p s).1.server ≡ ""
  unfolding delete server_sum
  server_sum-delete e = ground (arith, shared.resolved, lookup-erase p p s.server)

  disk_sum-write_disk :
      (body : String)
      → (write_disk p body s).0 ≡ ok tt
      → disk_sum h p (write_disk p body s).1.disk ≡ h.checksum body
  unfolding write_disk disk_sum write_file
  disk_sum-write_disk body e = ground (
    arith,
    shared.local_lists,
    shared.walked,
    lookup-insert p p (record { content = body; mod_time = s.now; locked = false }) s.disk,
  )

  pub disk_sum-remove_local :
      (remove_local p s).0 ≡ ok tt → disk_sum h p (remove_local p s).1.disk ≡ ""
  unfolding remove_local disk_sum
  disk_sum-remove_local e = ground (arith, lookup-erase p p s.disk)

  pub disk_sum-write_conflict_copy :
      (body : String) → disk_sum h p (write_conflict_copy p body s).1.disk ≡ disk_sum h p s.disk
  unfolding write_conflict_copy write_disk disk_sum write_file
  disk_sum-write_conflict_copy body = ground (
    arith,
    conflict_path-ne p shared.local_lists,
    lookup-tear p (conflict_path p) s.now s.torn s.disk,
    lookup-insert p (conflict_path p) (record { content = body; mod_time = s.now; locked = false })
        s.disk,
  )

-- A successful upload shows on the server what the disk showed, and a download the other way.
module _ (h : Host) (p : String) (shared : IsShared h p) (s : State) where
  after_read :
      (r : Result String) (t : State)
      → read_disk p s ≡ (r, t)
      → (upload_file h p s).0 ≡ ok tt
      → (server_sum h p (upload_file h p s).1.server ≡ disk_sum h p s.disk)
        × (but_server (upload_file h p s).1 ≡ but_server s)
  unfolding upload_file
  after_read (ok body) t read e = ground (
    arith,
    trees-read_disk s p,
    disk_sum-read_disk h p shared s body,
    server_sum-upload h p shared t body,
    but_server-upload t h p body,
  )
  after_read (err x) t read e = ground arith

  pub upload_file_lem :
      (upload_file h p s).0 ≡ ok tt
      → (server_sum h p (upload_file h p s).1.server ≡ disk_sum h p s.disk)
        × (but_server (upload_file h p s).1 ≡ but_server s)
  upload_file_lem = after_read (read_disk p s).0 (read_disk p s).1 refl

  after_download :
      (r : Result String) (t : State)
      → download h p s ≡ (r, t)
      → (download_file h p s).0 ≡ ok tt
      → (disk_sum h p (download_file h p s).1.disk ≡ server_sum h p s.server)
        × (but_disk (download_file h p s).1 ≡ but_disk s)
  unfolding download_file
  after_download (ok body) t read e = ground (
    arith,
    trees-download s h p,
    server_sum-download h p shared s body,
    disk_sum-write_disk h p shared t body,
    but_disk-write_disk t p body,
  )
  after_download (err x) t read e = ground arith

  pub download_file_lem :
      (download_file h p s).0 ≡ ok tt
      → (disk_sum h p (download_file h p s).1.disk ≡ server_sum h p s.server)
        × (but_disk (download_file h p s).1 ≡ but_disk s)
  download_file_lem = after_download (download h p s).0 (download h p s).1 refl
