-- ===== src/Sync/Tests.antt =====
-- Runs of the sync on two small trees, and its theorems at concrete data.
use jardin.Base.{
  ℕ, sym, map, ◌⊎◌, inl, inr, All, ◌<◌, String, ◌<>◌, Bool, true, false, none, some, List, [], ◌∷◌,
  ◌≡◌, ◌≢◌, refl, arith, contains, ◌||◌, ◌&&◌, not,
}
use jardin.Base.{◌==◌, string_eq, nat_eq, if◌then◌else◌}
use jardin.Base.Dict
use jardin.Base.Dict.{NodupKeys}
use jardin.Base.Text.{
  has_prefix, has_suffix, has_text, cut_prefix, cut_suffix, text_lt, parents, sort_strings,
}
use jardin.Sync.Types.{
  attempt, Host, File, State, files, SyncResult, empty_result, Result, ok, err, bulk_total,
}
use jardin.Sync.Remote.{
  in_package_dir, server_skip, resolve_sync_path, write_file, sync_tree, tree, upload, download,
  delete,
}
use jardin.Sync.Disk.{
  sync_skip, skip_walk_dir, reached, listed, local_tree, read_disk, write_disk, upload_file,
  download_file,
}
use jardin.Sync.Manifest.{
  load_manifest, save_manifest, index_by_path, entry_at, base_at, union_paths, set_base, parse_time,
}
use jardin.Sync.Conflict.{
  Reconcile, backup_remote_and_push_local, resolve_edits, single_writer, local_wins,
  write_conflict_copy, backed_up_path, conflict_backups, resolve_conflict, prune_page,
  prune_single_writer_conflicts, conflict_path,
}
use jardin.Sync.Reconcile.{reconcile_path, reconcile_all, planned_deletes, settle, sync}
use jardin.Sync.Sums.{IsShared, disk_sum, server_sum}
use jardin.Sync.Frame.{Leaves}
use jardin.Sync.Converge.{IsSeen, IsSettled, reconcile_path-IsSettled}
use jardin.Sync.NoLoss.{AtHome, KeepsBoth, reconcile_path-KeepsBoth}
use jardin.Sync.Elsewhere.{view, view-reconcile_path}
use jardin.Sync.Synced.{IsSynced, visited, sync-IsSynced}
use jardin.Sync.Guard.{sync_reconciles, sync_plan, sync_refuses}
use jardin.Sync.Outcome.{is_present}
use jardin.Sync.Deleted.{is_planned, sync-deletes}

-- Checksums that tell any two contents apart, and plain paths.
abbrev host : Host
host = record {
  checksum = λ body. "#" <> body;
  routed = λ p. p;
  clean = λ p. p;
  parse_nano = λ t. if t == "noon" then some 12 else if t == "dawn" then some 6 else none;
  parse_second = λ t. none;
}

abbrev file : String → String → File
file body time = record { content = body; mod_time = time; locked = false }

abbrev before : State
before = record {
  disk = ("a.md", file "mine" "noon") ∷ ("new.md", file "n" "noon") ∷ [];
  server = ("a.md", file "theirs" "dawn") ∷ ("old.md", file "o" "dawn") ∷ [];
  manifest = files (("a.md", "#base") ∷ ("old.md", "#o") ∷ []);
  now = "now";
  faults = [];
  torn = none;
  next = [];
  res = empty_result;
}

run : Bool → State → Result SyncResult × State
unfolding sync load_manifest tree local_tree listed reached skip_walk_dir sync_skip server_skip
    in_package_dir has_prefix has_suffix has_text parents string_eq nat_eq Dict.lookup Dict.insert
    Dict.erase sync_tree index_by_path union_paths Dict.keys sort_strings planned_deletes entry_at
    base_at bulk_total settle reconcile_all reconcile_path set_base resolve_conflict single_writer
    local_wins parse_time text_lt cut_prefix resolve_sync_path write_file upload_file download_file
    upload download delete conflict_path write_conflict_copy conflict_backups backed_up_path
    prune_page cut_suffix prune_single_writer_conflicts save_manifest
run = sync host

-- A new file here, and one that is on the server and was deleted here.
abbrev small : State
small = record {
  disk = ("a", file "1" "noon") ∷ [];
  server = ("b", file "2" "dawn") ∷ [];
  manifest = files (("b", "#2") ∷ []);
  now = "now";
  faults = [];
  torn = none;
  next = [];
  res = empty_result;
}

-- What was sent to the server, deleted there, and backed up.
report : Result SyncResult × State → List String × List String × Bool
report (ok res, t) =
    (res.uploaded, res.deleted_remote, contains (Dict.keys t.disk) ".conflicts/a.md")
report (err e, t) = ([], [], false)

-- The new file and the newer edit go up, and the file that this machine deleted goes.
run_before : report (run false before) ≡ (("a.md" ∷ "new.md" ∷ []), ("old.md" ∷ []), true)
unfolding run report Dict.keys
run_before = refl

abbrev small_res : SyncResult
small_res = record {
  uploaded = "a" ∷ [];
  downloaded = [];
  deleted_local = [];
  deleted_remote = "b" ∷ [];
  conflicts = [];
}

abbrev small_end : State
small_end = record {
  disk = ("a", file "1" "noon") ∷ [];
  server = ("a", file "1" "now") ∷ [];
  manifest = files (("a", "#1") ∷ []);
  now = "now";
  faults = [];
  torn = none;
  next = ("a", "#1") ∷ [];
  res = small_res;
}

run_small : run false small ≡ (ok small_res, small_end)
unfolding run
run_small = refl

run_is_sync : run ≡ sync host
unfolding run
run_is_sync = refl

synced_small : sync host false small ≡ (ok small_res, small_end)
synced_small = rw (sym run_is_sync) run_small

-- Eleven files that were synced before and are gone from the disk.
abbrev letters : List String
letters = "a" ∷ "b" ∷ "c" ∷ "d" ∷ "e" ∷ "f" ∷ "g" ∷ "h" ∷ "i" ∷ "j" ∷ "k" ∷ []

abbrev wiped : State
wiped = record {
  disk = [];
  server = map (λ p. (p, file p "noon")) letters;
  manifest = files (map (λ p. (p, "#" <> p)) letters);
  now = "now";
  faults = [];
  torn = none;
  next = [];
  res = empty_result;
}

plan_total : State → ℕ
unfolding sync_plan sync_reconciles local_tree listed reached skip_walk_dir sync_skip server_skip
    in_package_dir has_prefix has_suffix has_text parents string_eq nat_eq Dict.lookup Dict.insert
    sync_tree index_by_path union_paths Dict.keys sort_strings planned_deletes entry_at base_at
    bulk_total text_lt
plan_total s = bulk_total (sync_plan host s)

wiped_total : plan_total wiped ≡ 11
unfolding plan_total
wiped_total = refl

wiped_many : 10 < bulk_total (sync_plan host wiped)
unfolding plan_total
wiped_many = omega (arith, wiped_total)

sync_refuses_example :
    ((res : SyncResult) → (sync host false wiped).0 ≢ ok res)
    × ((sync host false wiped).1.disk ≡ wiped.disk)
    × ((sync host false wiped).1.server ≡ wiped.server)
    × ((sync host false wiped).1.manifest ≡ wiped.manifest)
sync_refuses_example = sync_refuses host wiped wiped_many

-- The path of a page is shared.
page-IsShared : (p : String) → p ≡ "a" ⊎ p ≡ "b" → IsShared host p
unfolding resolve_sync_path sync_skip server_skip in_package_dir has_prefix has_suffix has_text
    parents reached skip_walk_dir string_eq nat_eq
page-IsShared p is_page = elim is_page [
  | inl e ↦
      rw e (record { resolved = refl; server_lists = refl; local_lists = refl; walked = refl })
  | inr e ↦
      rw e (record { resolved = refl; server_lists = refl; local_lists = refl; walked = refl })
]

-- One path that both sides edited.
abbrev edited : State
edited = record {
  disk = ("a", file "mine" "noon") ∷ [];
  server = ("a", file "theirs" "dawn") ∷ [];
  manifest = files (("a", "#base") ∷ []);
  now = "now";
  faults = [];
  torn = none;
  next = ("a", "#base") ∷ [];
  res = empty_result;
}

abbrev edited_pair : Reconcile
edited_pair = record {
  path = "a";
  local = record { path = "a"; checksum = "#mine"; size = 4; mod_time = "noon" };
  remote = record { path = "a"; checksum = "#theirs"; size = 6; mod_time = "dawn" };
  base = "#base";
}

edited-IsShared : IsShared host "a"
edited-IsShared = page-IsShared "a" (inl refl)

edited-IsSeen : IsSeen host edited_pair edited
unfolding disk_sum server_sum listed reached skip_walk_dir sync_skip server_skip in_package_dir
    has_prefix has_suffix has_text parents string_eq nat_eq Dict.lookup
edited-IsSeen = record { local = refl; remote = refl }

edited-AtHome : AtHome "a" "mine" "theirs" edited
unfolding Dict.lookup string_eq nat_eq
edited-AtHome = record { at_disk = refl; at_server = refl }

run_edited : (reconcile_path host edited_pair edited).0 ≡ ok tt
unfolding reconcile_path resolve_conflict single_writer local_wins cut_prefix has_text parse_time
    text_lt backup_remote_and_push_local resolve_edits download write_conflict_copy upload_file
    upload read_disk write_disk write_file conflict_path resolve_sync_path has_prefix has_suffix
    in_package_dir string_eq nat_eq Dict.lookup Dict.insert attempt server_skip
run_edited = refl

reconcile_path-IsSettled_example : IsSettled host "a" (reconcile_path host edited_pair edited).1
reconcile_path-IsSettled_example =
    reconcile_path-IsSettled host edited_pair edited-IsShared edited edited-IsSeen run_edited

abbrev same : String → String → Bool
same s t = s == t

differ : (s t : String) → same s t ≡ false → s ≢ t
differ s t e = ground arith

base_unlike : (same "#mine" "#base" ≡ false) × (same "#theirs" "#base" ≡ false)
unfolding string_eq nat_eq
base_unlike = (refl, refl)

sides_unlike : same "#mine" "#theirs" ≡ false
unfolding string_eq nat_eq
sides_unlike = refl

none_missing : (same "#mine" "" ≡ false) × (same "#theirs" "" ≡ false)
unfolding string_eq nat_eq
none_missing = (refl, refl)

other_page : same "b" "a" ≡ false
unfolding string_eq nat_eq
other_page = refl

no_prefix : single_writer "a" ≡ false
unfolding single_writer cut_prefix has_text string_eq nat_eq
no_prefix = refl

reconcile_path-KeepsBoth_example :
    KeepsBoth "a" "mine" "theirs" (reconcile_path host edited_pair edited).1
reconcile_path-KeepsBoth_example =
    reconcile_path-KeepsBoth host edited_pair "mine" "theirs" edited-IsShared edited edited-AtHome
      (differ _ _ base_unlike.0) (differ _ _ base_unlike.1) (differ _ _ sides_unlike)
      (differ _ _ none_missing.0) (differ _ _ none_missing.1) no_prefix

view-reconcile_path_example : Leaves (view host "b") (reconcile_path host edited_pair)
view-reconcile_path_example =
    view-reconcile_path host "b" (IsShared.local_lists (page-IsShared "b" (inr refl))) edited_pair
      (differ _ _ other_page) edited-IsShared

small_nodup : NodupKeys small.disk × NodupKeys small.server
unfolding Dict.lookup
small_nodup = ((refl, tt), (refl, tt))

visited_by : State → List String
unfolding local_tree listed reached skip_walk_dir sync_skip server_skip in_package_dir has_prefix
    has_suffix has_text parents string_eq nat_eq Dict.lookup Dict.insert sync_tree index_by_path
    union_paths Dict.keys sort_strings text_lt
visited_by s = visited host s

visited-small : visited host small ≡ "a" ∷ "b" ∷ []
unfolding visited_by
visited-small = by_run
  where
    by_run : visited_by small ≡ "a" ∷ "b" ∷ []
    by_run = refl

All-IsShared : All (IsShared host) (visited host small)
All-IsShared = rw visited-small (page-IsShared "a" (inl refl), (page-IsShared "b" (inr refl), tt))

sync-IsSynced_example : IsSynced host "b" small_end
sync-IsSynced_example =
    sync-IsSynced host false small small_end small_res small_nodup.0 small_nodup.1 All-IsShared
      synced_small "b" (page-IsShared "b" (inr refl))

sync-deletes_example :
    (small_res.deleted_local ≡ (sync_plan host small).local)
    × (small_res.deleted_remote ≡ (sync_plan host small).remote)
    × (is_present (disk_sum host "b" small_end.disk) ≡ (
        (is_present (disk_sum host "b" small.disk) || is_present (server_sum host "b" small.server))
        && not (is_planned (sync_plan host small) "b")))
    × (server_sum host "b" small_end.server ≡ disk_sum host "b" small_end.disk)
sync-deletes_example =
    sync-deletes host false small small_end small_res small_nodup.0 small_nodup.1 All-IsShared
      synced_small "b" (page-IsShared "b" (inr refl))
