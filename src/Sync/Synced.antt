-- ===== src/Sync/Synced.antt =====
-- A whole sync that succeeds: the two trees and the manifest agree on every shared path.
use jardin.Base.{
  String, ◌<>◌, Bool, true, false, none, List, [], ◌∷◌, ◌≡◌, ◌≢◌, sym, ap, ◌∙◌, arith, contains,
  All,
}
use jardin.Base.{string_eq, if◌then◌else◌, Bool-cases, inl, inr}
use jardin.Base.Dict
use jardin.Base.Text.{has_suffix}
use jardin.Base.Dict.{Dict, NodupKeys}
use jardin.Sync.Types.{Host, State, SyncResult, FileEntry, empty_result, pure, ok}
use jardin.Sync.Conflict.{
  conflict_path, conflict_backups, prune_page, prune_pages, single_writer,
  prune_single_writer_conflicts,
}
use jardin.Sync.Disk.{sync_skip, remove_local, local_tree}
use jardin.Sync.Remote.{sync_tree, tree}
use jardin.Sync.Frame.{Leaves, Leaves-bind, frame_rules}
use jardin.Sync.Guard.{known}
use jardin.Sync.Manifest.{
  base_at, entry_at, index_by_path, union_paths, load_manifest, save_manifest,
}
use jardin.Sync.Reconcile.{reconcile_at, reconciles, reconcile_all, settle, sync}
use jardin.Sync.Sums.{IsShared, disk_sum, server_sum}
use jardin.Sync.Elsewhere.{view, view-remove_local, not_backup}
use jardin.Base.Text.Affix.{has_suffix-conflict}
use jardin.Sync.Whole.{Ready, run-IsSettled, view-run}
use jardin.Base.{IsNodup}
use jardin.Sync.Paths.{union_paths-IsNodup, union_paths-misses, index-disk_sum, index-server_sum}

sibling-skipped : (p : String) → has_suffix p ".conflict" ≡ true → sync_skip p ≡ true
unfolding sync_skip
sibling-skipped p h = ground arith

not_sibling : (q page : String) → sync_skip q ≡ false → q ≢ page <> ".conflict"
not_sibling q page shown e =
    cc (ap sync_skip e, sibling-skipped (page <> ".conflict") (has_suffix-conflict page))

module _ (h : Host) (q : String) (shown : sync_skip q ≡ false) where
  view-prune_page : (page : String) → Leaves (view h q) (prune_page page)
  unfolding prune_page
  view-prune_page page =
      Leaves-bind (remove_local (conflict_path page)) (λ _. remove_local (page <> ".conflict"))
        (view-remove_local h q (conflict_path page) (not_backup q page shown))
        (λ _. view-remove_local h q (page <> ".conflict") (not_sibling q page shown))

  pub view-prune_pages : (pages : List String) → Leaves (view h q) (prune_pages pages)
  unfolding prune_pages
  view-prune_pages [] = search frame_rules
  view-prune_pages (page ∷ pages) =
      Leaves-bind (if single_writer page then prune_page page else pure tt) (λ _. prune_pages pages)
        (search (frame_rules, view-prune_page)) (λ _. view-prune_pages pages)

-- Disk, server and manifest agree on a path.
pub record IsSynced (h : Host) (q : String) (t : State) : Type 0 where
  pub alike : disk_sum h q t.disk ≡ server_sum h q t.server
  pub recorded : base_at (known t.manifest) q ≡ disk_sum h q t.disk

module _ (h : Host) (local remote : Dict String FileEntry) (base : Dict String String) where
  settle-IsSynced :
      (ps : List String) (s t : State) (res : SyncResult) (q : String)
      → Ready h local remote base ps (record s { next = base; res = empty_result })
      → IsNodup ps
      → IsShared h q
      → contains ps q ≡ true
      → settle h base (reconciles ps local remote base) s ≡ (ok res, t)
      → IsSynced h q t
  unfolding settle prune_single_writer_conflicts save_manifest
  settle-IsSynced ps s t res q a u shown here e =
      let started : State = record s { next = base; res = empty_result } in
      let settled : State = (reconcile_all h (reconciles ps local remote base) started).1 in
      ground (
        arith,
        run-IsSettled h local remote base ps started q a u shown here,
        (view-prune_pages h q shown.local_lists (conflict_backups settled.disk)).at settled,
      )

  -- What the listings and the manifest show, as Sync reads it.
  pub Ready-start :
      (ps : List String) (s : State)
      → ((q : String) → (entry_at local q).checksum ≡ disk_sum h q s.disk)
      → ((q : String) → (entry_at remote q).checksum ≡ server_sum h q s.server)
      → All (IsShared h) ps
      → Ready h local remote base ps s
  unfolding reconcile_at
  Ready-start [] s hl hr a = tt
  Ready-start (p ∷ ps) s hl hr (shared, a) =
      ((shared, record { local = hl p; remote = hr p }), Ready-start ps s hl hr a)

  -- A path in none of the maps is agreed on from the start, and stays so.
  settle-misses :
      (ps : List String) (s t : State) (res : SyncResult) (q : String)
      → Ready h local remote base ps (record s { next = base; res = empty_result })
      → IsNodup ps
      → IsShared h q
      → contains ps q ≡ false
      → disk_sum h q s.disk ≡ ""
      → server_sum h q s.server ≡ ""
      → base_at base q ≡ ""
      → settle h base (reconciles ps local remote base) s ≡ (ok res, t)
      → IsSynced h q t
  unfolding settle prune_single_writer_conflicts save_manifest
  settle-misses ps s t res q a u shown away hd hs hb e =
      let started : State = record s { next = base; res = empty_result } in
      let settled : State = (reconcile_all h (reconciles ps local remote base) started).1 in
      ground (
        arith,
        view-run h local remote base ps started q a u shown away,
        (view-prune_pages h q shown.local_lists (conflict_backups settled.disk)).at settled,
      )

pub entry_at_missing :
    (m : Dict String FileEntry) (q : String) → Dict.lookup q m ≡ none → (entry_at m q).checksum ≡ ""
unfolding entry_at
entry_at_missing m q e = ground arith

base_at_missing : (m : Dict String String) (q : String) → Dict.lookup q m ≡ none → base_at m q ≡ ""
unfolding base_at
base_at_missing m q e = ground arith

-- The paths that a sync will visit.
abbrev pub visited : Host → State → List String
visited h s =
    union_paths (index_by_path (local_tree h s.disk)) (index_by_path (sync_tree h s.server))
      (known s.manifest)

module _ (h : Host) (allow : Bool) (s t : State) (res : SyncResult) where
  abbrev pub local_map : Dict String FileEntry
  local_map = index_by_path (local_tree h s.disk)

  abbrev pub remote_map : Dict String FileEntry
  remote_map = index_by_path (sync_tree h s.server)

  -- Past the guard, with the manifest and the server's listing read.
  abbrev pub ready : State
  ready = (tree h (load_manifest s).1).1

  pub same_trees : (ready.disk ≡ s.disk) × (ready.server ≡ s.server)
  unfolding tree load_manifest
  same_trees = ground arith

  pub sync-settle :
      sync h allow s ≡ (ok res, t)
      → settle h
          (known s.manifest)
          (reconciles (visited h s) local_map remote_map (known s.manifest))
          ready
        ≡ (ok res, t)
  unfolding sync load_manifest tree
  sync-settle e = ground arith

  -- Let no path stand twice in either tree, and let every path that a sync visits be shared (both
  -- listings show it and the server takes it for itself). A sync that then succeeds leaves the disk,
  -- the server and the saved manifest in agreement on every shared path: each has the same checksum
  -- of it, or none has it.
  pub sync-IsSynced :
      NodupKeys s.disk
      → NodupKeys s.server
      → All (IsShared h) (visited h s)
      → sync h allow s ≡ (ok res, t)
      → (q : String) → IsShared h q
      → IsSynced h q t
  sync-IsSynced ud us shared e q shown =
      let base : Dict String String = known s.manifest in
      let start : State = record (ready) { next = base; res = empty_result } in
      let hd : (p : String) → (entry_at local_map p).checksum ≡ disk_sum h p start.disk =
        λ p. rw same_trees.0 (index-disk_sum h p s.disk ud) in
      let hr : (p : String) → (entry_at remote_map p).checksum ≡ server_sum h p start.server =
        λ p. rw same_trees.1 (index-server_sum h p s.server us) in
      let a : Ready h local_map remote_map base (visited h s) start =
        Ready-start h local_map remote_map base (visited h s) start hd hr shared in
      let u : IsNodup (visited h s) = union_paths-IsNodup local_map remote_map base in
      elim (Bool-cases (contains (visited h s) q)) [
        | inl here ↦
            settle-IsSynced h local_map remote_map base (visited h s) ready t res q a u shown here
              (sync-settle e)
        | inr away ↦
            let m = union_paths-misses local_map remote_map base q away in
            settle-misses h local_map remote_map base (visited h s) ready t res q a u shown away
              (sym (hd q) ∙ entry_at_missing local_map q m.0)
              (sym (hr q) ∙ entry_at_missing remote_map q m.1) (base_at_missing base q m.2)
              (sync-settle e)
      ]
