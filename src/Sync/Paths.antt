-- ===== src/Sync/Paths.antt =====
-- The maps that Sync builds: an index holds what its listing holds, and the union of the keys has
-- each key once.
use jardin.Base.{
  String, Bool, true, false, not, ◌||◌, Option, none, some, List, [], ◌∷◌, ◌≡◌, refl, arith,
  contains, IsNodup, ◌∙◌,
}
use jardin.Base.{string_eq, if◌then◌else◌}
use jardin.Base.Dict
use jardin.Base.Dict.{Dict, NodupKeys, keys, lookup, lookup-insert}
use jardin.Base.Text.{insert_sorted, sort_strings}
use jardin.Base.Text.Sorting.{contains-insert_sorted, contains-sort_strings}
use jardin.Sync.Types.{Host, File, Files, FileEntry}
use jardin.Sync.Remote.{server_skip, server_entry, sync_tree}
use jardin.Sync.Disk.{listed, local_entry, local_tree}
use jardin.Sync.Manifest.{index_onto, index_by_path, entry_at, add_seen, union_paths}
use jardin.Sync.Sums.{disk_sum, server_sum}

insert_sorted-IsNodup :
    (p : String) (ps : List String)
    → contains ps p ≡ false
    → IsNodup ps
    → IsNodup (insert_sorted p ps)
unfolding insert_sorted
insert_sorted-IsNodup p [] fresh u = ground arith
insert_sorted-IsNodup p (q ∷ ps) fresh u =
    ground (arith, insert_sorted-IsNodup p ps, contains-insert_sorted p q ps)

sort_strings-IsNodup : (ps : List String) → IsNodup ps → IsNodup (sort_strings ps)
unfolding sort_strings
sort_strings-IsNodup [] u = tt
sort_strings-IsNodup (p ∷ ps) u =
    insert_sorted-IsNodup p (sort_strings ps) (contains-sort_strings ps p ∙ u.0)
      (sort_strings-IsNodup ps u.1)

add_seen-IsNodup : (ps seen : List String) → IsNodup seen → IsNodup (add_seen ps seen)
unfolding add_seen
add_seen-IsNodup [] seen u = u
add_seen-IsNodup (p ∷ ps) seen u = add_seen-IsNodup ps _ (ground arith)

contains-add_seen :
    (ps seen : List String) (q : String)
    → contains (add_seen ps seen) q ≡ (contains ps q || contains seen q)
unfolding add_seen
contains-add_seen [] seen q = refl
contains-add_seen (p ∷ ps) seen q = contains-add_seen ps _ q ∙ ground arith

module _ (local remote : Dict String FileEntry) (base : Dict String String) where
  pub union_paths-IsNodup : IsNodup (union_paths local remote base)
  unfolding union_paths
  union_paths-IsNodup =
      let one = add_seen (keys local) [] in
      let two = add_seen (keys remote) one in
      sort_strings-IsNodup (add_seen (keys base) two) (
        add_seen-IsNodup (keys base) two
          (add_seen-IsNodup (keys remote) one (add_seen-IsNodup (keys local) [] tt)))

contains-keys :
    {V : Type 0} (d : Dict String V) (q : String) → contains (keys d) q ≡ false → lookup q d ≡ none
unfolding keys lookup
contains-keys [] q h = refl
contains-keys (_ ∷ d) q h = ground (arith, contains-keys d q)

module _ (local remote : Dict String FileEntry) (base : Dict String String) (q : String) where
  -- A path outside the union is in none of the three maps.
  pub union_paths-misses :
      contains (union_paths local remote base) q ≡ false
      → (lookup q local ≡ none) × (lookup q remote ≡ none) × (lookup q base ≡ none)
  unfolding union_paths
  union_paths-misses h = ground (
    arith,
    contains-sort_strings (add_seen (keys base) (add_seen (keys remote) (add_seen (keys local) [])))
        q,
    contains-add_seen (keys base) (add_seen (keys remote) (add_seen (keys local) [])) q,
    contains-add_seen (keys remote) (add_seen (keys local) []) q,
    contains-add_seen (keys local) [] q,
    contains-keys local q,
    contains-keys remote q,
    contains-keys base q,
  )

-- An index gives, for each path, the last entry of that path.
abbrev checksum_onto : Dict String FileEntry → String → String
checksum_onto m q = (entry_at m q).checksum

-- What a listing that shows one file adds to a map of checksums.
abbrev shows : Bool → String → String → String
shows true sum before = sum
shows false sum before = before

module _ (h : Host) (q : String) where
  abbrev local_over : Option File → String → String
  local_over none before = before
  local_over (some f) before = shows (listed q f) (h.checksum f.content) before

  abbrev remote_over : Option File → String → String
  remote_over none before = before
  remote_over (some f) before =
      shows (not (server_skip q)) (h.checksum (if f.locked then "" else f.content)) before

  index_local :
      (disk : Files) (m : Dict String FileEntry)
      → NodupKeys disk
      → checksum_onto (index_onto m (local_tree h disk)) q
        ≡ local_over (lookup q disk) (checksum_onto m q)
  unfolding index_onto local_tree lookup entry_at
  index_local [] m u = refl
  index_local ((p, f) ∷ disk) m u = ground (
    arith,
    index_local disk (Dict.insert p (local_entry h p f) m) u.1,
    index_local disk m u.1,
    lookup-insert q p (local_entry h p f) m,
  )

  index_remote :
      (server : Files) (m : Dict String FileEntry)
      → NodupKeys server
      → checksum_onto (index_onto m (sync_tree h server)) q
        ≡ remote_over (lookup q server) (checksum_onto m q)
  unfolding index_onto sync_tree lookup entry_at
  index_remote [] m u = refl
  index_remote ((p, f) ∷ server) m u = ground (
    arith,
    index_remote server (Dict.insert p (server_entry h p f) m) u.1,
    index_remote server m u.1,
    lookup-insert q p (server_entry h p f) m,
  )

  pub index-disk_sum :
      (disk : Files)
      → NodupKeys disk
      → (entry_at (index_by_path (local_tree h disk)) q).checksum ≡ disk_sum h q disk
  unfolding index_by_path disk_sum
  index-disk_sum disk u = index_local disk [] u ∙ unfold entry_at lookup in ground arith

  pub index-server_sum :
      (server : Files)
      → NodupKeys server
      → (entry_at (index_by_path (sync_tree h server)) q).checksum ≡ server_sum h q server
  unfolding index_by_path server_sum
  index-server_sum server u = index_remote server [] u ∙ unfold entry_at lookup in ground arith
