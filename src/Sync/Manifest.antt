-- ===== src/Sync/Manifest.antt =====
-- internal/sync/manifest.go: the checksums at the last sync, and maps from paths.
use jardin.Base.{ℕ, String, Option, none, some, List, [], ◌∷◌, contains}
use jardin.Base.{◌==◌, string_eq, if◌then◌else◌}
use jardin.Base.Dict
use jardin.Base.Dict.{Dict}
use jardin.Base.Text.{sort_strings}
use jardin.Sync.Types.{
  Host, FileEntry, zero_entry, Manifest, missing, unreadable, corrupt, files, M, manifest_failed,
  ◌>>=◌, ◌>>◌, pure, fail, gets, modify, attempt, or_leaves,
}

-- loadManifest
unfoldable pub load_manifest : M (Dict String String)
unfolding attempt
load_manifest = do
  attempt manifest_failed
  found ← gets (λ s. s.manifest)
  elim found [
    | missing ↦ pure []
    | unreadable ↦ fail manifest_failed
    | corrupt ↦ pure []
    | files m ↦ pure m
  ]

-- What a save that fails leaves: a part of the JSON does not decode.
abbrev torn_manifest : Option String → Manifest → Manifest
torn_manifest none m = m
torn_manifest (some part) m = corrupt

-- saveManifest
unfoldable pub save_manifest : Dict String String → M (Unit {0})
unfolding attempt
save_manifest m = do
  or_leaves (attempt manifest_failed) (λ s. record s { manifest = torn_manifest s.torn s.manifest })
  modify (λ s. record s { manifest = files m })

-- indexByPath: a later entry of the same path replaces an earlier one.
unfoldable pub index_onto : Dict String FileEntry → List FileEntry → Dict String FileEntry
index_onto m [] = m
index_onto m (e ∷ entries) = index_onto (Dict.insert e.path e m) entries

unfoldable pub index_by_path : List FileEntry → Dict String FileEntry
unfolding index_onto
index_by_path = index_onto []

-- What a map of entries or of checksums gives for a path, the zero value if the path is missing.
abbrev entry_or : Option FileEntry → FileEntry
entry_or none = zero_entry
entry_or (some e) = e

unfoldable pub entry_at : Dict String FileEntry → String → FileEntry
entry_at m p = entry_or (Dict.lookup p m)

abbrev pub text_or : Option String → String
text_or none = ""
text_or (some t) = t

unfoldable pub base_at : Dict String String → String → String
base_at m p = text_or (Dict.lookup p m)

-- The set `seen` of unionPaths.
unfoldable pub add_seen : List String → List String → List String
add_seen [] seen = seen
add_seen (p ∷ ps) seen = add_seen ps (if contains seen p then seen else p ∷ seen)

-- unionPaths
unfoldable pub union_paths :
    Dict String FileEntry → Dict String FileEntry → Dict String String → List String
unfolding add_seen Dict.keys sort_strings
union_paths local remote base =
    sort_strings
      (add_seen (Dict.keys base) (add_seen (Dict.keys remote) (add_seen (Dict.keys local) [])))

-- setBase
unfoldable pub set_base : Dict String String → String → String → Dict String String
set_base base p sum = if sum == "" then Dict.erase p base else Dict.insert p sum base

-- parseTime
unfoldable pub parse_time : Host → String → Option ℕ
parse_time h t =
    if t == "" then none else elim (h.parse_nano t) [ some n ↦ some n | none ↦ h.parse_second t ]
