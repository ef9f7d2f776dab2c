-- ===== src/Sync/Types.antt =====
-- The data of internal/sync: entries, results, errors, and the state that a sync reads and writes.
use jardin.Base.{ℕ, ◌+◌, String, Bool, true, false, Option, List, [], ◌∷◌, length}
use jardin.Base.Dict.{Dict}

-- What the program calls and this repository does not hold: sha256 in hexadecimal, the path that
-- the router hands to a handler, `filepath.Clean` of a rooted path less its leading slash, and
-- `time.Parse` under the two layouts (as nanoseconds).
pub record Host : Type 0 where
  pub checksum : String → String
  pub routed : String → String
  pub clean : String → String
  pub parse_nano : String → Option ℕ
  pub parse_second : String → Option ℕ

-- A file of either tree. A locked one can be neither read nor written by its process.
pub record File : Type 0 where
  pub content : String
  pub mod_time : String
  pub locked : Bool

abbrev pub Files : Type 0
Files = Dict String File

pub record FileEntry : Type 0 where
  pub path : String
  pub checksum : String
  pub size : ℕ
  pub mod_time : String

-- Go's zero value, which a map gives for a missing key.
abbrev pub zero_entry : FileEntry
zero_entry = record { path = ""; checksum = ""; size = 0; mod_time = "" }

pub record BulkDelete : Type 0 where
  pub local : List String
  pub remote : List String
  pub local_files : ℕ
  pub remote_files : ℕ

unfoldable pub bulk_total : BulkDelete → ℕ
bulk_total e = length e.local + length e.remote

abbrev pub max_silent_deletes : ℕ
max_silent_deletes = 10

pub record SyncResult : Type 0 where
  pub uploaded : List String
  pub downloaded : List String
  pub deleted_local : List String
  pub deleted_remote : List String
  pub conflicts : List String

abbrev pub empty_result : SyncResult
empty_result = record {
  uploaded = [];
  downloaded = [];
  deleted_local = [];
  deleted_remote = [];
  conflicts = [];
}

unfoldable pub result_total : SyncResult → ℕ
result_total r =
    length r.uploaded
    + length r.downloaded
    + length r.deleted_local
    + length r.deleted_remote
    + length r.conflicts

-- The manifest file, as reading and decoding it can turn out.
pub data Manifest : Type 0 where
  missing unreadable corrupt : Manifest
  files : Dict String String → Manifest

pub data Error : Type 0 where
  read_failed write_failed remove_failed : String → Error
  download_failed upload_failed delete_failed : String → Error
  tree_failed manifest_failed : Error
  bulk_delete : BulkDelete → Error

-- Both trees, the manifest, the instant that a written file is stamped with, and the manifest and
-- result under construction. Each call of the operating system or of the network takes one entry
-- of `faults`, and fails if that is true; past the end of the list every call succeeds. An os.WriteFile that
-- fails leaves the file with the bytes of `torn`, or as it was if that is none; a manifest is then corrupt. (A failure ends the sync.)
pub record State : Type 0 where
  pub disk : Files
  pub server : Files
  pub manifest : Manifest
  pub now : String
  pub faults : List Bool
  pub torn : Option String
  pub next : Dict String String
  pub res : SyncResult

pub data Result {ℓ} (A : Type ℓ) : Type ℓ where
  ok : A → Result A
  err : Error → Result A

-- A call that may return early with an error, and leaves what it had done by then.
abbrev pub M : Type 0 → Type 0
M A = State → Result A × State

infixl 5 ◌>>=◌ ◌>>◌
abbrev pub ◌>>=◌ : {A B : Type 0} → M A → (A → M B) → M B
◌>>=◌ m f s = let (r, t) = m s in elim r [ ok a ↦ f a t | err e ↦ (err e, t) ]

abbrev pub ◌>>◌ : {B : Type 0} → M (Unit {0}) → M B → M B
m >> k = m >>= λ _. k

abbrev pub pure : {A : Type 0} → A → M A
pure a s = (ok a, s)

abbrev pub fail : {A : Type 0} → Error → M A
fail e s = (err e, s)

abbrev pub gets : {A : Type 0} → (State → A) → M A
gets f s = (ok (f s), s)

abbrev pub modify : (State → State) → M (Unit {0})
modify f s = (ok tt, f s)

-- A call that, where it fails, leaves something behind.
abbrev pub or_leaves : M (Unit {0}) → (State → State) → M (Unit {0})
or_leaves m f s = let (r, t) = m s in elim r [ ok a ↦ (ok tt, t) | err e ↦ (err e, f t) ]

-- One call of the operating system or the network.
unfoldable pub attempt : Error → M (Unit {0})
attempt e s = elim s.faults [
  | [] ↦ (ok tt, s)
  | true ∷ rest ↦ (err e, record s { faults = rest })
  | false ∷ rest ↦ (ok tt, record s { faults = rest })
]
