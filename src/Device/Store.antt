-- ===== src/Device/Store.antt =====
-- internal/server/device.go: the store of pending device authorizations. A `deviceRequest` is shared
-- by two maps, so requests lie in a heap, at numbers that stand for pointers.
use Prim.Native.Char.{code}
use jardin.Base.{
  ℕ, zero, suc, ◌+◌, ◌%◌, String, ◌<>◌, Bool, true, false, ◌&&◌, ◌||◌, Option, none, some, List, [],
  ◌∷◌,
}
use jardin.Base.{◌==◌, string_eq, nat_eq, leb, ltb, length, if◌then◌else◌}
use jardin.Base.Dict
use jardin.Base.Dict.{Dict}

-- In nanoseconds: ten minutes.
abbrev pub device_code_ttl : ℕ
device_code_ttl = 600000000000

abbrev pub max_pending_devices : ℕ
max_pending_devices = 256

abbrev user_code_alphabet : String
user_code_alphabet = "23456789BCDFGHJKMNPQRSTVWXYZ"

pub data DeviceStatus : Type 0 where
  pending approved denied : DeviceStatus

abbrev pub is_pending : DeviceStatus → Bool
is_pending pending = true
is_pending approved = false
is_pending denied = false

-- `expires` is an instant in nanoseconds.
pub record DeviceRequest : Type 0 where
  pub device_code : String
  pub user_code : String
  pub machine : String
  pub ip : String
  pub status : DeviceStatus
  pub token : String
  pub expires : ℕ

abbrev pub no_request : DeviceRequest
no_request = record {
  device_code = "";
  user_code = "";
  machine = "";
  ip = "";
  status = pending;
  token = "";
  expires = 0;
}

-- `next` is the first pointer that no request has had.
pub record DeviceStore : Type 0 where
  pub heap : ℕ → DeviceRequest
  pub next : ℕ
  pub by_device : Dict String ℕ
  pub by_user : Dict String ℕ

abbrev pub new_device_store : DeviceStore
new_device_store = record { heap = λ p. no_request; next = 0; by_device = []; by_user = [] }

-- A write through a pointer.
abbrev pub write : (ℕ → DeviceRequest) → ℕ → DeviceRequest → ℕ → DeviceRequest
write heap p req q = if q == p then req else heap q

-- The writes to a request that approve and deny make.
abbrev pub grant : String → DeviceRequest → DeviceRequest
grant token req = record req { status = approved; token = token }

abbrev pub refuse : DeviceRequest → DeviceRequest
refuse req = record req { status = denied }

abbrev in_range : ℕ → ℕ → ℕ → Bool
in_range lo hi n = leb lo n && leb n hi

unfoldable pub keep_code : String → String
keep_code String.[] = String.[]
keep_code (String.◌∷◌ c s) =
    let rest = keep_code s in
    if in_range b'A' b'Z' (code c) || in_range b'0' b'9' (code c) then String.◌∷◌ c rest else rest

-- The symbol of the alphabet at a place below 28.
unfoldable pub symbol_at : String → ℕ → String
symbol_at String.[] n = ""
symbol_at (String.◌∷◌ c s) zero = String.◌∷◌ c String.[]
symbol_at (String.◌∷◌ c s) (suc n) = symbol_at s n

-- The loop of generateUserCode, from the byte of index `i` on.
unfoldable pub user_code_from : ℕ → List ℕ → String
unfolding symbol_at
user_code_from i [] = ""
user_code_from i (c ∷ bytes) =
    (if i == 4 then "-" else "")
    <> (symbol_at user_code_alphabet (c % 28) <> user_code_from (suc i) bytes)

-- generateUserCode, of the eight random bytes.
unfoldable pub generate_user_code : List ℕ → String
unfolding user_code_from
generate_user_code bytes = user_code_from 0 bytes

-- `to_upper` is strings.ToUpper.
module _ (to_upper : String → String) where
  unfoldable pub normalize_user_code : String → String
  unfolding keep_code
  normalize_user_code code = keep_code (to_upper code)

  -- The two deletions of a request from the maps.
  abbrev pub drop_request : String → DeviceRequest → DeviceStore → DeviceStore
  drop_request code req d = record d {
    by_device = Dict.erase code d.by_device;
    by_user = Dict.erase (normalize_user_code req.user_code) d.by_user;
  }

  -- The loop of `sweep` over the entries of byDevice.
  unfoldable pub sweep_over : ℕ → Dict String ℕ → DeviceStore → DeviceStore
  sweep_over now [] d = d
  sweep_over now ((code, p) ∷ rest) d =
      sweep_over now rest (if ltb (d.heap p).expires now then drop_request code (d.heap p) d else d)

  unfoldable pub sweep : ℕ → DeviceStore → DeviceStore
  unfolding sweep_over
  sweep now d = sweep_over now d.by_device d

  abbrev pub new_request : String → String → String → String → ℕ → DeviceRequest
  new_request device_code user_code machine ip now = record {
    device_code = device_code;
    user_code = user_code;
    machine = machine;
    ip = ip;
    status = pending;
    token = "";
    expires = now + device_code_ttl;
  }

  -- `create`, with the codes that its random numbers give. None is ErrTooManyDevices.
  unfoldable pub create :
      String → String → String → String → ℕ → DeviceStore → Option DeviceRequest × DeviceStore
  unfolding sweep
  create device_code user_code machine ip now d =
      let d' = sweep now d in
      let req = new_request device_code user_code machine ip now in
      if leb max_pending_devices (length d'.by_device) then (none, d') else (
        some req,
        record {
          heap = write d'.heap d'.next req;
          next = suc d'.next;
          by_device = Dict.insert device_code d'.next d'.by_device;
          by_user = Dict.insert (normalize_user_code user_code) d'.next d'.by_user;
        },
      )

  abbrev pub deref : DeviceStore → Option ℕ → Option DeviceRequest
  deref d none = none
  deref d (some p) = some (d.heap p)

  unfoldable pub info : String → ℕ → DeviceStore → Option DeviceRequest × DeviceStore
  unfolding sweep
  info user_code now d =
      let d' = sweep now d in
      (deref d' (Dict.lookup (normalize_user_code user_code) d'.by_user), d')

  -- Changes the request that a user code names, if it is pending, and gives it as it was.
  abbrev pub settle :
      (DeviceRequest → DeviceRequest) → Option ℕ → DeviceStore → Option DeviceRequest × DeviceStore
  settle change none d = (none, d)
  settle change (some p) d =
      if is_pending (d.heap p).status
      then (some (d.heap p), record d { heap = write d.heap p (change (d.heap p)) })
      else (none, d)

  abbrev pub machine_of : Option DeviceRequest × DeviceStore → Option String × DeviceStore
  machine_of (none, d) = (none, d)
  machine_of (some req, d) = (some req.machine, d)

  unfoldable pub approve : String → String → ℕ → DeviceStore → Option String × DeviceStore
  unfolding sweep
  approve user_code token now d =
      let d' = sweep now d in
      machine_of (settle (grant token) (Dict.lookup (normalize_user_code user_code) d'.by_user) d')

  abbrev pub succeeded : Option DeviceRequest × DeviceStore → Bool × DeviceStore
  succeeded (none, d) = (false, d)
  succeeded (some req, d) = (true, d)

  unfoldable pub deny : String → ℕ → DeviceStore → Bool × DeviceStore
  unfolding sweep
  deny user_code now d =
      let d' = sweep now d in
      succeeded (settle refuse (Dict.lookup (normalize_user_code user_code) d'.by_user) d')

  abbrev pub poll_at : Option ℕ → DeviceStore → Option (DeviceStatus × String) × DeviceStore
  poll_at none d = (none, d)
  poll_at (some p) d = elim (d.heap p).status [
    | approved ↦
        (some (approved, (d.heap p).token), drop_request (d.heap p).device_code (d.heap p) d)
    | pending ↦ (some (pending, ""), d)
    | denied ↦ (some (denied, ""), d)
  ]

  unfoldable pub poll : String → ℕ → DeviceStore → Option (DeviceStatus × String) × DeviceStore
  unfolding sweep
  poll device_code now d = let d' = sweep now d in poll_at (Dict.lookup device_code d'.by_device) d'
