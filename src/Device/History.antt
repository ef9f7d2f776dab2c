-- ===== src/Device/History.antt =====
-- Every sequence of requests to the device store.
use jardin.Base.{ℕ, suc, String, Option, none, some, List, [], ◌∷◌}
use jardin.Base.{◌==◌, string_eq, nat_eq, if◌then◌else◌}
use jardin.Device.Store.{
  DeviceStore, DeviceStatus, pending, approved, denied, create, info, approve, deny, poll,
}
use jardin.Device.Wellformed.{
  IsStore, sweep-IsStore, create-IsStore, approve-IsStore, deny-IsStore, poll-IsStore,
}

-- A call of the store, with its random codes and the instant of it.
pub data Call : Type 0 where
  creates : String → String → String → String → ℕ → Call
  asks : String → ℕ → Call
  approves : String → String → ℕ → Call
  denies : String → ℕ → Call
  polls : String → ℕ → Call

-- A token that a poll returns.
abbrev pub given : Option (DeviceStatus × String) → Option String
given none = none
given (some (pending, token)) = none
given (some (approved, token)) = some token
given (some (denied, token)) = none

module _ (to_upper : String → String) where
  unfoldable pub serve : Call → DeviceStore → DeviceStore
  unfolding info
  serve (creates device_code user_code machine ip now) d =
      (create to_upper device_code user_code machine ip now d).1
  serve (asks user_code now) d = (info to_upper user_code now d).1
  serve (approves user_code token now) d = (approve to_upper user_code token now d).1
  serve (denies user_code now) d = (deny to_upper user_code now d).1
  serve (polls device_code now) d = (poll to_upper device_code now d).1

  -- The token that a call hands out to a device code.
  unfoldable pub hands : String → Call → DeviceStore → Option String
  hands code (polls device_code now) d =
      if device_code == code then given (poll to_upper device_code now d).0 else none
  hands code _ d = none

  unfoldable pub serve_all : List Call → DeviceStore → DeviceStore
  serve_all [] d = d
  serve_all (c ∷ cs) d = serve_all cs (serve c d)

  abbrev count : Option String → ℕ → ℕ
  count none n = n
  count (some token) n = suc n

  -- How often a device code is given a token.
  unfoldable pub times_handed : String → List Call → DeviceStore → ℕ
  times_handed code [] d = 0
  times_handed code (c ∷ cs) d = count (hands code c d) (times_handed code cs (serve c d))

  pub serve-IsStore :
      (c : Call) (d : DeviceStore) → IsStore to_upper d → IsStore to_upper (serve c d)
  unfolding serve
  serve-IsStore (creates device_code user_code machine ip now) d v =
      create-IsStore to_upper device_code user_code machine ip now d v
  serve-IsStore (asks user_code now) d v = sweep-IsStore to_upper now d v
  serve-IsStore (approves user_code token now) d v =
      approve-IsStore to_upper user_code token now d v
  serve-IsStore (denies user_code now) d v = deny-IsStore to_upper user_code now d v
  serve-IsStore (polls device_code now) d v = poll-IsStore to_upper device_code now d v

  -- Every sequence of calls keeps the store well formed: at most 256 requests are pending, each map
  -- holds requests under the codes that they carry, and no device code is there twice.
  pub serve_all-IsStore :
      (cs : List Call) (d : DeviceStore) → IsStore to_upper d → IsStore to_upper (serve_all cs d)
  unfolding serve_all
  serve_all-IsStore [] d v = v
  serve_all-IsStore (c ∷ cs) d v = serve_all-IsStore cs (serve c d) (serve-IsStore c d v)

-- How many calls create a request of a device code.
unfoldable pub times_created : String → List Call → ℕ
times_created code [] = 0
times_created code (creates device_code user_code machine ip now ∷ cs) =
    let rest = times_created code cs in if device_code == code then suc rest else rest
times_created code (asks user_code now ∷ cs) = times_created code cs
times_created code (approves user_code token now ∷ cs) = times_created code cs
times_created code (denies user_code now ∷ cs) = times_created code cs
times_created code (polls device_code now ∷ cs) = times_created code cs
