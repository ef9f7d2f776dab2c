-- ===== src/Device/Once.antt =====
-- A token is handed out at most once, and only one that a person approved.
use jardin.Base.{ℕ, ◌+◌, ◌≤◌, String, Option, none, some, List, [], ◌∷◌, ◌≡◌, refl, arith}
use jardin.Base.{◌==◌, string_eq, nat_eq, leb, length, if◌then◌else◌, Bool-cases, inl, inr}
use jardin.Base.Dict
use jardin.Base.Dict.{Dict, NodupKeys, lookup-erase, lookup-insert}
use jardin.Device.Store.{
  DeviceRequest, DeviceStore, new_device_store, normalize_user_code, sweep, create, info, grant,
  refuse, settle, approve, machine_of, succeeded, deny, poll, poll_at, max_pending_devices,
}
use jardin.Device.Wellformed.{IsStore, sweep-IsStore, new-IsStore}
use jardin.Device.Answers.{lookup-sweep}
use jardin.Device.History.{
  Call, creates, asks, approves, denies, polls, given, serve, hands, times_handed, times_created,
  serve-IsStore,
}

abbrev is_held : Option ℕ → ℕ
is_held none = 0
is_held (some p) = 1

-- Whether a request of the device code waits, as a number.
abbrev held : String → DeviceStore → ℕ
held code d = is_held (Dict.lookup code d.by_device)

module _ (to_upper : String → String) where
  held-sweep :
      (code : String) (now : ℕ) (d : DeviceStore)
      → IsStore to_upper d
      → held code (sweep to_upper now d) ≤ held code d
  held-sweep code now d v = ground (arith, lookup-sweep to_upper now d code v.once)

  settle-by_device :
      (change : DeviceRequest → DeviceRequest) (o : Option ℕ) (d : DeviceStore)
      → (settle to_upper change o d).1.by_device ≡ d.by_device
  settle-by_device change none d = refl
  settle-by_device change (some p) d = ground arith

  pub machine_of-store : (r : Option DeviceRequest × DeviceStore) → (machine_of to_upper r).1 ≡ r.1
  machine_of-store (none, d) = refl
  machine_of-store (some r, d) = refl

  pub succeeded-store : (r : Option DeviceRequest × DeviceStore) → (succeeded to_upper r).1 ≡ r.1
  succeeded-store (none, d) = refl
  succeeded-store (some r, d) = refl

  held-create :
      (code device_code user_code machine ip : String) (now : ℕ) (d : DeviceStore)
      → IsStore to_upper d
      → held code (create to_upper device_code user_code machine ip now d).1
        ≤ held code d + (if device_code == code then 1 else 0)
  unfolding create
  held-create code device_code user_code machine ip now d v =
      let d' : DeviceStore = sweep to_upper now d in
      elim (Bool-cases (leb max_pending_devices (length d'.by_device))) [
        | inl full ↦ rw (full, create) (omega (arith, held-sweep code now d v))
        | inr room ↦
            rw (room, create)
              (ground (
                arith,
                held-sweep code now d v,
                lookup-insert code device_code d'.next d'.by_device,
              ))
      ]

  abbrev is_given : Option String → ℕ
  is_given none = 0
  is_given (some token) = 1

  -- A poll that hands out a token takes the request away.
  poll_at-held :
      (code : String) (d : DeviceStore) (o : Option ℕ)
      → Dict.lookup code d.by_device ≡ o
      → ((p : ℕ) → o ≡ some p → (d.heap p).device_code ≡ code)
      → is_given (given (poll_at to_upper o d).0) + held code (poll_at to_upper o d).1 ≤ held code d
  poll_at-held code d none l named = omega arith
  poll_at-held code d (some p) l named =
      ground (arith, l, named p refl, lookup-erase code (d.heap p).device_code d.by_device)

  poll_at-less :
      (code : String) (d : DeviceStore) (o : Option ℕ)
      → held code (poll_at to_upper o d).1 ≤ held code d
  poll_at-less code d none = omega arith
  poll_at-less code d (some p) =
      ground (arith, lookup-erase code (d.heap p).device_code d.by_device)

  held-approve :
      (code user_code token : String) (now : ℕ) (d : DeviceStore)
      → IsStore to_upper d
      → held code (approve to_upper user_code token now d).1 ≤ held code d
  unfolding approve
  held-approve code user_code token now d v =
      let d' : DeviceStore = sweep to_upper now d in
      let o = Dict.lookup (normalize_user_code to_upper user_code) d'.by_user in
      let change : DeviceRequest → DeviceRequest = grant token in
      rw (machine_of-store (settle to_upper change o d'), settle-by_device change o d')
        (held-sweep code now d v)

  held-deny :
      (code user_code : String) (now : ℕ) (d : DeviceStore)
      → IsStore to_upper d
      → held code (deny to_upper user_code now d).1 ≤ held code d
  unfolding deny
  held-deny code user_code now d v =
      let d' : DeviceStore = sweep to_upper now d in
      let o = Dict.lookup (normalize_user_code to_upper user_code) d'.by_user in
      let change : DeviceRequest → DeviceRequest = refuse in
      rw (succeeded-store (settle to_upper change o d'), settle-by_device change o d')
        (held-sweep code now d v)

  held-poll :
      (code device_code : String) (now : ℕ) (d : DeviceStore)
      → IsStore to_upper d
      → held code (poll to_upper device_code now d).1 ≤ held code d
  unfolding poll
  held-poll code device_code now d v =
      let d' : DeviceStore = sweep to_upper now d in
      omega (
        arith,
        poll_at-less code d' (Dict.lookup device_code d'.by_device),
        held-sweep code now d v,
      )

  given-poll :
      (code : String) (now : ℕ) (d : DeviceStore)
      → IsStore to_upper d
      → is_given (given (poll to_upper code now d).0) + held code (poll to_upper code now d).1
        ≤ held code d
  unfolding poll
  given-poll code now d v =
      let d' : DeviceStore = sweep to_upper now d in
      let v' : IsStore to_upper d' = sweep-IsStore to_upper now d v in
      omega (
        arith,
        poll_at-held code d' (Dict.lookup code d'.by_device) refl (v'.device_named code),
        held-sweep code now d v,
      )

  hands-paid :
      (code : String) (c : Call) (d : DeviceStore)
      → IsStore to_upper d
      → is_given (hands to_upper code c d) + held code (serve to_upper c d)
        ≤ held code d + times_created code (c ∷ [])
  unfolding hands serve times_created info
  hands-paid code (creates device_code user_code machine ip now) d v =
      ground (arith, held-create code device_code user_code machine ip now d v)
  hands-paid code (asks user_code now) d v = omega (arith, held-sweep code now d v)
  hands-paid code (approves user_code token now) d v =
      omega (arith, held-approve code user_code token now d v)
  hands-paid code (denies user_code now) d v = omega (arith, held-deny code user_code now d v)
  hands-paid code (polls device_code now) d v =
      ground (arith, held-poll code device_code now d v, given-poll code now d v)

  times_created-cons :
      (code : String) (c : Call) (cs : List Call)
      → times_created code (c ∷ cs) ≡ times_created code (c ∷ []) + times_created code cs
  unfolding times_created
  times_created-cons code (creates device_code user_code machine ip now) cs = ground arith
  times_created-cons code (asks user_code now) cs = omega arith
  times_created-cons code (approves user_code token now) cs = omega arith
  times_created-cons code (denies user_code now) cs = omega arith
  times_created-cons code (polls device_code now) cs = omega arith

  times_handed-held :
      (code : String) (cs : List Call) (d : DeviceStore)
      → IsStore to_upper d
      → times_handed to_upper code cs d ≤ held code d + times_created code cs
  unfolding times_handed
  times_handed-held code [] d v = omega arith
  times_handed-held code (c ∷ cs) d v = ground (
    arith,
    hands-paid code c d v,
    times_created-cons code c cs,
    times_handed-held code cs (serve to_upper c d) (serve-IsStore to_upper c d v),
  )

  -- In every sequence of calls from an empty store, a device code is given a token at most as often
  -- as a request of that code was created: a token is handed out once, however often it is polled for.
  pub times_handed-created :
      (code : String) (cs : List Call)
      → times_handed to_upper code cs new_device_store ≤ times_created code cs
  unfolding Dict.lookup
  times_handed-created code cs =
      omega (arith, times_handed-held code cs new_device_store (new-IsStore to_upper))
