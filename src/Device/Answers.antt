-- ===== src/Device/Answers.antt =====
-- What the sweep leaves, and what a poll answers.
use jardin.Base.{ℕ, String, Option, none, some, [], ◌∷◌, ◌≡◌, refl, ◌∙◌, arith}
use jardin.Base.{string_eq, nat_eq, ltb, if◌then◌else◌, Bool-cases, inl, inr}
use jardin.Base.Dict
use jardin.Base.Dict.{Dict, NodupKeys, lookup-erase}
use jardin.Device.Store.{
  DeviceRequest, DeviceStore, DeviceStatus, pending, approved, denied, drop_request, sweep_over,
  sweep, poll, poll_at,
}
use jardin.Device.Wellformed.{IsStore, sweep-heap}

-- What remains at a key of byDevice.
abbrev pub unexpired : ℕ → (ℕ → DeviceRequest) → Option ℕ → Option ℕ
unexpired now heap none = none
unexpired now heap (some p) = if ltb (heap p).expires now then none else some p

-- The same for a part of the entries, where `other` is what the map holds besides.
abbrev kept : ℕ → (ℕ → DeviceRequest) → Option ℕ → Option ℕ → Option ℕ
kept now heap none other = other
kept now heap (some p) other = if ltb (heap p).expires now then none else other

-- What a poll says of a request.
abbrev pub answer : (ℕ → DeviceRequest) → Option ℕ → Option (DeviceStatus × String)
answer heap none = none
answer heap (some p) = elim (heap p).status [
  | approved ↦ some (approved, (heap p).token)
  | pending ↦ some (pending, "")
  | denied ↦ some (denied, "")
]

module _ (to_upper : String → String) where
  sweep_over-kept :
      (now : ℕ) (rest : Dict String ℕ) (d : DeviceStore) (c : String)
      → NodupKeys rest
      → Dict.lookup c (sweep_over to_upper now rest d).by_device
        ≡ kept now d.heap (Dict.lookup c rest) (Dict.lookup c d.by_device)
  unfolding sweep_over Dict.lookup
  sweep_over-kept now [] d c u = refl
  sweep_over-kept now ((k, p) ∷ rest) d c u = elim (Bool-cases (ltb (d.heap p).expires now)) [
    | inl old ↦ ground (
      arith,
      old,
      u.0,
      lookup-erase c k d.by_device,
      sweep_over-kept now rest (drop_request to_upper k (d.heap p) d) c u.1,
    )
    | inr live ↦ ground (arith, live, u.0, sweep_over-kept now rest d c u.1)
  ]

  -- The sweep takes away the expired requests and no others.
  pub lookup-sweep :
      (now : ℕ) (d : DeviceStore) (c : String)
      → NodupKeys d.by_device
      → Dict.lookup c (sweep to_upper now d).by_device
        ≡ unexpired now d.heap (Dict.lookup c d.by_device)
  unfolding sweep
  lookup-sweep now d c u = sweep_over-kept now d.by_device d c u ∙ ground arith

  poll_at-answer : (o : Option ℕ) (d : DeviceStore) → (poll_at to_upper o d).0 ≡ answer d.heap o
  poll_at-answer none d = refl
  poll_at-answer (some p) d = ground arith

  -- In a well-formed store, a poll answers from the request of its device code: nothing if there is
  -- none or it has expired by then, and else its status, with the token if it is approved.
  pub poll-answer :
      (device_code : String) (now : ℕ) (d : DeviceStore)
      → IsStore to_upper d
      → (poll to_upper device_code now d).0
        ≡ answer d.heap (unexpired now d.heap (Dict.lookup device_code d.by_device))
  unfolding poll
  poll-answer device_code now d v =
      poll_at-answer (Dict.lookup device_code (sweep to_upper now d).by_device)
        (sweep to_upper now d)
      ∙ rw (lookup-sweep now d device_code v.once, (sweep-heap to_upper now d).0) refl
