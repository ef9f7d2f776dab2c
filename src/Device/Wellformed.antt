-- ===== src/Device/Wellformed.antt =====
-- What every operation of the device store keeps.
use jardin.Base.{ℕ, suc, ◌≤◌, ◌<◌, String, Option, none, some, [], ◌∷◌, ◌≡◌, refl, ◌⊎◌, arith}
use jardin.Base.{string_eq, nat_eq, leb, ltb, length, Bool-cases, inl, inr}
use jardin.Base.Dict
use jardin.Base.Dict.{
  Dict, NodupKeys, lookup-insert, lookup-erase, insert-NodupKeys, erase-NodupKeys,
}
use jardin.Device.Store.{
  DeviceRequest, DeviceStore, DeviceStatus, pending, approved, denied, is_pending, write,
  new_device_store, new_request, normalize_user_code, drop_request, sweep_over, sweep, create,
  grant, refuse, settle, approve, deny, machine_of, succeeded, poll, poll_at, max_pending_devices,
}

Status-cases : (s : DeviceStatus) → (s ≡ pending) ⊎ ((s ≡ approved) ⊎ (s ≡ denied))
Status-cases pending = inl refl
Status-cases approved = inr (inl refl)
Status-cases denied = inr (inr refl)

module _ (to_upper : String → String) where
  -- The maps hold requests under their codes, and at most 256 of them.
  pub record IsStore (d : DeviceStore) : Type 0 where
    pub once : NodupKeys d.by_device
    pub bounded : length d.by_device ≤ max_pending_devices
    device_made : (c : String) (p : ℕ) → Dict.lookup c d.by_device ≡ some p → p < d.next
    pub device_named :
        (c : String) (p : ℕ) → Dict.lookup c d.by_device ≡ some p → (d.heap p).device_code ≡ c
    user_made : (u : String) (p : ℕ) → Dict.lookup u d.by_user ≡ some p → p < d.next
    user_named :
        (u : String) (p : ℕ)
        → Dict.lookup u d.by_user ≡ some p
        → normalize_user_code to_upper (d.heap p).user_code ≡ u

  length-erase : (c : String) (m : Dict String ℕ) → length (Dict.erase c m) ≤ length m
  unfolding Dict.erase
  length-erase c [] = omega arith
  length-erase c ((k, p) ∷ m) = ground (arith, length-erase c m)

  length-insert :
      (c : String) (p : ℕ) (m : Dict String ℕ) → length (Dict.insert c p m) ≤ suc (length m)
  unfolding Dict.insert
  length-insert c p [] = omega arith
  length-insert c p ((k, q) ∷ m) = ground (arith, length-insert c p m)

  drop_request-IsStore :
      (code : String) (req : DeviceRequest) (d : DeviceStore)
      → IsStore d
      → IsStore (drop_request to_upper code req d)
  drop_request-IsStore code req d v = record {
    once = erase-NodupKeys code d.by_device v.once;
    bounded = omega (arith, v.bounded, length-erase code d.by_device);
    device_made = λ c p h. ground (arith, lookup-erase c code d.by_device, v.device_made c p, h);
    device_named = λ c p h. ground (arith, lookup-erase c code d.by_device, v.device_named c p, h);
    user_made = λ u p h. ground (
      arith,
      lookup-erase u (normalize_user_code to_upper req.user_code) d.by_user,
      v.user_made u p,
      h,
    );
    user_named = λ u p h. ground (
      arith,
      lookup-erase u (normalize_user_code to_upper req.user_code) d.by_user,
      v.user_named u p,
      h,
    );
  }

  sweep_over-IsStore :
      (now : ℕ) (rest : Dict String ℕ) (d : DeviceStore)
      → IsStore d
      → IsStore (sweep_over to_upper now rest d)
  unfolding sweep_over
  sweep_over-IsStore now [] d v = v
  sweep_over-IsStore now ((code, p) ∷ rest) d v = elim (Bool-cases (ltb (d.heap p).expires now)) [
    | inl old ↦
        rw (old, sweep_over)
          (sweep_over-IsStore now rest (drop_request to_upper code (d.heap p) d)
            (drop_request-IsStore code (d.heap p) d v))
    | inr live ↦ rw (live, sweep_over) (sweep_over-IsStore now rest d v)
  ]

  pub sweep-IsStore : (now : ℕ) (d : DeviceStore) → IsStore d → IsStore (sweep to_upper now d)
  unfolding sweep
  sweep-IsStore now d v = sweep_over-IsStore now d.by_device d v

  -- The sweep writes to no request.
  sweep_over-heap :
      (now : ℕ) (rest : Dict String ℕ) (d : DeviceStore)
      → ((sweep_over to_upper now rest d).heap ≡ d.heap)
        × ((sweep_over to_upper now rest d).next ≡ d.next)
  unfolding sweep_over
  sweep_over-heap now [] d = (refl, refl)
  sweep_over-heap now ((code, p) ∷ rest) d = elim (Bool-cases (ltb (d.heap p).expires now)) [
    | inl old ↦
        rw (old, sweep_over) (sweep_over-heap now rest (drop_request to_upper code (d.heap p) d))
    | inr live ↦ rw (live, sweep_over) (sweep_over-heap now rest d)
  ]

  pub sweep-heap :
      (now : ℕ) (d : DeviceStore)
      → ((sweep to_upper now d).heap ≡ d.heap) × ((sweep to_upper now d).next ≡ d.next)
  unfolding sweep
  sweep-heap now d = sweep_over-heap now d.by_device d

  settle-IsStore :
      (change : DeviceRequest → DeviceRequest) (o : Option ℕ) (d : DeviceStore)
      → ((r : DeviceRequest) → (change r).device_code ≡ r.device_code)
      → ((r : DeviceRequest) → (change r).user_code ≡ r.user_code)
      → IsStore d
      → IsStore (settle to_upper change o d).1
  settle-IsStore change none d same_code same_user v = v
  settle-IsStore change (some q) d same_code same_user v =
      elim (Bool-cases (is_pending (d.heap q).status)) [
        | inl wait ↦ rw wait (record {
          once = v.once;
          bounded = v.bounded;
          device_made = v.device_made;
          device_named = λ c p h. ground (arith, v.device_named c p h, same_code (d.heap q));
          user_made = v.user_made;
          user_named = λ u p h. ground (arith, v.user_named u p h, same_user (d.heap q));
        })
        | inr over ↦ rw over v
      ]

  poll_at-IsStore : (o : Option ℕ) (d : DeviceStore) → IsStore d → IsStore (poll_at to_upper o d).1
  poll_at-IsStore none d v = v
  poll_at-IsStore (some p) d v = elim (Status-cases (d.heap p).status) [
    | inl wait ↦ rw (wait, poll_at) v
    | inr (inl fine) ↦
        rw (fine, poll_at) (drop_request-IsStore (d.heap p).device_code (d.heap p) d v)
    | inr (inr refused) ↦ rw (refused, poll_at) v
  ]

  -- A new request gets a pointer that no map holds.
  add-IsStore :
      (d : DeviceStore) (req : DeviceRequest)
      → length d.by_device < max_pending_devices
      → IsStore d
      → IsStore (record {
        heap = write d.heap d.next req;
        next = suc d.next;
        by_device = Dict.insert req.device_code d.next d.by_device;
        by_user = Dict.insert (normalize_user_code to_upper req.user_code) d.next d.by_user;
      })
  add-IsStore d req room v = record {
    once = insert-NodupKeys req.device_code d.next d.by_device v.once;
    bounded = omega (arith, length-insert req.device_code d.next d.by_device, room);
    device_made = λ c p h.
        ground (arith, h, v.device_made c p, lookup-insert c req.device_code d.next d.by_device);
    device_named = λ c p h. ground (
      arith,
      h,
      v.device_made c p,
      v.device_named c p,
      lookup-insert c req.device_code d.next d.by_device,
    );
    user_made = λ u p h. ground (
      arith,
      h,
      v.user_made u p,
      lookup-insert u (normalize_user_code to_upper req.user_code) d.next d.by_user,
    );
    user_named = λ u p h. ground (
      arith,
      h,
      v.user_made u p,
      v.user_named u p,
      lookup-insert u (normalize_user_code to_upper req.user_code) d.next d.by_user,
    );
  }

  pub new-IsStore : IsStore new_device_store
  unfolding Dict.lookup
  new-IsStore = record {
    once = tt;
    bounded = omega arith;
    device_made = λ c p h. absurd (cc);
    device_named = λ c p h. absurd (cc);
    user_made = λ u p h. absurd (cc);
    user_named = λ u p h. absurd (cc);
  }

  pub create-IsStore :
      (device_code user_code machine ip : String) (now : ℕ) (d : DeviceStore)
      → IsStore d
      → IsStore (create to_upper device_code user_code machine ip now d).1
  unfolding create
  create-IsStore device_code user_code machine ip now d v =
      let d' : DeviceStore = sweep to_upper now d in
      let v' : IsStore d' = sweep-IsStore now d v in
      elim (Bool-cases (leb max_pending_devices (length d'.by_device))) [
        | inl full ↦ rw (full, create) v'
        | inr room ↦
            rw (room, create)
              (add-IsStore d' (new_request to_upper device_code user_code machine ip now)
                (ground (arith, room)) v')
      ]

  pub approve-IsStore :
      (user_code token : String) (now : ℕ) (d : DeviceStore)
      → IsStore d
      → IsStore (approve to_upper user_code token now d).1
  unfolding approve
  approve-IsStore user_code token now d v =
      let d' : DeviceStore = sweep to_upper now d in
      machine_of-keeps _ (
        settle-IsStore (grant token)
          (Dict.lookup (normalize_user_code to_upper user_code) d'.by_user) d' (λ r. refl)
          (λ r. refl) (sweep-IsStore now d v))
    where
      machine_of-keeps :
          (r : Option DeviceRequest × DeviceStore) → IsStore r.1 → IsStore (machine_of to_upper r).1
      machine_of-keeps (none, d) v = v
      machine_of-keeps (some req, d) v = v

  pub deny-IsStore :
      (user_code : String) (now : ℕ) (d : DeviceStore)
      → IsStore d
      → IsStore (deny to_upper user_code now d).1
  unfolding deny
  deny-IsStore user_code now d v =
      let d' : DeviceStore = sweep to_upper now d in
      succeeded-keeps _ (
        settle-IsStore refuse (Dict.lookup (normalize_user_code to_upper user_code) d'.by_user) d'
          (λ r. refl) (λ r. refl) (sweep-IsStore now d v))
    where
      succeeded-keeps :
          (r : Option DeviceRequest × DeviceStore) → IsStore r.1 → IsStore (succeeded to_upper r).1
      succeeded-keeps (none, d) v = v
      succeeded-keeps (some req, d) v = v

  pub poll-IsStore :
      (device_code : String) (now : ℕ) (d : DeviceStore)
      → IsStore d
      → IsStore (poll to_upper device_code now d).1
  unfolding poll
  poll-IsStore device_code now d v =
      poll_at-IsStore (Dict.lookup device_code (sweep to_upper now d).by_device)
        (sweep to_upper now d) (sweep-IsStore now d v)
