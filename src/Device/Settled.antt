-- ===== src/Device/Settled.antt =====
-- An approval or a denial is final.
use jardin.Base.{
  ℕ, ◌<◌, String, false, Option, none, some, List, [], ◌∷◌, ◌≡◌, refl, ◌∙◌, ap, arith,
}
use jardin.Base.{string_eq, nat_eq}
use jardin.Base.Dict
use jardin.Device.Store.{
  DeviceRequest, DeviceStore, is_pending, normalize_user_code, sweep, create, info, grant, refuse,
  settle, approve, deny, poll, poll_at,
}
use jardin.Device.Wellformed.{sweep-heap}
use jardin.Device.Once.{machine_of-store, succeeded-store}
use jardin.Device.History.{Call, creates, asks, approves, denies, polls, serve, serve_all}

module _ (to_upper : String → String) (p : ℕ) where
  -- The request at `p` exists and is no longer pending in `d`, and is the same in `t`.
  record IsKept (d t : DeviceStore) : Type 0 where
    same : t.heap p ≡ d.heap p
    made : p < t.next

  settle-IsKept :
      (change : DeviceRequest → DeviceRequest) (o : Option ℕ) (d : DeviceStore)
      → p < d.next
      → is_pending (d.heap p).status ≡ false
      → IsKept d (settle to_upper change o d).1
  settle-IsKept change none d made over = record { same = refl; made = made }
  settle-IsKept change (some q) d made over = ground (arith, made, over)

  poll_at-IsKept : (o : Option ℕ) (d : DeviceStore) → p < d.next → IsKept d (poll_at to_upper o d).1
  poll_at-IsKept none d made = record { same = refl; made = made }
  poll_at-IsKept (some q) d made = ground (arith, made)

  add-IsKept :
      (device_code user_code machine ip : String) (now : ℕ) (d : DeviceStore)
      → p < d.next
      → IsKept d (create to_upper device_code user_code machine ip now d).1
  unfolding create
  add-IsKept device_code user_code machine ip now d made =
      ground (arith, made, sweep-heap to_upper now d)

  module _ (d : DeviceStore) (made : p < d.next) (over : is_pending (d.heap p).status ≡ false) where
    -- The sweep leaves the heap alone.
    through_sweep : (now : ℕ) (t : DeviceStore) → IsKept (sweep to_upper now d) t → IsKept d t
    through_sweep now t k = record {
      same = k.same ∙ ap (λ h. h p) (sweep-heap to_upper now d).0;
      made = k.made;
    }

    abbrev swept-made : ℕ → Type 0
    swept-made now = p < (sweep to_upper now d).next

    still_made : (now : ℕ) → swept-made now
    still_made now = rw (sweep-heap to_upper now d).1 made

    still_over : (now : ℕ) → is_pending ((sweep to_upper now d).heap p).status ≡ false
    still_over now = rw (sweep-heap to_upper now d).0 over

    serve-IsKept : (c : Call) → IsKept d (serve to_upper c d)
    unfolding serve info approve deny poll
    serve-IsKept (creates device_code user_code machine ip now) =
        add-IsKept device_code user_code machine ip now d made
    serve-IsKept (asks user_code now) =
        through_sweep now (sweep to_upper now d) (record { same = refl; made = still_made now })
    serve-IsKept (approves user_code token now) =
        let d' : DeviceStore = sweep to_upper now d in
        through_sweep now _ (
          rw (machine_of-store to_upper _) (
            settle-IsKept (grant token)
              (Dict.lookup (normalize_user_code to_upper user_code) d'.by_user) d' (still_made now)
              (still_over now)))
    serve-IsKept (denies user_code now) =
        let d' : DeviceStore = sweep to_upper now d in
        through_sweep now _ (
          rw (succeeded-store to_upper _) (
            settle-IsKept refuse (Dict.lookup (normalize_user_code to_upper user_code) d'.by_user)
              d' (still_made now) (still_over now)))
    serve-IsKept (polls device_code now) =
        let d' : DeviceStore = sweep to_upper now d in
        through_sweep now _
          (poll_at-IsKept (Dict.lookup device_code d'.by_device) d' (still_made now))

-- A request that was approved or denied stays as it is, whatever calls follow: a denial cannot be
-- taken back, and the token of an approval cannot be replaced.
pub serve_all-settled :
    (to_upper : String → String) (p : ℕ) (cs : List Call) (d : DeviceStore)
    → p < d.next
    → is_pending (d.heap p).status ≡ false
    → (serve_all to_upper cs d).heap p ≡ d.heap p
unfolding serve_all
serve_all-settled to_upper p [] d made over = refl
serve_all-settled to_upper p (c ∷ cs) d made over =
    let k = serve-IsKept to_upper p d made over c in
    serve_all-settled to_upper p cs (serve to_upper c d) k.made (rw (k.same) over) ∙ k.same
