-- ===== src/Device/Approval.antt =====
-- Every token that is handed out is one that a person's approval brought in.
use jardin.Base.{ℕ, String, true, Option, none, some, List, [], ◌∷◌, ◌++◌, ◌≡◌, arith}
use jardin.Base.{string_eq, nat_eq, contains, contains-append, Within}
use jardin.Base.Dict
use jardin.Base.Dict.{Dict}
use jardin.Device.Store.{
  DeviceStore, approved, normalize_user_code, sweep, create, info, grant, refuse, settle, approve,
  new_device_store, deny, poll, poll_at,
}
use jardin.Device.Wellformed.{IsStore, sweep-heap, new-IsStore}
use jardin.Device.Answers.{answer, unexpired, poll-answer}
use jardin.Device.Once.{machine_of-store, succeeded-store}
use jardin.Device.History.{
  Call, creates, asks, approves, denies, polls, given, hands, serve, serve-IsStore,
}

abbrev one : Option String → List String
one none = []
one (some token) = token ∷ []

-- The tokens that a sequence of calls hands out to a device code.
unfoldable pub tokens_handed : (String → String) → String → List Call → DeviceStore → List String
tokens_handed to_upper code [] d = []
tokens_handed to_upper code (c ∷ cs) d =
    one (hands to_upper code c d) ++ tokens_handed to_upper code cs (serve to_upper c d)

-- The token that a call approves a device with.
abbrev approval : Call → List String
approval (approves user_code token now) = token ∷ []
approval (creates device_code user_code machine ip now) = []
approval (asks user_code now) = []
approval (denies user_code now) = []
approval (polls device_code now) = []

unfoldable pub tokens_approved : List Call → List String
tokens_approved [] = []
tokens_approved (c ∷ cs) = approval c ++ tokens_approved cs

-- Each approved request has its token from the list.
record AreApproved (tokens : List String) (d : DeviceStore) : Type 0 where
  from : (p : ℕ) → (d.heap p).status ≡ approved → contains tokens (d.heap p).token ≡ true

module _ (to_upper : String → String) (tokens : List String) where
  sweep-AreApproved :
      (now : ℕ) (d : DeviceStore) → AreApproved tokens d → AreApproved tokens (sweep to_upper now d)
  sweep-AreApproved now d a = record {
    from = λ p h. ground (arith, sweep-heap to_upper now d, a.from p, h);
  }

  create-AreApproved :
      (device_code user_code machine ip : String) (now : ℕ) (d : DeviceStore)
      → AreApproved tokens d
      → AreApproved tokens (create to_upper device_code user_code machine ip now d).1
  unfolding create
  create-AreApproved device_code user_code machine ip now d a = record {
    from = λ p h. ground (arith, sweep-heap to_upper now d, a.from p, h);
  }

  refuse-AreApproved :
      (o : Option ℕ) (d : DeviceStore)
      → AreApproved tokens d
      → AreApproved tokens (settle to_upper refuse o d).1
  refuse-AreApproved none d a = a
  refuse-AreApproved (some q) d a = record { from = λ p h. ground (arith, a.from p, h) }

  grant-AreApproved :
      (token : String) (o : Option ℕ) (d : DeviceStore)
      → AreApproved tokens d
      → AreApproved (token ∷ tokens) (settle to_upper (grant token) o d).1
  grant-AreApproved token none d a = record { from = λ p h. ground (arith, a.from p, h) }
  grant-AreApproved token (some q) d a = record { from = λ p h. ground (arith, a.from p, h) }

  poll_at-AreApproved :
      (o : Option ℕ) (d : DeviceStore)
      → AreApproved tokens d
      → AreApproved tokens (poll_at to_upper o d).1
  poll_at-AreApproved none d a = a
  poll_at-AreApproved (some q) d a = record { from = λ p h. ground (arith, a.from p, h) }

  serve-AreApproved :
      (c : Call) (d : DeviceStore)
      → AreApproved tokens d
      → AreApproved (approval c ++ tokens) (serve to_upper c d)
  unfolding serve info approve deny poll
  serve-AreApproved (creates device_code user_code machine ip now) d a =
      create-AreApproved device_code user_code machine ip now d a
  serve-AreApproved (asks user_code now) d a = sweep-AreApproved now d a
  serve-AreApproved (approves user_code token now) d a =
      let d' : DeviceStore = sweep to_upper now d in
      rw (machine_of-store to_upper _) (
        grant-AreApproved token (Dict.lookup (normalize_user_code to_upper user_code) d'.by_user) d'
          (sweep-AreApproved now d a))
  serve-AreApproved (denies user_code now) d a =
      let d' : DeviceStore = sweep to_upper now d in
      rw (succeeded-store to_upper _) (
        refuse-AreApproved (Dict.lookup (normalize_user_code to_upper user_code) d'.by_user) d'
          (sweep-AreApproved now d a))
  serve-AreApproved (polls device_code now) d a =
      let d' : DeviceStore = sweep to_upper now d in
      poll_at-AreApproved (Dict.lookup device_code d'.by_device) d' (sweep-AreApproved now d a)

  given-answer :
      (d : DeviceStore) (o : Option ℕ)
      → AreApproved tokens d
      → Within (one (given (answer d.heap o))) tokens
  given-answer d none a q h = absurd (cc)
  given-answer d (some p) a q h = ground (arith, a.from p, h)

  hands-Within :
      (code : String) (c : Call) (d : DeviceStore)
      → IsStore to_upper d
      → AreApproved tokens d
      → Within (one (hands to_upper code c d)) tokens
  unfolding hands
  hands-Within code (creates device_code user_code machine ip now) d v a q h = absurd (cc)
  hands-Within code (asks user_code now) d v a q h = absurd (cc)
  hands-Within code (approves user_code token now) d v a q h = absurd (cc)
  hands-Within code (denies user_code now) d v a q h = absurd (cc)
  hands-Within code (polls device_code now) d v a q h = ground (
    arith,
    h,
    poll-answer to_upper device_code now d v,
    given-answer d (unexpired now d.heap (Dict.lookup device_code d.by_device)) a q,
  )

tokens_handed-Within :
    (to_upper : String → String) (code : String) (cs : List Call) (d : DeviceStore)
    (tokens : List String)
    → IsStore to_upper d
    → AreApproved tokens d
    → Within (tokens_handed to_upper code cs d) (tokens_approved cs ++ tokens)
unfolding tokens_handed tokens_approved
tokens_handed-Within to_upper code [] d tokens v a q h = absurd (cc)
tokens_handed-Within to_upper code (c ∷ cs) d tokens v a q h =
    let later =
      tokens_handed-Within to_upper code cs (serve to_upper c d) (approval c ++ tokens)
        (serve-IsStore to_upper c d v) (serve-AreApproved to_upper tokens c d a) q in
    ground (
      arith,
      h,
      later,
      hands-Within to_upper tokens code c d v a q,
      contains-append (one (hands to_upper code c d))
          (tokens_handed to_upper code cs (serve to_upper c d)) q,
      contains-append (approval c ++ tokens_approved cs) tokens q,
      contains-append (approval c) (tokens_approved cs) q,
      contains-append (tokens_approved cs) (approval c ++ tokens) q,
      contains-append (approval c) tokens q,
    )

-- In every sequence of calls from an empty store, each token that is handed out to a device is one
-- that some call approved a device with.
pub tokens_handed-approved :
    (to_upper : String → String) (code : String) (cs : List Call) (q : String)
    → contains (tokens_handed to_upper code cs new_device_store) q ≡ true
    → contains (tokens_approved cs) q ≡ true
tokens_handed-approved to_upper code cs q h = ground (
  arith,
  contains-append (tokens_approved cs) [] q,
  tokens_handed-Within to_upper code cs new_device_store [] (new-IsStore to_upper)
      (record { from = λ p e. absurd (cc) }) q h,
)
