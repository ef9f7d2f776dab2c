-- ===== src/Device/Tests.antt =====
-- Runs of the device store, and its theorems at concrete data.
use jardin.Base.{◌≤◌, ◌<◌, String, true, false, List, [], ◌∷◌, ◌≡◌, refl, arith, contains}
use jardin.Base.{string_eq, nat_eq}
use jardin.Base.Dict
use jardin.Device.Store.{
  is_pending, DeviceStore, new_device_store, generate_user_code, normalize_user_code, create,
  approve, deny, poll,
}
use jardin.Device.Wellformed.{IsStore, new-IsStore}
use jardin.Device.History.{
  Call, creates, approves, denies, polls, serve, serve_all, serve_all-IsStore, hands, times_handed,
  times_created,
}
use jardin.Device.Once.{times_handed-created}
use jardin.Device.Settled.{serve_all-settled}
use jardin.Device.Approval.{tokens_handed, tokens_approved, tokens_handed-approved}

-- strings.ToUpper on the codes of these runs, which are in capitals.
abbrev upper : String → String
upper s = s

-- A laptop asks, the user approves, and the laptop polls twice; a second laptop is denied.
abbrev calls : List Call
calls =
    creates "secret" "BCDF-GHJK" "laptop" "10.0.0.1" 5
    ∷ creates "other" "XXXX-2222" "desk" "10.0.0.2" 6
    ∷ approves "BCDFGHJK" "token" 7
    ∷ denies "XXXX-2222" 8
    ∷ polls "secret" 9
    ∷ polls "secret" 10
    ∷ polls "other" 11
    ∷ []

abbrev settled_calls : List Call
settled_calls = approves "BCDF-GHJK" "forged" 8 ∷ denies "BCDF-GHJK" 9 ∷ []

abbrev waiting : List Call
waiting = creates "secret" "BCDF-GHJK" "laptop" "10.0.0.1" 5 ∷ approves "BCDFGHJK" "token" 7 ∷ []

abbrev code : String
code = "secret"

abbrev token : String
token = "token"

calls-handed : times_handed upper code calls new_device_store ≡ 1
unfolding times_handed hands serve create approve deny poll generate_user_code normalize_user_code
    Dict.lookup Dict.insert Dict.erase nat_eq string_eq
calls-handed = refl

calls-tokens : tokens_handed upper code calls new_device_store ≡ token ∷ []
unfolding tokens_handed hands serve create approve deny poll generate_user_code normalize_user_code
    Dict.lookup Dict.insert Dict.erase nat_eq string_eq
calls-tokens = refl

abbrev calm : DeviceStore
calm = serve_all upper waiting new_device_store

calm-made : 0 < calm.next
unfolding serve_all serve create approve normalize_user_code Dict.lookup Dict.insert Dict.erase
    nat_eq string_eq
calm-made = omega arith

calm-over : is_pending (calm.heap 0).status ≡ false
unfolding serve_all serve create approve normalize_user_code Dict.lookup Dict.insert Dict.erase
    nat_eq string_eq
calm-over = refl

serve_all-IsStore_example : IsStore upper (serve_all upper calls new_device_store)
serve_all-IsStore_example = serve_all-IsStore upper calls new_device_store (new-IsStore upper)

times_handed-created_example :
    times_handed upper code calls new_device_store ≤ times_created code calls
times_handed-created_example = times_handed-created upper code calls

serve_all-settled_example : (serve_all upper settled_calls calm).heap 0 ≡ calm.heap 0
serve_all-settled_example = serve_all-settled upper 0 settled_calls calm calm-made calm-over

handed : contains (tokens_handed upper code calls new_device_store) token ≡ true
unfolding tokens_handed hands serve create approve deny poll generate_user_code normalize_user_code
    Dict.lookup Dict.insert Dict.erase nat_eq string_eq
handed = refl

tokens_handed-approved_example : contains (tokens_approved calls) token ≡ true
tokens_handed-approved_example = tokens_handed-approved upper code calls token handed
