-- ===== src/Flow/TrustTests.antt =====
-- A history of the pins, and the theorems on it.
use jardin.Base.{String, true, false, none, some, List, [], ◌∷◌, ◌≡◌, refl}
use jardin.Base.{◌==◌, string_eq, nat_eq, if◌then◌else◌}
use jardin.Base.Dict
use jardin.Base.Dict.{Dict}
use jardin.Base.Text.{cut_prefix}
use jardin.Flow.Trust.{
  missing, unreadable, Files, Pinnable, read_trust, write_trust, trusted_checksum, is_trusted,
  trust, untrust, prune, prune_pins, pin_still_has_a_file,
}
use jardin.Flow.Pins.{
  Operation, trusts, untrusts, prunes, perform, perform_all, decided_all, approves,
  perform_all-is_trusted,
}

abbrev deploy : Pinnable
deploy = record { name = "deploy"; checksum = "sha256:1" }

abbrev disk : Files
disk = record {
  is_file = λ p. p == "deploy.yml";
  flow_path = λ p. if p == "deploy" then "deploy.yml" else "";
  model_path = λ p. none;
}

-- The second pin is of a model that is gone, and the last write fails.
abbrev history : List Operation
history =
    trusts true deploy
    ∷ trusts true (record { name = "model:gone"; checksum = "sha256:2" })
    ∷ prunes true disk
    ∷ untrusts false "deploy"
    ∷ []

abbrev no_pins : Dict String String
no_pins = []

history-trusted : is_trusted deploy (perform_all history missing) ≡ some true
unfolding is_trusted trusted_checksum perform_all perform trust untrust prune prune_pins
    pin_still_has_a_file cut_prefix read_trust write_trust Dict.lookup Dict.insert Dict.erase
    string_eq nat_eq
history-trusted = refl

reads : read_trust missing ≡ some no_pins
unfolding read_trust
reads = refl

refuses : read_trust unreadable ≡ none
unfolding read_trust
refuses = refl

perform_all-is_trusted_example :
    is_trusted deploy (perform_all history missing)
    ≡ some (approves (decided_all "deploy" history (Dict.lookup "deploy" no_pins)) "sha256:1")
perform_all-is_trusted_example = perform_all-is_trusted history missing no_pins deploy reads
