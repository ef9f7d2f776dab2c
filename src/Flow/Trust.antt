-- ===== src/Flow/Trust.antt =====
-- trust.go: the checksums that this machine accepted, and what they say of a flow.
use jardin.Base.{ℕ, suc, String, Bool, true, false, Option, none, some, [], ◌∷◌}
use jardin.Base.{◌==◌, string_eq, ◌=?◌, if◌then◌else◌}
use jardin.Base.Dict
use jardin.Base.Dict.{Dict}
use jardin.Base.Text.{cut_prefix}

-- The file of pins: missing, or one that cannot be read or decoded, or one that holds pins.
pub data TrustFile : Type 0 where
  missing unreadable : TrustFile
  holds : Dict String String → TrustFile

pub data TrustState : Type 0 where
  trusted not_pinned changed unknown : TrustState

-- The fields of a Flow that trust.go reads.
pub record Pinnable : Type 0 where
  pub name : String
  pub checksum : String

-- What is on the disk besides the pins: whether a path has a file, the path of a flow's file, and
-- ModelPath, which is none where it is an error.
pub record Files : Type 0 where
  pub is_file : String → Bool
  pub flow_path : String → String
  pub model_path : String → Option String

-- readTrust, where none is an error.
unfoldable pub read_trust : TrustFile → Option (Dict String String)
read_trust missing = some []
read_trust unreadable = none
read_trust (holds pins) = some pins

-- writeTrust renames a temporary file over the pins, or fails and changes nothing. `takes` tells
-- whether the disk takes the write.
unfoldable pub write_trust : Bool → Dict String String → TrustFile → Bool × TrustFile
write_trust takes pins file = if takes then (true, holds pins) else (false, file)

abbrev text_or : Option String → String
text_or none = ""
text_or (some text) = text

-- TrustedChecksum, where none is an error.
unfoldable pub trusted_checksum : String → TrustFile → Option String
unfolding read_trust
trusted_checksum name file = elim (read_trust file) [
  | none ↦ none
  | some pins ↦ some (text_or (Dict.lookup name pins))
]

abbrev matches : Option String → String → Option Bool
matches none checksum = none
matches (some pinned) checksum = some (if pinned == "" then false else pinned == checksum)

-- IsTrusted, where none is an error.
unfoldable pub is_trusted : Pinnable → TrustFile → Option Bool
unfolding trusted_checksum
is_trusted f file = matches (trusted_checksum f.name file) f.checksum

abbrev state_of : Option String → String → TrustState
state_of none checksum = unknown
state_of (some pinned) checksum =
    if pinned == "" then not_pinned else if pinned == checksum then trusted else changed

-- The function TrustState.
unfoldable pub trust_state : Pinnable → TrustFile → TrustState
unfolding trusted_checksum
trust_state f file = state_of (trusted_checksum f.name file) f.checksum

abbrev trust_in : Bool → Pinnable → TrustFile → Option (Dict String String) → Bool × TrustFile
trust_in takes f file none = (false, file)
trust_in takes f file (some pins) = write_trust takes (Dict.insert f.name f.checksum pins) file

-- Trust: true is a nil error.
unfoldable pub trust : Bool → Pinnable → TrustFile → Bool × TrustFile
unfolding read_trust write_trust
trust takes f file = trust_in takes f file (read_trust file)

abbrev drop_pin : Bool → String → TrustFile → Dict String String → Option String → Bool × TrustFile
drop_pin takes name file pins none = (true, file)
drop_pin takes name file pins (some checksum) = write_trust takes (Dict.erase name pins) file

abbrev untrust_in : Bool → String → TrustFile → Option (Dict String String) → Bool × TrustFile
untrust_in takes name file none = (false, file)
untrust_in takes name file (some pins) = drop_pin takes name file pins (Dict.lookup name pins)

-- Untrust
unfoldable pub untrust : Bool → String → TrustFile → Bool × TrustFile
unfolding read_trust write_trust
untrust takes name file = untrust_in takes name file (read_trust file)

abbrev file_at : Files → Option String → Bool
file_at disk none = false
file_at disk (some path) = disk.is_file path

abbrev path_of : Files → String → Option String → Option String
path_of disk pin none = some (disk.flow_path pin)
path_of disk pin (some model) = disk.model_path model

-- pinStillHasAFile
unfoldable pub pin_still_has_a_file : Files → String → Bool
unfolding cut_prefix
pin_still_has_a_file disk pin = file_at disk (path_of disk pin (cut_prefix "model:" pin))

-- The loop of Prune: the pins that it keeps, and how many it removes.
unfoldable pub prune_pins : Files → Dict String String → Dict String String × ℕ
unfolding pin_still_has_a_file
prune_pins disk [] = ([], 0)
prune_pins disk ((name, checksum) ∷ pins) =
    let (kept, removed) = prune_pins disk pins in
    if pin_still_has_a_file disk name
    then ((name, checksum) ∷ kept, removed)
    else (kept, suc removed)

abbrev save_pruned : Bool → TrustFile → Dict String String × ℕ → (Bool × ℕ) × TrustFile
save_pruned takes file (kept, removed) =
    let (ok, after) = write_trust takes kept file in
    if removed =? 0 then ((true, 0), file) else ((ok, removed), after)

abbrev prune_in : Bool → Files → TrustFile → Option (Dict String String) → (Bool × ℕ) × TrustFile
prune_in takes disk file none = ((false, 0), file)
prune_in takes disk file (some pins) = save_pruned takes file (prune_pins disk pins)

-- Prune: whether the error is nil, and the number of pins that went.
unfoldable pub prune : Bool → Files → TrustFile → (Bool × ℕ) × TrustFile
unfolding read_trust write_trust prune_pins
prune takes disk file = prune_in takes disk file (read_trust file)
