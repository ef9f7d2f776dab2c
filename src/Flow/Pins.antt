-- ===== src/Flow/Pins.antt =====
-- The pins that a history of operations leaves.
use jardin.Base.{
  String, Bool, true, false, not, ◌&&◌, Option, none, some, List, [], ◌∷◌, ◌≡◌, refl, ap, sym, ◌∙◌,
  arith,
}
use jardin.Base.{◌==◌, string_eq, nat_eq, if◌then◌else◌, Option-cases, inl, inr}
use jardin.Base.Dict
use jardin.Base.Dict.{Dict, lookup-insert, lookup-erase}
use jardin.Flow.Trust.{
  TrustFile, TrustState, trusted, not_pinned, changed, unknown, trust_state, Files, Pinnable,
  read_trust, write_trust, trusted_checksum, is_trusted, trust, untrust, pin_still_has_a_file,
  prune_pins, prune,
}

-- An operation, with whether the disk takes its write. A prune comes with the files of that moment.
pub data Operation : Type 0 where
  trusts : Bool → Pinnable → Operation
  untrusts : Bool → String → Operation
  prunes : Bool → Files → Operation

unfoldable pub perform : Operation → TrustFile → TrustFile
perform (trusts takes f) file = (trust takes f file).1
perform (untrusts takes name) file = (untrust takes name file).1
perform (prunes takes disk) file = (prune takes disk file).1

unfoldable pub perform_all : List Operation → TrustFile → TrustFile
unfolding perform
perform_all [] file = file
perform_all (o ∷ os) file = perform_all os (perform o file)

-- The checksum of a name, told from the operations alone: the last one that the disk took decides.
unfoldable pub decided : String → Operation → Option String → Option String
decided name (trusts takes f) pin = if takes && (name == f.name) then some f.checksum else pin
decided name (untrusts takes other) pin = if takes && (name == other) then none else pin
decided name (prunes takes disk) pin =
    if takes && not (pin_still_has_a_file disk name) then none else pin

unfoldable pub decided_all : String → List Operation → Option String → Option String
unfolding decided
decided_all name [] pin = pin
decided_all name (o ∷ os) pin = decided_all name os (decided name o pin)

lookup-prune_pins :
    (disk : Files) (name : String) (pins : Dict String String)
    → Dict.lookup name (prune_pins disk pins).0
      ≡ (if pin_still_has_a_file disk name then Dict.lookup name pins else none)
unfolding prune_pins Dict.lookup
lookup-prune_pins disk name [] = ground arith
lookup-prune_pins disk name ((k, checksum) ∷ pins) =
    ground (arith, lookup-prune_pins disk name pins)

-- With nothing removed, every pin has its file.
prune_pins-all :
    (disk : Files) (name : String) (pins : Dict String String)
    → (prune_pins disk pins).1 ≡ 0
    → (prune_pins disk pins).0 ≡ pins
unfolding prune_pins
prune_pins-all disk name [] h = refl
prune_pins-all disk name ((k, checksum) ∷ pins) h = ground (arith, h, prune_pins-all disk name pins)

-- After the operation, the file holds pins that give the name what the operation decides.
record Decides (name : String) (o : Operation) (pins : Dict String String) (file : TrustFile)
    : Type 0 where
  after : Dict String String
  reads : read_trust file ≡ some after
  decides : Dict.lookup name after ≡ decided name o (Dict.lookup name pins)

perform-Decides :
    (name : String) (o : Operation) (file : TrustFile) (pins : Dict String String)
    → read_trust file ≡ some pins
    → Decides name o pins (perform o file)
unfolding perform decided trust untrust prune write_trust read_trust
perform-Decides name (trusts true f) file pins h = record {
  after = Dict.insert f.name f.checksum pins;
  reads = ground (arith, h);
  decides = ground (arith, lookup-insert name f.name f.checksum pins);
}
perform-Decides name (trusts false f) file pins h = record {
  after = pins;
  reads = ground (arith, h);
  decides = refl;
}
perform-Decides name (untrusts false other) file pins h =
    elim (Option-cases (Dict.lookup other pins)) [
      | inl free ↦ record { after = pins; reads = ground (arith, h, free); decides = refl }
      | inr (checksum, held) ↦ record {
        after = pins;
        reads = ground (arith, h, held);
        decides = refl;
      }
    ]
perform-Decides name (untrusts true other) file pins h =
    elim (Option-cases (Dict.lookup other pins)) [
      | inl free ↦ record {
        after = pins;
        reads = ground (arith, h, free);
        decides = ground (arith, free);
      }
      | inr (checksum, held) ↦ record {
        after = Dict.erase other pins;
        reads = ground (arith, h, held);
        decides = ground (arith, lookup-erase name other pins);
      }
    ]
perform-Decides name (prunes false disk) file pins h = record {
  after = pins;
  reads = ground (arith, h);
  decides = refl;
}
perform-Decides name (prunes true disk) file pins h = elim (nat_eq.dec (prune_pins disk pins).1 0) [
  | yes all ↦ record {
    after = pins;
    reads = ground (arith, h, all);
    decides =
        ap (Dict.lookup name) (sym (prune_pins-all disk name pins all))
        ∙ ground (arith, lookup-prune_pins disk name pins);
  }
  | no some_gone ↦ record {
    after = (prune_pins disk pins).0;
    reads = ground (arith, h, some_gone);
    decides = ground (arith, lookup-prune_pins disk name pins);
  }
]

-- What trust_state says of a flow, from its pin.
abbrev pub approves : Option String → String → Bool
approves none checksum = false
approves (some pinned) checksum = not (pinned == "") && (pinned == checksum)

pub perform_all-is_trusted :
    (os : List Operation) (file : TrustFile) (pins : Dict String String) (f : Pinnable)
    → read_trust file ≡ some pins
    → is_trusted f (perform_all os file)
      ≡ some (approves (decided_all f.name os (Dict.lookup f.name pins)) f.checksum)
unfolding perform_all decided_all is_trusted trusted_checksum
perform_all-is_trusted [] file pins f h = ground (arith, h)
perform_all-is_trusted (o ∷ os) file pins f h =
    let d = perform-Decides f.name o file pins h in
    perform_all-is_trusted os (perform o file) d.after f d.reads
    ∙ ap (λ pin. some (approves (decided_all f.name os pin) f.checksum)) d.decides

perform-same : (o : Operation) (file : TrustFile) → read_trust file ≡ none → perform o file ≡ file
unfolding perform trust untrust prune
perform-same (trusts takes f) file h = ground (arith, h)
perform-same (untrusts takes name) file h = ground (arith, h)
perform-same (prunes takes disk) file h = ground (arith, h)

-- A file of pins that cannot be read stays so through every history of operations: each of them
-- refuses, no flow is trusted, and the state of every flow is `unknown`.
perform_all-unreadable :
    (os : List Operation) (file : TrustFile) (f : Pinnable)
    → read_trust file ≡ none
    → (perform_all os file ≡ file)
      × (is_trusted f (perform_all os file) ≡ none)
      × (trust_state f (perform_all os file) ≡ unknown)
unfolding perform_all perform trust untrust prune is_trusted trust_state trusted_checksum
perform_all-unreadable [] file f h = ground (arith, h)
perform_all-unreadable (o ∷ os) file f h =
    let same : perform o file ≡ file = perform-same o file h in
    rw same (perform_all-unreadable os file f h)

abbrev pub verdict_of : TrustState → Option Bool
verdict_of trusted = some true
verdict_of not_pinned = some false
verdict_of changed = some false
verdict_of unknown = none

-- TrustState and IsTrusted agree: IsTrusted is an error exactly where the state is `unknown`, and says
-- yes exactly where it is `trusted`.
is_trusted-trust_state :
    (f : Pinnable) (file : TrustFile) → is_trusted f file ≡ verdict_of (trust_state f file)
unfolding trust_state is_trusted trusted_checksum
is_trusted-trust_state f file = elim (Option-cases (read_trust file)) [
  | inl broken ↦ ground (arith, broken)
  | inr (pins, reads) ↦ ground (arith, reads)
]
