-- ===== src/Memory/Ratify.antt =====
-- internal/memory/ratify.go: which pages a person accepted on this machine, and what became of them.
use jardin.Base.{
  String, ◌<>◌, Bool, true, false, not, ◌&&◌, ◌||◌, Option, none, some, List, [], ◌∷◌, ◌++◌,
}
use jardin.Base.{◌==◌, string_eq, contains, if◌then◌else◌}
use jardin.Base.Dict
use jardin.Base.Dict.{Dict}
use jardin.Base.Text.{has_prefix, has_suffix, text_lt}
use jardin.Memory.Frontmatter.{frontmatter}

pub data Standing : Type 0 where
  ratified unratified changed missing_page : Standing

pub record Ratification : Type 0 where
  pub checksum : String
  pub machine : String
  pub date : String

-- Go's zero value, which a map gives for a missing key.
abbrev pub no_pin : Ratification
no_pin = record { checksum = ""; machine = ""; date = "" }

pub record NormativePage : Type 0 where
  pub path : String
  pub standing : Standing
  pub on : String
  pub machine : String

-- The method OK.
unfoldable pub is_ok : NormativePage → Bool
is_ok p = elim p.standing [
  | ratified ↦ true
  | unratified ↦ true
  | changed ↦ false
  | missing_page ↦ false
]

-- A file below the wiki's root. A locked one cannot be read.
pub record Page : Type 0 where
  pub bytes : String
  pub locked : Bool

-- The pin store, as reading and decoding it can turn out.
pub data PinStore : Type 0 where
  absent unreadable corrupt : PinStore
  holds : Dict String Ratification → PinStore

-- `sealed` is true where the pin store cannot be written.
pub record Wiki : Type 0 where
  pub tree : Dict String Page
  pub pins : PinStore
  pub sealed : Bool

pub data RatifyError : Type 0 where
  read_pins_failed corrupt_pins write_pins_failed : RatifyError
  not_a_page no_such_page : String → RatifyError

pub data Outcome (A : Type 0) : Type 0 where
  done : A → Outcome A
  failed : RatifyError → Outcome A

infixl 5 ◌>>=◌
abbrev pub ◌>>=◌ : {A B : Type 0} → Outcome A → (A → Outcome B) → Outcome B
done a >>= f = f a
failed e >>= f = failed e

-- What this code calls and does not hold: sha256 in hexadecimal, filepath.Clean and
-- strings.TrimSpace.
pub record Library : Type 0 where
  pub hash : String → String
  pub clean : String → String
  pub trim_space : String → String

unfoldable pub read_pins : PinStore → Outcome (Dict String Ratification)
read_pins absent = done []
read_pins unreadable = failed read_pins_failed
read_pins corrupt = failed corrupt_pins
read_pins (holds pins) = done pins

-- `writePins`: a temporary file is renamed over the store, or nothing changes.
unfoldable pub write_pins : Dict String Ratification → Wiki → Outcome (Unit {0}) × Wiki
write_pins pins w =
    if w.sealed then (failed write_pins_failed, w) else (done tt, record w { pins = holds pins })

-- The bytes of a page that can be read.
abbrev readable : Option Page → Option String
readable none = none
readable (some page) = if page.locked then none else some page.bytes

unfoldable pub read_page : Dict String Page → String → Option String
read_page tree key = readable (Dict.lookup key tree)

abbrev pub pin_or : Option Ratification → Ratification
pin_or none = no_pin
pin_or (some pin) = pin

-- `pins[key]`
unfoldable pub pin_at : Dict String Ratification → String → Ratification
pin_at pins key = pin_or (Dict.lookup key pins)

-- The function `standing`.
unfoldable pub standing_of : String → String → Standing
standing_of pinned actual =
    if pinned == "" then unratified else if pinned == actual then ratified else changed

unfoldable pub describe : String → Ratification → Standing → NormativePage
describe key pin s = record { path = key; standing = s; on = pin.date; machine = pin.machine }

-- sort.Slice by the paths, which are all different.
unfoldable pub insert_page : NormativePage → List NormativePage → List NormativePage
insert_page p [] = p ∷ []
insert_page p (q ∷ qs) =
    let rest = insert_page p qs in if text_lt q.path p.path then q ∷ rest else p ∷ q ∷ qs

unfoldable pub sort_pages : List NormativePage → List NormativePage
unfolding insert_page
sort_pages [] = []
sort_pages (p ∷ ps) = insert_page p (sort_pages ps)

module _ (lib : Library) where
  -- Checksum
  unfoldable pub checksum : String → String
  checksum body = "sha256:" <> lib.hash body

  unfoldable pub page_key : String → Outcome String
  page_key path =
      let key = lib.clean path in
      if has_prefix path "/" || key == ".." || has_prefix key "../"
      then failed (not_a_page path)
      else done key

  -- The loop of Ratify, on the pins that it has read.
  unfoldable pub ratify_all :
      String
      → String
      → List String
      → Dict String Page
      → Dict String Ratification
      → Outcome (Dict String Ratification)
  unfolding page_key read_page checksum
  ratify_all machine day [] tree pins = done pins
  ratify_all machine day (path ∷ paths) tree pins = page_key path >>= λ key.
      elim (read_page tree key) [
        | none ↦ failed (no_such_page key)
        | some body ↦ ratify_all machine day paths tree (
            Dict.insert key (record { checksum = checksum body; machine = machine; date = day })
              pins)
      ]

  -- What Ratify and Forget do with the pins that they computed.
  abbrev pub commit : Outcome (Dict String Ratification) → Wiki → Outcome (Unit {0}) × Wiki
  commit (done pins) w = write_pins pins w
  commit (failed e) w = (failed e, w)

  -- Ratify, on the day `day`.
  unfoldable pub ratify : String → String → List String → Wiki → Outcome (Unit {0}) × Wiki
  unfolding ratify_all read_pins write_pins
  ratify machine day paths w = commit (read_pins w.pins >>= ratify_all machine day paths w.tree) w

  -- The loop of Forget.
  unfoldable pub forget_all :
      List String → Dict String Ratification → Outcome (Dict String Ratification)
  unfolding page_key
  forget_all [] pins = done pins
  forget_all (path ∷ paths) pins = page_key path >>= λ key. forget_all paths (Dict.erase key pins)

  unfoldable pub forget : List String → Wiki → Outcome (Unit {0}) × Wiki
  unfolding forget_all read_pins write_pins
  forget paths w = commit (read_pins w.pins >>= forget_all paths) w

  -- Whether the walk of NormativePages lists a file, and then its bytes.
  unfoldable pub normative : String → Page → Bool
  unfolding frontmatter has_suffix
  normative key page =
      has_suffix key ".md"
      && not page.locked
      && (frontmatter lib.trim_space page.bytes).0.kind == "standard"

  -- The pages that the walk finds.
  unfoldable pub walked_pages : Dict String Ratification → Dict String Page → List NormativePage
  unfolding normative pin_at standing_of describe checksum
  walked_pages pins [] = []
  walked_pages pins ((key, page) ∷ tree) =
      let rest = walked_pages pins tree in
      if normative key page
      then describe key (pin_at pins key)
          (standing_of (pin_at pins key).checksum (checksum page.bytes))
        ∷ rest
      else rest

  -- The keys that the walk has seen.
  unfoldable pub seen_keys : Dict String Page → List String
  unfolding normative
  seen_keys [] = []
  seen_keys ((key, page) ∷ tree) =
      let rest = seen_keys tree in if normative key page then key ∷ rest else rest

  -- The pins that the walk has not seen.
  unfoldable pub missing_pages : List String → Dict String Ratification → List NormativePage
  unfolding describe
  missing_pages seen [] = []
  missing_pages seen ((key, pin) ∷ pins) =
      let rest = missing_pages seen pins in
      if contains seen key then rest else describe key pin missing_page ∷ rest

  -- NormativePages
  unfoldable pub normative_pages : Wiki → Outcome (List NormativePage)
  unfolding read_pins walked_pages seen_keys missing_pages sort_pages
  normative_pages w = read_pins w.pins >>= λ pins.
      done (sort_pages (walked_pages pins w.tree ++ missing_pages (seen_keys w.tree) pins))

  -- Whether the bytes of a pinned page have moved.
  abbrev pub has_moved : Option String → Ratification → Bool
  has_moved none pin = true
  has_moved (some body) pin = not (checksum body == pin.checksum)

  -- The set that ChangedPages gives, as the list of its keys. Its early return on no pins is the
  -- empty loop.
  unfoldable pub changed_keys : Dict String Page → Dict String Ratification → List String
  unfolding read_page
  changed_keys tree [] = []
  changed_keys tree ((key, pin) ∷ pins) =
      let rest = changed_keys tree pins in
      if has_moved (read_page tree key) pin then key ∷ rest else rest

  unfoldable pub changed_pages : Wiki → Outcome (List String)
  unfolding read_pins changed_keys
  changed_pages w = read_pins w.pins >>= λ pins. done (changed_keys w.tree pins)
