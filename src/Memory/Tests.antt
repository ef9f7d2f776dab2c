-- ===== src/Memory/Tests.antt =====
-- Runs of the ratification on a small wiki, and its theorems at concrete data.
use jardin.Base.{String, true, false, none, some, List, [], ◌∷◌, ◌≡◌, ◌≢◌, refl, contains, map, ◌⊎◌}
use jardin.Base.{string_eq}
use jardin.Base.Dict
use jardin.Base.Dict.{Dict, NodupKeys, keys}
use jardin.Base.Text.{cut_prefix, has_prefix, has_suffix, text_lt}
use jardin.Memory.Frontmatter.{
  cut, lines_of, newlines, trim_left, trim_right, trim_quotes, scalar_in, scalar, frontmatter,
}
use jardin.Memory.Ratify.{
  Library, Ratification, Page, holds, Wiki, done, failed, no_such_page, ratified, changed,
  missing_page, NormativePage, read_pins, write_pins, read_page, pin_at, standing_of, checksum,
  page_key, ratify_all, ratify, forget_all, forget, normative, walked_pages, seen_keys,
  missing_pages, normative_pages, sort_pages, insert_page, describe,
}
use jardin.Memory.Pinned.{named, ratify-pins}
use jardin.Memory.Refusal.{expected_answer, first_problem, ratify-answers}
use jardin.Memory.Listing.{entries_at, expected_entries, normative_pages-entries}

-- A trimming that takes off one space.
abbrev trim_one : String → String
trim_one s = elim (cut_prefix s " ") as (λ x. String) [ none ↦ s | some rest ↦ rest ]

-- A checksum that tells any two contents apart, and plain paths.
abbrev lib : Library
lib = record { hash = λ s. s; clean = λ p. p; trim_space = trim_one }

abbrev page : String → Page
page body = record { bytes = body; locked = false }

abbrev rule_text : String
rule_text = "---\ntype: standard\n---\nuse antt"

abbrev tree : Dict String Page
tree = ("rule.md", page rule_text) ∷ ("note.md", page "hello") ∷ []

abbrev pin : String → Ratification
pin text = record { checksum = text; machine = "desk"; date = "day" }

abbrev pins : Dict String Ratification
pins = ("rule.md", pin "sha256:old") ∷ ("gone.md", pin "sha256:gone") ∷ []

abbrev wiki : Wiki
wiki = record { tree = tree; pins = holds pins; sealed = false }

abbrev wanted : List String
wanted = "rule.md" ∷ []

abbrev wrong : List String
wrong = "rule.md" ∷ "lost.md" ∷ []

abbrev rule : String
rule = "rule.md"

abbrev gone : String
gone = "gone.md"

abbrev after_wiki : Wiki
after_wiki = (ratify lib "desk" "today" wanted wiki).1

runs : ratify lib "desk" "today" wanted wiki ≡ (done tt, after_wiki)
unfolding ratify ratify_all page_key has_prefix read_page read_pins write_pins checksum Dict.lookup
    Dict.insert string_eq
runs = refl

names : contains (named lib wanted) rule ≡ true
unfolding string_eq
names = refl

not-names : contains (named lib wanted) gone ≡ false
unfolding string_eq
not-names = refl

refused : (ratify lib "desk" "today" wrong wiki).0 ≡ failed (no_such_page "lost.md")
unfolding ratify ratify_all page_key has_prefix read_page read_pins write_pins checksum Dict.lookup
    Dict.insert string_eq
refused = refl

once : NodupKeys pins
unfolding Dict.lookup string_eq
once = (refl, (refl, tt))

full : (p : Ratification) → Dict.lookup rule pins ≡ some p → p.checksum ≢ ""
unfolding Dict.lookup string_eq
full p h = λ e. cc

reads : read_page tree rule ≡ some rule_text
unfolding read_page Dict.lookup string_eq
reads = refl

reads_pins : read_pins wiki.pins ≡ done pins
unfolding read_pins
reads_pins = refl

forgets : (forget lib wanted wiki).1.pins ≡ holds (("gone.md", pin "sha256:gone") ∷ [])
unfolding forget forget_all page_key has_prefix read_pins write_pins Dict.erase string_eq
forgets = refl

lists :
    (pages : List NormativePage) × (normative_pages lib wiki ≡ done pages)
    × (map (λ p. p.path) pages ≡ "gone.md" ∷ "rule.md" ∷ [])
unfolding normative_pages read_pins walked_pages seen_keys missing_pages normative has_suffix
    frontmatter scalar scalar_in cut lines_of newlines trim_left trim_right trim_quotes has_prefix
    sort_pages insert_page text_lt describe pin_at standing_of checksum Dict.lookup string_eq
lists = (_, refl, refl)

ratify-pins_example :
    (after : Dict String Ratification) × (body : String) × (after_wiki.pins ≡ holds after)
    × (after_wiki.tree ≡ wiki.tree)
    × (read_page after_wiki.tree rule ≡ some body)
    × (Dict.lookup rule after
        ≡ some (record { checksum = checksum lib body; machine = "desk"; date = "today" }))
    × (standing_of (pin_at after rule).checksum (checksum lib body) ≡ ratified)
ratify-pins_example = ratify-pins lib "desk" "today" wanted wiki after_wiki rule runs names

ratify-answers_example :
    ((ratify lib "desk" "today" wrong wiki).0
      ≡ expected_answer wiki.pins (first_problem lib wiki.tree wrong) wiki.sealed)
    × (((ratify lib "desk" "today" wrong wiki).0 ≡ done tt)
        ⊎ ((ratify lib "desk" "today" wrong wiki).1 ≡ wiki))
ratify-answers_example = ratify-answers lib "desk" "today" wrong wiki

once_in_tree : NodupKeys tree
unfolding Dict.lookup string_eq
once_in_tree = (refl, (refl, tt))

normative_pages-entries_example :
    (pages : List NormativePage) × (normative_pages lib wiki ≡ done pages)
    × (entries_at rule pages
        ≡ expected_entries lib rule (Dict.lookup rule tree) (Dict.lookup rule pins))
normative_pages-entries_example =
    normative_pages-entries lib wiki pins rule reads_pins once_in_tree once

-- The pinned standard has moved since, and stands in the listing once.
rule_entry :
    expected_entries lib rule (Dict.lookup rule tree) (Dict.lookup rule pins)
    ≡ (record { path = rule; standing = changed; on = "day"; machine = "desk" }) ∷ []
unfolding Dict.lookup string_eq has_suffix frontmatter scalar scalar_in cut lines_of newlines
    trim_left trim_right trim_quotes has_prefix
rule_entry = refl

gone_entry :
    expected_entries lib gone (Dict.lookup gone tree) (Dict.lookup gone pins)
    ≡ (record { path = gone; standing = missing_page; on = "day"; machine = "desk" }) ∷ []
unfolding Dict.lookup string_eq
gone_entry = refl
