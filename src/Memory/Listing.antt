-- ===== src/Memory/Listing.antt =====
-- What NormativePages and ChangedPages list.
use jardin.Base.{
  String, ◌<>◌, ◌≤◌, Bool, true, false, not, ◌&&◌, Option, none, some, List, [], ◌∷◌, ◌++◌, ◌≡◌,
  ◌≢◌, refl, ◌∙◌, arith,
}
use jardin.Base.{
  ◌==◌, string_eq, contains, length, if◌then◌else◌, Option-cases, Bool-cases, inl, inr,
}
use jardin.Base.Dict
use jardin.Base.Dict.{Dict, NodupKeys, keys, lookup-insert, lookup-erase}
use jardin.Base.Text.{has_suffix}
use jardin.Memory.Frontmatter.{frontmatter}
use jardin.Memory.Ratify.{
  Standing, ratified, unratified, changed, missing_page, Ratification, Page, NormativePage, Wiki,
  done, Library, read_pins, read_page, pin_at, standing_of, checksum, describe, normative,
  insert_page, sort_pages, walked_pages, seen_keys, missing_pages, normative_pages, has_moved,
  changed_keys,
}

abbrev pub is_changed : Standing → Bool
is_changed ratified = false
is_changed unratified = false
is_changed changed = true
is_changed missing_page = false

-- What ChangedPages says of a page, from its pin.
abbrev moved_at : Library → Option String → Option Ratification → Bool
moved_at lib body none = false
moved_at lib body (some pin) = has_moved lib body pin

-- The entries of a listing with a path.
unfoldable pub entries_at : String → List NormativePage → List NormativePage
entries_at q [] = []
entries_at q (p ∷ ps) = let rest = entries_at q ps in if q == p.path then p ∷ rest else rest

-- What a listing says of a pinned page that it has not found.
abbrev pub lost_entry : String → Option Ratification → List NormativePage
lost_entry q none = []
lost_entry q (some pin) =
    (record { path = q; standing = missing_page; on = pin.date; machine = pin.machine }) ∷ []

module _ (lib : Library) where
  contains-changed_keys :
      (tree : Dict String Page) (pins : Dict String Ratification) (key : String)
      → NodupKeys pins
      → contains (changed_keys lib tree pins) key
        ≡ moved_at lib (read_page tree key) (Dict.lookup key pins)
  unfolding changed_keys Dict.lookup
  contains-changed_keys tree [] key u = refl
  contains-changed_keys tree ((k, pin) ∷ pins) key u =
      ground (arith, u.0, contains-changed_keys tree pins key u.1)

  -- For every page that can be read, ChangedPages marks it exactly where its standing is `changed`, if
  -- the pin store holds each page once and no pin has an empty checksum.
  changed_keys-standing :
      (tree : Dict String Page) (pins : Dict String Ratification) (key body : String)
      → NodupKeys pins
      → ((pin : Ratification) → Dict.lookup key pins ≡ some pin → pin.checksum ≢ "")
      → read_page tree key ≡ some body
      → contains (changed_keys lib tree pins) key
        ≡ is_changed (standing_of (pin_at pins key).checksum (checksum lib body))
  unfolding pin_at standing_of
  changed_keys-standing tree pins key body u full reads =
      elim (Option-cases (Dict.lookup key pins)) [
        | inl free ↦ ground (arith, contains-changed_keys tree pins key u, free, reads)
        | inr (pin, held) ↦
            ground (arith, contains-changed_keys tree pins key u, held, reads, full pin held)
      ]

  -- A Markdown file that can be read and whose frontmatter has the type `standard`.
  abbrev pub is_standard : String → Page → Bool
  is_standard q page =
      has_suffix q ".md"
      && (not page.locked && (frontmatter lib.trim_space page.bytes).0.kind == "standard")

  abbrev pub standing_by : String → String → Standing
  standing_by pinned bytes =
      if pinned == ""
      then unratified
      else if pinned == ("sha256:" <> lib.hash bytes)
      then ratified
      else changed

  -- What a listing says of a page that it has found.
  abbrev pub found_entry : String → String → Option Ratification → NormativePage
  found_entry q bytes none = record { path = q; standing = unratified; on = ""; machine = "" }
  found_entry q bytes (some pin) = record {
    path = q;
    standing = standing_by pin.checksum bytes;
    on = pin.date;
    machine = pin.machine;
  }

  -- The entries of a path, from the file that the tree has there and the pin of it.
  abbrev pub expected_entries : String → Option Page → Option Ratification → List NormativePage
  expected_entries q none pin = lost_entry q pin
  expected_entries q (some page) pin =
      if is_standard q page then found_entry q page.bytes pin ∷ [] else lost_entry q pin

  entries_at-insert_page :
      (p : NormativePage) (ps : List NormativePage) (q : String)
      → q == p.path ≡ false
      → entries_at q (insert_page p ps) ≡ entries_at q ps
  unfolding insert_page entries_at
  entries_at-insert_page p [] q other = ground (arith, other)
  entries_at-insert_page p (r ∷ ps) q other =
      ground (arith, other, entries_at-insert_page p ps q other)

  entries_at-insert_new :
      (p : NormativePage) (ps : List NormativePage) (q : String)
      → q == p.path ≡ true
      → entries_at q ps ≡ []
      → entries_at q (insert_page p ps) ≡ p ∷ []
  unfolding insert_page entries_at
  entries_at-insert_new p [] q same free = ground (arith, same)
  entries_at-insert_new p (r ∷ ps) q same free = elim (Bool-cases (q == r.path)) [
    | inl here ↦ absurd (ground (arith, here, free))
    | inr away ↦
        ground
          (arith, same, away, free, entries_at-insert_new p ps q same (ground (arith, away, free)))
  ]

  -- A list of one entry at most.
  abbrev IsSingle : List NormativePage → Type 0
  IsSingle ps = length ps ≤ 1

  entries_at-sort_pages :
      (ps : List NormativePage) (q : String)
      → IsSingle (entries_at q ps)
      → entries_at q (sort_pages ps) ≡ entries_at q ps
  unfolding sort_pages entries_at
  entries_at-sort_pages [] q one = refl
  entries_at-sort_pages (p ∷ ps) q one = elim (Bool-cases (q == p.path)) [
    | inr away ↦ ground (
      arith,
      away,
      one,
      entries_at-insert_page p (sort_pages ps) q away,
      entries_at-sort_pages ps q (ground (arith, away, one)),
    )
    | inl here ↦
        let free : entries_at q ps ≡ [] = empty (entries_at q ps) (ground (arith, here, one)) in
        ground (
          arith,
          here,
          free,
          entries_at-insert_new p (sort_pages ps) q here
              (entries_at-sort_pages ps q (ground (arith, free)) ∙ free),
        )
  ]
    where
      empty : (ps : List NormativePage) → length ps ≤ 0 → ps ≡ []
      empty [] h = refl
      empty (p ∷ ps) h = absurd (omega (arith, h))

  entries_at-append :
      (ps qs : List NormativePage) (q : String)
      → entries_at q (ps ++ qs) ≡ entries_at q ps ++ entries_at q qs
  unfolding entries_at
  entries_at-append [] qs q = refl
  entries_at-append (p ∷ ps) qs q = ground (arith, entries_at-append ps qs q)

  abbrev found_at : String → Option Page → Option Ratification → List NormativePage
  found_at q none pin = []
  found_at q (some page) pin = if is_standard q page then found_entry q page.bytes pin ∷ [] else []

  abbrev is_found : String → Option Page → Bool
  is_found q none = false
  is_found q (some page) = is_standard q page

  normative-lem : (q : String) (page : Page) → normative lib q page ≡ is_standard q page
  unfolding normative
  normative-lem q page = ground arith

  describe-path : (k : String) (pin : Ratification) (s : Standing) → (describe k pin s).path ≡ k
  unfolding describe
  describe-path k pin s = refl

  describe-found :
      (pins : Dict String Ratification) (q bytes : String)
      → describe q (pin_at pins q) (standing_of (pin_at pins q).checksum (checksum lib bytes))
        ≡ found_entry q bytes (Dict.lookup q pins)
  unfolding describe pin_at standing_of checksum
  describe-found pins q bytes = elim (Option-cases (Dict.lookup q pins)) [
    | inl free ↦ ground (arith, free)
    | inr (pin, held) ↦ ground (arith, held)
  ]

  entries_at-walked_pages :
      (pins : Dict String Ratification) (tree : Dict String Page) (q : String)
      → NodupKeys tree
      → entries_at q (walked_pages lib pins tree)
        ≡ found_at q (Dict.lookup q tree) (Dict.lookup q pins)
  unfolding walked_pages entries_at Dict.lookup
  entries_at-walked_pages pins [] q u = refl
  entries_at-walked_pages pins ((k, page) ∷ tree) q u =
      let rest = entries_at-walked_pages pins tree q u.1 in
      let path : (describe k (pin_at pins k)
            (standing_of (pin_at pins k).checksum (checksum lib page.bytes))).path
          ≡ k =
        describe-path k (pin_at pins k)
          (standing_of (pin_at pins k).checksum (checksum lib page.bytes)) in
      elim (Bool-cases (q == k)) [
        | inr away ↦ ground (arith, away, path, rest)
        | inl here ↦
            ground
              (arith, here, path, rest, u.0, describe-found pins q page.bytes, normative-lem q page)
      ]

  contains-seen_keys :
      (tree : Dict String Page) (q : String)
      → NodupKeys tree
      → contains (seen_keys lib tree) q ≡ is_found q (Dict.lookup q tree)
  unfolding seen_keys Dict.lookup
  contains-seen_keys [] q u = refl
  contains-seen_keys ((k, page) ∷ tree) q u =
      ground (arith, contains-seen_keys tree q u.1, u.0, normative-lem q page)

  entries_at-missing_pages :
      (seen : List String) (pins : Dict String Ratification) (q : String)
      → NodupKeys pins
      → entries_at q (missing_pages lib seen pins)
        ≡ (if contains seen q then [] else lost_entry q (Dict.lookup q pins))
  unfolding missing_pages entries_at describe Dict.lookup
  entries_at-missing_pages seen [] q u = ground arith
  entries_at-missing_pages seen ((k, pin) ∷ pins) q u =
      ground (arith, entries_at-missing_pages seen pins q u.1, u.0)

  -- The listing before it is sorted.
  entries_at-unsorted :
      (tree : Dict String Page) (pins : Dict String Ratification) (q : String)
      → NodupKeys tree
      → NodupKeys pins
      → entries_at q (walked_pages lib pins tree ++ missing_pages lib (seen_keys lib tree) pins)
        ≡ expected_entries q (Dict.lookup q tree) (Dict.lookup q pins)
  entries_at-unsorted tree pins q u v =
      entries_at-append (walked_pages lib pins tree) (missing_pages lib (seen_keys lib tree) pins) q
      ∙ joined (Dict.lookup q tree) (Dict.lookup q pins) (entries_at-walked_pages pins tree q u)
          (entries_at-missing_pages (seen_keys lib tree) pins q v) (contains-seen_keys tree q u)
    where
      joined :
          {as_ bs : List NormativePage} {seen : Bool} (page : Option Page)
          (pin : Option Ratification)
          → as_ ≡ found_at q page pin
          → bs ≡ (if seen then [] else lost_entry q pin)
          → seen ≡ is_found q page
          → as_ ++ bs ≡ expected_entries q page pin
      joined none pin e f g = ground (arith, e, f, g)
      joined (some page) pin e f g = ground (arith, e, f, g)

  expected_entries-single :
      (q : String) (page : Option Page) (pin : Option Ratification)
      → length (expected_entries q page pin) ≤ 1
  expected_entries-single q none none = omega arith
  expected_entries-single q none (some pin) = omega arith
  expected_entries-single q (some page) none = ground arith
  expected_entries-single q (some page) (some pin) = ground arith

  pub normative_pages-entries :
      (w : Wiki) (pins : Dict String Ratification) (q : String)
      → read_pins w.pins ≡ done pins
      → NodupKeys w.tree
      → NodupKeys pins
      → (pages : List NormativePage) × (normative_pages lib w ≡ done pages)
        × (entries_at q pages ≡ expected_entries q (Dict.lookup q w.tree) (Dict.lookup q pins))
  unfolding normative_pages
  normative_pages-entries w pins q e u v =
      let all = walked_pages lib pins w.tree ++ missing_pages lib (seen_keys lib w.tree) pins in
      let same = entries_at-unsorted w.tree pins q u v in
      let single = expected_entries-single q (Dict.lookup q w.tree) (Dict.lookup q pins) in
      (sort_pages all, ground (arith, e), entries_at-sort_pages all q (rw same single) ∙ same)
