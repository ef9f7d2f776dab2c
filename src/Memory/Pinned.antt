-- ===== src/Memory/Pinned.antt =====
-- What Ratify and Forget do to the pins, and how ChangedPages and the standings agree.
use Prim.Native.Char.{Char}
use Prim.Native.String.append
use jardin.Base.{
  String, ◌<>◌, true, false, some, List, [], ◌∷◌, map, ◌≡◌, ◌≢◌, refl, ap, sym, ◌∙◌, ◌⊎◌, arith,
}
use jardin.Base.{string_eq, contains, Option-cases, Bool-cases, inl, inr}
use jardin.Base.Dict
use jardin.Base.Dict.{Dict, NodupKeys, lookup-insert, lookup-erase}
use jardin.Memory.Ratify.{
  ratified, Ratification, Page, holds, Wiki, RatifyError, Outcome, done, failed, ◌>>=◌, Library,
  read_pins, write_pins, read_page, pin_at, standing_of, checksum, page_key, ratify_all, commit,
  ratify,
}

Outcome-cases :
    {A : Type 0} (r : Outcome A) → ((a : A) × (r ≡ done a)) ⊎ ((e : RatifyError) × (r ≡ failed e))
Outcome-cases (done a) = inl (a, refl)
Outcome-cases (failed e) = inr (e, refl)

append-some : (c : Char) (s t : String) → (String.◌∷◌ c s <> t) ≢ ""
append-some c s t = rw append.cons (λ e. absurd (cc e))

module _ (lib : Library) where
  -- The keys that the arguments name.
  abbrev pub named : List String → List String
  named = map lib.clean

  page_key-clean : (path key : String) → page_key lib path ≡ done key → key ≡ lib.clean path
  unfolding page_key
  page_key-clean path key e = ground (arith, e)

  -- The page at a key can be read, and its pin is that of its bytes.
  pub record IsPinned (machine day : String) (tree : Dict String Page)
      (pins : Dict String Ratification) (key : String) : Type 0 where
    pub body : String
    pub reads : read_page tree key ≡ some body
    pub pinned :
        Dict.lookup key pins
        ≡ some (record { checksum = checksum lib body; machine = machine; date = day })

  record Ratifies (machine day : String) (tree : Dict String Page) (keys : List String)
      (pins after : Dict String Ratification) (key : String) : Type 0 where
    listed : contains keys key ≡ true → IsPinned machine day tree after key
    others : contains keys key ≡ false → Dict.lookup key after ≡ Dict.lookup key pins

  module _ (machine day : String) (tree : Dict String Page) where
    abbrev pin_of : String → Ratification
    pin_of body = record { checksum = checksum lib body; machine = machine; date = day }

    one_more :
        (path : String) (paths : List String) (body : String)
        (pins after : Dict String Ratification) (key : String)
        → read_page tree (lib.clean path) ≡ some body
        → Ratifies machine day tree
            (named paths)
            (Dict.insert (lib.clean path) (pin_of body) pins)
            after
            key
        → Ratifies machine day tree (named (path ∷ paths)) pins after key
    one_more path paths body pins after key reads r = record {
      listed = λ h. elim (Bool-cases (contains (named paths) key)) [
        | inl later ↦ r.listed later
        | inr last ↦ record {
          body = body;
          reads = ground (arith, h, last, reads);
          pinned =
              r.others last
              ∙ ground (arith, lookup-insert key (lib.clean path) (pin_of body) pins, h, last);
        }
      ];
      others = λ h.
          r.others (ground (arith, h))
          ∙ ground (arith, lookup-insert key (lib.clean path) (pin_of body) pins, h);
    }

    ratify_all_lem :
        (paths : List String) (pins after : Dict String Ratification) (key : String)
        → ratify_all lib machine day paths tree pins ≡ done after
        → Ratifies machine day tree (named paths) pins after key
    unfolding ratify_all
    ratify_all_lem [] pins after key e = record {
      listed = λ h. absurd (cc);
      others = λ h. ground (arith, e);
    }
    ratify_all_lem (path ∷ paths) pins after key e = elim (Outcome-cases (page_key lib path)) [
      | inr (x, bad) ↦ absurd (ground (arith, e, bad))
      | inl (k, good) ↦ elim (Option-cases (read_page tree k)) [
        | inl gone ↦ absurd (ground (arith, e, good, gone))
        | inr (body, reads) ↦
            let same : k ≡ lib.clean path = page_key-clean path k good in
            one_more path paths body pins after key (rw (sym same) reads) (
              rw (sym same) (
                ratify_all_lem paths (Dict.insert k (pin_of body) pins) after key
                  (ground (arith, e, good, reads))))
      ]
    ]

  checksum-some : (body : String) → checksum lib body ≢ ""
  unfolding checksum
  checksum-some body = append-some "s" "ha256:" (lib.hash body)

  -- The standing of a page under a pin of its own bytes.
  standing-same : (body : String) → standing_of (checksum lib body) (checksum lib body) ≡ ratified
  unfolding standing_of
  standing-same body = ground (arith, checksum-some body)

  module _ (machine day : String) (paths : List String) (w t : Wiki) (key : String) where
    committed :
        (r : Outcome (Dict String Ratification))
        → commit lib r w ≡ (done tt, t)
        → (after : Dict String Ratification) × (r ≡ done after)
          × (t ≡ record w { pins = holds after })
    unfolding write_pins
    committed (failed e) c = absurd (cc)
    committed (done after) c = (after, refl, ground (arith, c))

    ratify_parts :
        ratify lib machine day paths w ≡ (done tt, t)
        → (before : Dict String Ratification) × (after : Dict String Ratification) × (read_pins
              w.pins
            ≡ done before)
          × (t ≡ record w { pins = holds after })
          × Ratifies machine day w.tree (named paths) before after key
    unfolding ratify
    ratify_parts e =
        let (after, found, same) =
          committed (read_pins w.pins >>= ratify_all lib machine day paths w.tree) e in
        elim (Outcome-cases (read_pins w.pins)) [
          | inr (x, bad) ↦ absurd (ground (arith, found, bad))
          | inl (before, good) ↦ (
            before,
            after,
            good,
            same,
            ratify_all_lem machine day w.tree paths before after key (ground (arith, found, good)),
          )
        ]

    -- If Ratify succeeds, then each page that it names can be read, its pin is that of the bytes it holds
    -- now, with the machine and the day, and so its standing is `ratified`. The tree is as it was.
    pub ratify-pins :
        ratify lib machine day paths w ≡ (done tt, t)
        → contains (named paths) key ≡ true
        → (after : Dict String Ratification) × (body : String) × (t.pins ≡ holds after)
          × (t.tree ≡ w.tree)
          × (read_page t.tree key ≡ some body)
          × (Dict.lookup key after
              ≡ some (record { checksum = checksum lib body; machine = machine; date = day }))
          × (standing_of (pin_at after key).checksum (checksum lib body) ≡ ratified)
    unfolding pin_at
    ratify-pins e h =
        let (before, after, good, same, r) = ratify_parts e in
        let p = r.listed h in
        (
          after,
          p.body,
          ap (λ x. x.pins) same,
          ap (λ x. x.tree) same,
          ap (λ x. read_page x.tree key) same ∙ p.reads,
          p.pinned,
          rw p.pinned (standing-same p.body),
        )

    -- If Ratify succeeds, the pin of every page that it does not name is as it was.
    ratify-others :
        ratify lib machine day paths w ≡ (done tt, t)
        → contains (named paths) key ≡ false
        → (before : Dict String Ratification) × (after : Dict String Ratification) × (read_pins
              w.pins
            ≡ done before)
          × (t.pins ≡ holds after)
          × (Dict.lookup key after ≡ Dict.lookup key before)
    ratify-others e h =
        let (before, after, good, same, r) = ratify_parts e in
        (before, after, good, ap (λ x. x.pins) same, r.others h)
