-- ===== src/Memory/Refusal.antt =====
-- What Ratify answers, on every way that it can fail.
use jardin.Base.{
  String, Bool, true, false, ◌||◌, Option, none, some, List, [], ◌∷◌, ◌≡◌, refl, ap, ◌∙◌, ◌⊎◌,
  arith,
}
use jardin.Base.{◌==◌, string_eq, if◌then◌else◌, Option-cases, Bool-cases, inl, inr}
use jardin.Base.Dict
use jardin.Base.Dict.{Dict}
use jardin.Base.Text.{has_prefix}
use jardin.Memory.Ratify.{
  Ratification, Page, PinStore, absent, unreadable, corrupt, holds, Wiki, RatifyError,
  read_pins_failed, corrupt_pins, write_pins_failed, not_a_page, no_such_page, Outcome, done,
  failed, ◌>>=◌, Library, read_pins, write_pins, read_page, checksum, page_key, ratify_all, commit,
  ratify,
}

-- What is wrong with a file that a path names.
abbrev file_problem : String → Option Page → Option RatifyError
file_problem key none = some (no_such_page key)
file_problem key (some page) = if page.locked then some (no_such_page key) else none

module _ (lib : Library) (tree : Dict String Page) where
  -- What is wrong with a path: it is absolute, it leaves the wiki, or no file that can be read is there.
  abbrev path_problem : String → Option RatifyError
  path_problem path =
      let key = lib.clean path in
      if has_prefix path "/" || (key == ".." || has_prefix key "../")
      then some (not_a_page path)
      else file_problem key (Dict.lookup key tree)

  abbrev first_of : Option RatifyError → Option RatifyError → Option RatifyError
  first_of (some e) later = some e
  first_of none later = later

  unfoldable pub first_problem : List String → Option RatifyError
  unfolding has_prefix
  first_problem [] = none
  first_problem (path ∷ paths) = first_of (path_problem path) (first_problem paths)

-- The answer, from the first problem and whether the store can be written.
abbrev answer : Option RatifyError → Bool → Outcome (Unit {0})
answer (some e) sealed = failed e
answer none true = failed write_pins_failed
answer none false = done tt

-- The answer, from the state of the pin store too.
abbrev pub expected_answer : PinStore → Option RatifyError → Bool → Outcome (Unit {0})
expected_answer absent problem sealed = answer problem sealed
expected_answer unreadable problem sealed = failed read_pins_failed
expected_answer corrupt problem sealed = failed corrupt_pins
expected_answer (holds pins) problem sealed = answer problem sealed

abbrev error_of : {A : Type 0} → Outcome A → Option RatifyError
error_of (done x) = none
error_of (failed e) = some e

module _ (lib : Library) (machine day : String) where
  -- The loop ends in its first problem, or at its end.
  error_of-ratify_all :
      (paths : List String) (tree : Dict String Page) (pins : Dict String Ratification)
      → error_of (ratify_all lib machine day paths tree pins) ≡ first_problem lib tree paths
  unfolding ratify_all first_problem page_key read_page
  error_of-ratify_all [] tree pins = refl
  error_of-ratify_all (path ∷ paths) tree pins =
      let key = lib.clean path in
      elim (Bool-cases (has_prefix path "/" || key == ".." || has_prefix key "../")) [
        | inl bad ↦ ground (arith, bad)
        | inr good ↦ elim (Option-cases (Dict.lookup key tree)) [
          | inl gone ↦ ground (arith, good, gone)
          | inr (page, here) ↦ ground (
            arith,
            good,
            here,
            error_of-ratify_all paths tree (
                Dict.insert key
                  (record { checksum = checksum lib page.bytes; machine = machine; date = day })
                  pins),
          )
        ]
      ]

  committed :
      (r : Outcome (Dict String Ratification)) (w : Wiki)
      → ((commit lib r w).0 ≡ answer (error_of r) w.sealed)
        × (((commit lib r w).0 ≡ done tt) ⊎ ((commit lib r w).1 ≡ w))
  unfolding write_pins
  committed (failed x) w = (refl, inr refl)
  committed (done pins) w = elim (Bool-cases w.sealed) [
    | inl shut ↦ rw shut (refl, inr refl)
    | inr free ↦ rw free (refl, inl refl)
  ]

  -- Ratify answers with the error of reading the pins, if they cannot be read or decoded; else with the first
  -- problem along the paths that it is given: a path that is absolute or leaves the wiki is no page, and one
  -- where no file that can be read is has no such page; else with the error of writing the pins, if they cannot
  -- be written; and it succeeds only if there is none of these. If it does not succeed, the pins and the tree
  -- are as they were.
  pub ratify-answers :
      (paths : List String) (w : Wiki)
      → ((ratify lib machine day paths w).0
          ≡ expected_answer w.pins (first_problem lib w.tree paths) w.sealed)
        × (((ratify lib machine day paths w).0 ≡ done tt)
            ⊎ ((ratify lib machine day paths w).1 ≡ w))
  unfolding ratify read_pins
  ratify-answers paths w =
      let (same, kept) =
        committed (read_pins w.pins >>= ratify_all lib machine day paths w.tree) w in
      (same ∙ told (w.pins), kept)
    where
      told :
          (store : PinStore)
          → answer (error_of (read_pins store >>= ratify_all lib machine day paths w.tree)) w.sealed
            ≡ expected_answer store (first_problem lib w.tree paths) w.sealed
      told absent = ap (λ e. answer e w.sealed) (error_of-ratify_all paths w.tree [])
      told unreadable = refl
      told corrupt = refl
      told (holds pins) = ap (λ e. answer e w.sealed) (error_of-ratify_all paths w.tree pins)
