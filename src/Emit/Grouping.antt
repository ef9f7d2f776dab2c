-- ===== src/Emit/Grouping.antt =====
-- One alert for each account and window: what collectAlert keeps of a pass.
use jardin.Base.{
  ℕ, zero, suc, ◌<◌, String, false, ◌||◌, Option, none, some, List, [], ◌∷◌, ◌++◌, ◌≡◌, refl, sym,
  ◌∙◌, arith,
}
use jardin.Base.{
  ◌==◌, string_eq, nat_eq, ◌=?◌, length, if◌then◌else◌, Option-cases, Bool-cases, inl, inr,
}
use jardin.Base.Dict
use jardin.Base.Dict.{Dict, lookup-insert}
use jardin.Emit.Usage.{Numbers, Snapshot, WindowView, view}
use jardin.Emit.Alerts.{
  Clockwork, AntenneSettings, UsageAlert, email_for, threshold_of, ledger_key, window_alert,
  Collected, nothing, set_at, get_at, beats, add_alert, is_done, collect_alert, collect_windows,
  collect_snapshots, is_before, since_of,
}

pub get_at-add_last :
    {P : Type 0}
    → (i : ℕ) (xs : List (UsageAlert P)) (a : UsageAlert P)
    → get_at i (xs ++ (a ∷ [])) ≡ (if i =? length xs then some a else get_at i xs)
unfolding get_at
get_at-add_last zero [] a = refl
get_at-add_last (suc i) [] a = ground arith
get_at-add_last zero (x ∷ xs) a = ground arith
get_at-add_last (suc i) (x ∷ xs) a = get_at-add_last i xs a ∙ ground arith

pub get_at-lt :
    {P : Type 0}
    → (i : ℕ) (xs : List (UsageAlert P)) (a : UsageAlert P) → get_at i xs ≡ some a
    → i < length xs
unfolding get_at
get_at-lt i [] a e = absurd (cc)
get_at-lt zero (x ∷ xs) a e = omega arith
get_at-lt (suc i) (x ∷ xs) a e = omega (arith, get_at-lt i xs a e)

pub get_at-set_at :
    {P : Type 0}
    → (i j : ℕ) (xs : List (UsageAlert P)) (a b : UsageAlert P) → get_at i xs ≡ some b
    → get_at j (set_at i a xs) ≡ (if j =? i then some a else get_at j xs)
unfolding get_at set_at
get_at-set_at i j [] a b e = absurd (cc)
get_at-set_at zero zero (x ∷ xs) a b e = refl
get_at-set_at zero (suc j) (x ∷ xs) a b e = ground arith
get_at-set_at (suc i) zero (x ∷ xs) a b e = ground arith
get_at-set_at (suc i) (suc j) (x ∷ xs) a b e = get_at-set_at i j xs a b e ∙ ground arith

module _ {P : Type 0} (num : Numbers P) (clock : Clockwork) (ledger : Dict String String) where
  abbrev key_of : UsageAlert P → String
  key_of = ledger_key num clock

  -- The group and the list name each other's entries, and no key in the ledger is listed.
  pub record IsGrouped (c : Collected P) : Type 0 where
    pub placed :
        (key : String) (i : ℕ)
        → Dict.lookup key c.group ≡ some i
        → (a : UsageAlert P) × (get_at i c.out ≡ some a) × (key_of a ≡ key)
    pub grouped :
        (i : ℕ) (a : UsageAlert P)
        → get_at i c.out ≡ some a
        → Dict.lookup (key_of a) c.group ≡ some i
    pub unsent :
        (i : ℕ) (a : UsageAlert P)
        → get_at i c.out ≡ some a
        → is_done num clock (Dict.lookup (key_of a) ledger) ≡ false

  pub nothing-IsGrouped : IsGrouped nothing
  unfolding Dict.lookup get_at
  nothing-IsGrouped = record {
    placed = λ key i h. absurd (cc);
    grouped = λ i a h. absurd (cc);
    unsent = λ i a h. absurd (cc);
  }

  append-IsGrouped :
      (a : UsageAlert P) (c : Collected P)
      → IsGrouped c
      → is_done num clock (Dict.lookup (key_of a) ledger) ≡ false
      → Dict.lookup (key_of a) c.group ≡ none
      → IsGrouped (record {
        out = c.out ++ (a ∷ []);
        group = Dict.insert (key_of a) (length c.out) c.group;
      })
  append-IsGrouped a c g new fresh = record {
    placed = λ key i h. elim (string_eq.dec key (key_of a)) [
      | yes same ↦ (
        a,
        ground (
          arith,
          h,
          same,
          get_at-add_last i c.out a,
          lookup-insert key (key_of a) (length c.out) c.group,
        ),
        sym same,
      )
      | no other ↦
          let (b, held, k) =
            g.placed key i
              (ground (arith, h, other, lookup-insert key (key_of a) (length c.out) c.group)) in
          (b, ground (arith, held, get_at-add_last i c.out a, get_at-lt i c.out b held), k)
    ];
    grouped = λ i b h. ground (
      arith,
      h,
      get_at-add_last i c.out a,
      g.grouped i b,
      lookup-insert (key_of b) (key_of a) (length c.out) c.group,
      fresh,
    );
    unsent = λ i b h. ground (arith, h, get_at-add_last i c.out a, g.unsent i b, new);
  }

  replace-IsGrouped :
      (a b : UsageAlert P) (i : ℕ) (c : Collected P)
      → IsGrouped c
      → is_done num clock (Dict.lookup (key_of a) ledger) ≡ false
      → get_at i c.out ≡ some b
      → key_of b ≡ key_of a
      → IsGrouped (record c { out = set_at i a c.out })
  replace-IsGrouped a b i c g new held same = record {
    placed = λ key j h.
        let (d, at, k) = g.placed key j h in
        elim (nat_eq.dec j i) [
          | yes here ↦ (
            a,
            ground (arith, here, get_at-set_at i j c.out a b held),
            ground (arith, here, at, held, same, k),
          )
          | no other ↦ (d, ground (arith, other, at, get_at-set_at i j c.out a b held), k)
        ];
    grouped = λ j d h.
        ground
          (arith, h, get_at-set_at i j c.out a b held, g.grouped j d, g.grouped i b held, same);
    unsent = λ j d h. ground (arith, h, get_at-set_at i j c.out a b held, g.unsent j d, new);
  }

  add_alert-IsGrouped :
      (a : UsageAlert P) (c : Collected P)
      → IsGrouped c
      → is_done num clock (Dict.lookup (key_of a) ledger) ≡ false
      → (o : Option ℕ) → Dict.lookup (key_of a) c.group ≡ o
      → IsGrouped (add_alert num clock o (key_of a) a c)
  add_alert-IsGrouped a c g new none e = append-IsGrouped a c g new e
  add_alert-IsGrouped a c g new (some i) e =
      let (b, held, same) = g.placed (key_of a) i e in
      elim (Bool-cases (beats num clock a (get_at i c.out))) [
        | inl better ↦ rw better (replace-IsGrouped a b i c g new held same)
        | inr worse ↦ rw worse g
      ]

  pub collect_alert-IsGrouped :
      (a : UsageAlert P) (c : Collected P)
      → IsGrouped c
      → IsGrouped (collect_alert num clock ledger a c)
  unfolding collect_alert
  collect_alert-IsGrouped a c g =
      elim (Bool-cases (is_done num clock (Dict.lookup (key_of a) ledger))) [
        | inl old ↦ rw (old, collect_alert) g
        | inr new ↦
            rw (new, collect_alert)
              (add_alert-IsGrouped a c g new (Dict.lookup (key_of a) c.group) refl)
      ]

  -- The alerts of a pass, one after the other.
  unfoldable pub collect_all : List (UsageAlert P) → Collected P → Collected P
  collect_all [] c = c
  collect_all (a ∷ alerts) c = collect_all alerts (collect_alert num clock ledger a c)

  pub collect_all-IsGrouped :
      (alerts : List (UsageAlert P)) (c : Collected P)
      → IsGrouped c
      → IsGrouped (collect_all alerts c)
  unfolding collect_all
  collect_all-IsGrouped [] c g = g
  collect_all-IsGrouped (a ∷ alerts) c g =
      collect_all-IsGrouped alerts (collect_alert num clock ledger a c)
        (collect_alert-IsGrouped a c g)

  -- The alerts that the windows of a pass raise, before any is dropped.
  unfoldable pub raised_by : Snapshot P → String → P → List (WindowView P) → List (UsageAlert P)
  raised_by s email threshold [] = []
  raised_by s email threshold (w ∷ ws) =
      let rest = raised_by s email threshold ws in
      elim (window_alert num clock s w email threshold) [ none ↦ rest | some a ↦ a ∷ rest ]

  unfoldable pub raised : AntenneSettings P → ℕ → List (Snapshot P) → List (UsageAlert P)
  unfolding raised_by
  raised n now [] = []
  raised n now (s ∷ ss) =
      let rest = raised n now ss in
      let email = email_for n s.machine in
      if is_before num clock s.updated_at (since_of num clock n) || email == ""
      then rest
      else raised_by s email (threshold_of num n) (view now s).windows ++ rest

  collect_all-append :
      (xs ys : List (UsageAlert P)) (c : Collected P)
      → collect_all (xs ++ ys) c ≡ collect_all ys (collect_all xs c)
  unfolding collect_all
  collect_all-append [] ys c = refl
  collect_all-append (x ∷ xs) ys c = collect_all-append xs ys (collect_alert num clock ledger x c)

  collect_windows-all :
      (s : Snapshot P) (email : String) (threshold : P) (ws : List (WindowView P)) (c : Collected P)
      → collect_windows num clock ledger s email threshold ws c
        ≡ collect_all (raised_by s email threshold ws) c
  unfolding collect_windows raised_by collect_all
  collect_windows-all s email threshold [] c = refl
  collect_windows-all s email threshold (w ∷ ws) c =
      elim (Option-cases (window_alert num clock s w email threshold)) [
        | inl calm ↦
            rw (calm, collect_windows, raised_by) (collect_windows-all s email threshold ws c)
        | inr (a, loud) ↦
            rw (loud, collect_windows, raised_by)
              (collect_windows-all s email threshold ws (collect_alert num clock ledger a c))
      ]

  pub collect_snapshots-all :
      (n : AntenneSettings P) (now : ℕ) (ss : List (Snapshot P)) (c : Collected P)
      → collect_snapshots num clock ledger n now ss c ≡ collect_all (raised n now ss) c
  unfolding collect_snapshots raised collect_all
  collect_snapshots-all n now [] c = refl
  collect_snapshots-all n now (s ∷ ss) c =
      let email : String = email_for n s.machine in
      elim (Bool-cases (is_before num clock s.updated_at (since_of num clock n) || email == "")) [
        | inl out ↦ rw (out, collect_snapshots) (collect_snapshots-all n now ss c)
        | inr heard ↦
            rw (heard, collect_snapshots)
              (collect_snapshots-all n now ss (
                  collect_windows num clock ledger s email (threshold_of num n) (view now s).windows
                    c)
                ∙ rw (collect_windows-all s email (threshold_of num n) (view now s).windows c) (
                    sym (
                      collect_all-append
                        (raised_by s email (threshold_of num n) (view now s).windows)
                        (raised n now ss) c)))
      ]
