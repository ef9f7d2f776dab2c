-- ===== src/Emit/Pending.antt =====
-- What pendingUsageAlerts gives: one alert for each key, the highest, and none that was sent.
use jardin.Base.{ℕ, zero, suc, String, true, none, some, List, [], ◌∷◌, ◌≡◌, refl, arith}
use jardin.Base.{string_eq, nat_eq, Bool-cases, inl, inr}
use jardin.Base.Dict
use jardin.Base.Dict.{Dict}
use jardin.Emit.Usage.{Numbers, Snapshot}
use jardin.Emit.Alerts.{
  Clockwork, AntenneSettings, UsageAlert, ledger_key, Collected, nothing, get_at, is_done,
  collect_alert, pending_usage_alerts,
}
use jardin.Emit.Grouping.{
  IsGrouped, nothing-IsGrouped, collect_alert-IsGrouped, collect_all, collect_all-IsGrouped, raised,
  collect_snapshots-all,
}
use jardin.Emit.Highest.{IsLinear, IsTold, IsTold-add, IsTold-new}

module _ {P : Type 0} (num : Numbers P) (clock : Clockwork) (ledger : Dict String String) where
  -- A pass lists each key at most once: two alerts of the same account and window are one.
  pending-distinct :
      (n : AntenneSettings P) (now : ℕ) (ss : List (Snapshot P)) (i j : ℕ) (a b : UsageAlert P)
      → get_at i (pending_usage_alerts num clock ss ledger n now) ≡ some a
      → get_at j (pending_usage_alerts num clock ss ledger n now) ≡ some b
      → ledger_key num clock a ≡ ledger_key num clock b
      → i ≡ j
  unfolding pending_usage_alerts get_at
  pending-distinct n now ss i j a b h k same = elim (Bool-cases n.usage_alerts) [
    | inr off ↦ absurd (ground (arith, off, h))
    | inl on ↦
        let c : Collected P =
          collect_all num clock ledger (raised num clock ledger n now ss) nothing in
        let g : IsGrouped num clock ledger c =
          collect_all-IsGrouped num clock ledger (raised num clock ledger n now ss) nothing
            (nothing-IsGrouped num clock ledger) in
        ground (
          arith,
          on,
          h,
          k,
          same,
          collect_snapshots-all num clock ledger n now ss nothing,
          g.grouped i a,
          g.grouped j b,
        )
  ]

  -- No alert of a pass has a key that the ledger has recorded as sent.
  pub pending-unsent :
      (n : AntenneSettings P) (now : ℕ) (ss : List (Snapshot P)) (i : ℕ) (a : UsageAlert P)
      → get_at i (pending_usage_alerts num clock ss ledger n now) ≡ some a
      → Dict.lookup (ledger_key num clock a) ledger ≡ none
  unfolding pending_usage_alerts get_at
  pending-unsent n now ss i a h = elim (Bool-cases n.usage_alerts) [
    | inr off ↦ absurd (ground (arith, off, h))
    | inl on ↦
        let c : Collected P =
          collect_all num clock ledger (raised num clock ledger n now ss) nothing in
        let g : IsGrouped num clock ledger c =
          collect_all-IsGrouped num clock ledger (raised num clock ledger n now ss) nothing
            (nothing-IsGrouped num clock ledger) in
        ground (arith, on, h, collect_snapshots-all num clock ledger n now ss nothing, g.unsent i a)
  ]

  module _ (order : IsLinear num) where
    IsTold-collect :
        (a d : UsageAlert P) (c : Collected P)
        → IsGrouped num clock ledger c
        → IsTold num order clock ledger c.out d
        → IsTold num order clock ledger (collect_alert num clock ledger a c).out d
    unfolding collect_alert
    IsTold-collect a d c g t =
        elim (Bool-cases (is_done num clock (Dict.lookup (ledger_key num clock a) ledger))) [
          | inl old ↦ rw (old, collect_alert) t
          | inr new ↦
              rw (new, collect_alert)
                (IsTold-add num order clock ledger a d c g
                  (Dict.lookup (ledger_key num clock a) c.group) refl t)
        ]

    IsTold-all :
        (alerts : List (UsageAlert P)) (d : UsageAlert P) (c : Collected P)
        → IsGrouped num clock ledger c
        → IsTold num order clock ledger c.out d
        → IsTold num order clock ledger (collect_all num clock ledger alerts c).out d
    unfolding collect_all
    IsTold-all [] d c g t = t
    IsTold-all (a ∷ alerts) d c g t =
        IsTold-all alerts d (collect_alert num clock ledger a c)
          (collect_alert-IsGrouped num clock ledger a c g) (IsTold-collect a d c g t)

    IsTold-first :
        (a : UsageAlert P) (c : Collected P)
        → IsGrouped num clock ledger c
        → Dict.lookup (ledger_key num clock a) ledger ≡ none
        → IsTold num order clock ledger (collect_alert num clock ledger a c).out a
    unfolding collect_alert
    IsTold-first a c g new =
        rw (new, collect_alert)
          (IsTold-new num order clock ledger a c g (Dict.lookup (ledger_key num clock a) c.group)
            refl)

    IsTold-head :
        (x a : UsageAlert P) (c : Collected P)
        → IsGrouped num clock ledger c
        → Dict.lookup (ledger_key num clock a) ledger ≡ none
        → x ≡ a
        → IsTold num order clock ledger (collect_alert num clock ledger x c).out a
    IsTold-head x a c g new e = rw e (IsTold-first a c g new)

    all-IsTold :
        (alerts : List (UsageAlert P)) (k : ℕ) (a : UsageAlert P) (c : Collected P)
        → IsGrouped num clock ledger c
        → get_at k alerts ≡ some a
        → Dict.lookup (ledger_key num clock a) ledger ≡ none
        → IsTold num order clock ledger (collect_all num clock ledger alerts c).out a
    unfolding collect_all get_at
    all-IsTold [] k a c g h new = absurd (cc)
    all-IsTold (x ∷ alerts) zero a c g h new =
        IsTold-all alerts a (collect_alert num clock ledger x c)
          (collect_alert-IsGrouped num clock ledger x c g) (IsTold-head x a c g new (cc))
    all-IsTold (x ∷ alerts) (suc k) a c g h new =
        all-IsTold alerts k a (collect_alert num clock ledger x c)
          (collect_alert-IsGrouped num clock ledger x c g) h new

    -- If the numbers are in a linear order and alerts are switched on, then for every window that raises
    -- an alert whose key is not in the ledger, the pass lists an alert of that key, and its reading is the
    -- highest: the window's own alert does not supersede it.
    pub pending-highest :
        (n : AntenneSettings P) (now : ℕ) (ss : List (Snapshot P)) (k : ℕ) (a : UsageAlert P)
        → n.usage_alerts ≡ true
        → get_at k (raised num clock ledger n now ss) ≡ some a
        → Dict.lookup (ledger_key num clock a) ledger ≡ none
        → IsTold num order clock ledger (pending_usage_alerts num clock ss ledger n now) a
    unfolding pending_usage_alerts
    pending-highest n now ss k a on h new =
        rw (on, collect_snapshots-all num clock ledger n now ss nothing)
          (all-IsTold (raised num clock ledger n now ss) k a nothing
            (nothing-IsGrouped num clock ledger) h new)
