-- ===== src/Emit/Highest.antt =====
-- Each account and window raises one alert, with the highest reading.
use jardin.Base.{ℕ, String, true, false, Option, none, some, List, ◌≡◌, refl, arith}
use jardin.Base.{string_eq, nat_eq, length, Bool-cases, inl, inr}
use jardin.Base.Dict
use jardin.Base.Dict.{Dict}
use jardin.Base.Text.Order.{text_lt_trans, text_lt_irrefl}
use jardin.Emit.Usage.{Numbers}
use jardin.Emit.Alerts.{
  Clockwork, UsageAlert, supersedes, ledger_key, Collected, set_at, get_at, add_alert,
}
use jardin.Emit.Grouping.{get_at-add_last, get_at-lt, get_at-set_at, IsGrouped}

-- `lt` is a strict linear order, as it is on the numbers that JSON can hold.
pub record IsLinear {P : Type 0} (num : Numbers P) : Type 0 where
  pub irrefl : (a : P) → num.lt a a ≡ false
  pub trans : (a b c : P) → num.lt a b ≡ true → num.lt b c ≡ true → num.lt a c ≡ true
  pub linear : (a b : P) → num.lt a b ≡ false → num.lt b a ≡ false → a ≡ b

module _ {P : Type 0} (num : Numbers P) (order : IsLinear num) where
  supersedes_trans :
      (a b c : UsageAlert P)
      → supersedes num a b ≡ true
      → supersedes num b c ≡ true
      → supersedes num a c ≡ true
  unfolding supersedes
  supersedes_trans a b c h k = ground (
    arith,
    h,
    k,
    order.trans c.used_percentage b.used_percentage a.used_percentage,
    order.linear a.used_percentage b.used_percentage,
    order.linear b.used_percentage c.used_percentage,
    order.irrefl a.used_percentage,
    text_lt_trans a.machine b.machine c.machine,
  )

  supersedes_irrefl : (a : UsageAlert P) → supersedes num a a ≡ false
  unfolding supersedes
  supersedes_irrefl a = ground (arith, order.irrefl a.used_percentage, text_lt_irrefl a.machine)

  module _ (clock : Clockwork) (ledger : Dict String String) where
    abbrev key_of : UsageAlert P → String
    key_of = ledger_key num clock

    -- The list has an alert of the same account and window, which the alert does not supersede.
    pub record IsTold (out : List (UsageAlert P)) (a : UsageAlert P) : Type 0 where
      pub place : ℕ
      pub told : UsageAlert P
      pub listed : get_at place out ≡ some told
      same_key : key_of told ≡ key_of a
      pub highest : supersedes num a told ≡ false

    IsTold-replace :
        (a b d : UsageAlert P) (i : ℕ) (out : List (UsageAlert P))
        → get_at i out ≡ some b
        → key_of b ≡ key_of a
        → supersedes num a b ≡ true
        → IsTold out d
        → IsTold (set_at i a out) d
    IsTold-replace a b d i out held same better t = elim (nat_eq.dec t.place i) [
      | yes here ↦ record {
        place = i;
        told = a;
        listed = ground (arith, get_at-set_at i i out a b held);
        same_key = ground (arith, here, held, same, t.listed, t.same_key);
        highest = ground (arith, here, held, better, t.listed, t.highest, supersedes_trans d a b);
      }
      | no other ↦ record {
        place = t.place;
        told = t.told;
        listed = ground (arith, other, t.listed, get_at-set_at i t.place out a b held);
        same_key = t.same_key;
        highest = t.highest;
      }
    ]

    pub IsTold-add :
        (a d : UsageAlert P) (c : Collected P)
        → IsGrouped num clock ledger c
        → (o : Option ℕ) → Dict.lookup (key_of a) c.group ≡ o
        → IsTold c.out d
        → IsTold (add_alert num clock o (key_of a) a c).out d
    IsTold-add a d c g none e t = record {
      place = t.place;
      told = t.told;
      listed = ground (
        arith,
        t.listed,
        get_at-add_last t.place c.out a,
        get_at-lt t.place c.out t.told t.listed,
      );
      same_key = t.same_key;
      highest = t.highest;
    }
    IsTold-add a d c g (some i) e t =
        let (b, held, same) = g.placed (key_of a) i e in
        elim (Bool-cases (supersedes num a b)) [
          | inl better ↦ rw (held, better) (IsTold-replace a b d i c.out held same better t)
          | inr worse ↦ rw (held, worse) t
        ]

    pub IsTold-new :
        (a : UsageAlert P) (c : Collected P)
        → IsGrouped num clock ledger c
        → (o : Option ℕ) → Dict.lookup (key_of a) c.group ≡ o
        → IsTold (add_alert num clock o (key_of a) a c).out a
    IsTold-new a c g none e = record {
      place = length c.out;
      told = a;
      listed = ground (arith, get_at-add_last (length c.out) c.out a);
      same_key = refl;
      highest = supersedes_irrefl a;
    }
    IsTold-new a c g (some i) e =
        let (b, held, same) = g.placed (key_of a) i e in
        elim (Bool-cases (supersedes num a b)) [
          | inl better ↦
              rw (held, better)
                (record {
                  place = i;
                  told = a;
                  listed = ground (arith, get_at-set_at i i c.out a b held);
                  same_key = refl;
                  highest = supersedes_irrefl a;
                })
          | inr worse ↦
              rw (held, worse)
                (record { place = i; told = b; listed = held; same_key = same; highest = worse })
        ]
