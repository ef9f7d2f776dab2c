-- ===== src/Sync/Frame.antt =====
-- What an action leaves alone, with a rule for each way to build an action.
use jardin.Base.{◌≡◌, ◌⊎◌, inl, inr, refl, ◌∙◌, Bool, true, false, if◌then◌else◌}
use jardin.Sync.Types.{State, Error, Result, ok, err, M, ◌>>=◌, pure, fail, gets, modify}

-- `f` reads the same after `m`, whether `m` returns or fails.
pub record Leaves {X A : Type 0} (f : State → X) (m : M A) : Type 0 where
  pub at : (s : State) → f (m s).1 ≡ f s

module _ {X A : Type 0} {f : State → X} where
  pub Leaves-pure : (a : A) → Leaves f (pure a)
  Leaves-pure a = record { at = λ s. refl }

  pub Leaves-fail : (e : Error) → Leaves f (fail {A = A} e)
  Leaves-fail e = record { at = λ s. refl }

  pub Leaves-gets : (g : State → A) → Leaves f (gets g)
  Leaves-gets g = record { at = λ s. refl }

  pub Leaves-if : (b : Bool) (m n : M A) → Leaves f m → Leaves f n → Leaves f (if b then m else n)
  Leaves-if true m n lm ln = lm
  Leaves-if false m n lm ln = ln

module _ {X A B : Type 0} {f : State → X} where
  after :
      (r : Result A) (t : State) (k : A → M B)
      → ((a : A) → Leaves f (k a))
      → f (◌>>=◌ (λ _. (r, t)) k t).1 ≡ f t
  after (ok a) t k lk = (lk a).at t
  after (err e) t k lk = refl

  pub Leaves-bind :
      (m : M A) (k : A → M B) → Leaves f m → ((a : A) → Leaves f (k a)) → Leaves f (m >>= k)
  Leaves-bind m k lm lk = record { at = λ s. after (m s).0 (m s).1 k lk ∙ lm.at s }

module _ {X : Type 0} {f : State → X} where
  pub Leaves-modify : (g : State → State) → ((s : State) → f (g s) ≡ f s) → Leaves f (modify g)
  Leaves-modify g h = record { at = h }

pub ruleset frame_rules = (Leaves-pure, Leaves-fail, Leaves-gets, Leaves-if, Leaves-bind)

pub Result-cases {ℓ} :
    {A : Type ℓ} (r : Result A) → ((a : A) × (r ≡ ok a)) ⊎ ((e : Error) × (r ≡ err e))
Result-cases (ok a) = inl (a, refl)
Result-cases (err e) = inr (e, refl)

-- What holds of a block's end state holds by what its last part ensures.
module _ {A B : Type 0} (P : State → Type 0) (k : A → M B) (b : B) where
  Ensures-continue :
      (r : Result A) (t : State)
      → ((a : A) → (k a t).0 ≡ ok b → P (k a t).1)
      → (◌>>=◌ (λ _. (r, t)) k t).0 ≡ ok b
      → P (◌>>=◌ (λ _. (r, t)) k t).1
  Ensures-continue (ok a) t h e = h a e
  Ensures-continue (err x) t h e = absurd (cc)

  pub Ensures-bind :
      (m : M A) (s : State)
      → ((a : A) → (k a (m s).1).0 ≡ ok b → P (k a (m s).1).1)
      → ((m >>= k) s).0 ≡ ok b
      → P ((m >>= k) s).1
  Ensures-bind m s = Ensures-continue (m s).0 (m s).1
