-- ===== src/Py/Action/Returns.antt =====
-- How an action comes to return: inversion rules, one for each way to build an action.
use afk_pipeline.Prelude.{◌≡◌, ◌≢◌, refl, arith, Bool, true, false, if◌then◌else◌}
use afk_pipeline.Py.Result.{Result, ok, err, Exc}
use afk_pipeline.Py.Action.{Action, pure, raise, lift, gets, proceed, ◌>>=◌}

module _ {M A B : Type 0} where
  proceed-returns :
      (r : Result A) (f : A → Action M B) (m : M) (b : B)
      → (proceed r f m).0 ≡ ok b
      → (a : A) × (r ≡ ok a) × ((f a m).0 ≡ ok b)
  proceed-returns (ok a) f m b q = (a, refl, q)
  proceed-returns (err e) f m b q = cc

  pub lift-returns :
      (r : Result A) (f : A → Action M B) (m : M) (b : B)
      → ((lift r >>= f) m).0 ≡ ok b
      → (a : A) × (r ≡ ok a) × ((f a m).0 ≡ ok b)
  unfolding ◌>>=◌
  lift-returns = proceed-returns

  pub bind-returns :
      (act : Action M A) (f : A → Action M B) (m : M) (b : B)
      → ((act >>= f) m).0 ≡ ok b
      → (a : A) × ((act m).0 ≡ ok a) × ((f a (act m).1).0 ≡ ok b)
  unfolding ◌>>=◌
  bind-returns act f m b q = proceed-returns (act m).0 f (act m).1 b q

  pub gets-returns :
      (g : M → A) (f : A → Action M B) (m : M) (b : B)
      → ((gets g >>= f) m).0 ≡ ok b
      → (f (g m) m).0 ≡ ok b
  unfolding ◌>>=◌
  gets-returns g f m b q = q

module _ {M A : Type 0} where
  pub else-returns :
      (c : Bool) (x y : Action M A) (m : M) (a : A)
      → (x m).0 ≢ ok a
      → ((if c then x else y) m).0 ≡ ok a
      → (c ≡ false) × ((y m).0 ≡ ok a)
  else-returns true x y m a h q = absurd (h q)
  else-returns false x y m a h q = (refl, q)

  pub then-returns :
      (c : Bool) (x y : Action M A) (m : M) (a : A)
      → (y m).0 ≢ ok a
      → ((if c then x else y) m).0 ≡ ok a
      → (c ≡ true) × ((x m).0 ≡ ok a)
  then-returns true x y m a h q = (refl, q)
  then-returns false x y m a h q = absurd (h q)

  pub pure-returns : (a b : A) (m : M) → (pure a m).0 ≡ ok b → a ≡ b
  unfolding ◌>>=◌
  pure-returns a b m q = ground arith

pub raise-fails : {M : Type 0} (A : Type 0) (e : Exc) (m : M) (a : A) → (raise e m).0 ≢ ok a
unfolding ◌>>=◌
raise-fails A e m a q = cc
