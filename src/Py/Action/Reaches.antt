-- ===== src/Py/Action/Reaches.antt =====
-- How an action comes to have an effect `Q`: inversion rules, one for each way to build an action.
use afk_pipeline.Prelude.{◌≡◌, refl, Bool, true, false, if◌then◌else◌}
use afk_pipeline.Py.Result.{Result, ok, err, Exc}
use afk_pipeline.Py.Action.{Action, pure, raise, lift, gets, proceed, ◌>>=◌, handled, try_except}

module _ {M A B : Type 0} (Q : M → Type 0) where
  proceed-reaches :
      (r : Result A) (f : A → Action M B) (m : M)
      → ¬ Q m
      → Q (proceed r f m).1
      → (a : A) × (r ≡ ok a) × Q (f a m).1
  proceed-reaches (ok a) f m h q = (a, refl, q)
  proceed-reaches (err e) f m h q = absurd (h q)

  -- a computation that does not touch the object
  pub lift-reaches :
      (r : Result A) (f : A → Action M B) (m : M)
      → ¬ Q m
      → Q ((lift r >>= f) m).1
      → (a : A) × (r ≡ ok a) × Q (f a m).1
  unfolding ◌>>=◌
  lift-reaches = proceed-reaches

  -- an action that does not have the effect itself
  pub bind-reaches :
      (act : Action M A) (f : A → Action M B) (m : M)
      → ¬ Q (act m).1
      → Q ((act >>= f) m).1
      → (a : A) × ((act m).0 ≡ ok a) × Q (f a (act m).1).1
  unfolding ◌>>=◌
  bind-reaches act f m h q = proceed-reaches (act m).0 f (act m).1 h q

  pub gets-reaches :
      (g : M → A) (f : A → Action M B) (m : M) → Q ((gets g >>= f) m).1 → Q (f (g m) m).1
  unfolding ◌>>=◌
  gets-reaches g f m q = q

module _ {M A : Type 0} (Q : M → Type 0) where
  pub try-misses :
      (act : Action M A) (handle : Exc → Action M A) (m : M)
      → ¬ Q (act m).1
      → ((e : Exc) → ¬ Q (handle e (act m).1).1)
      → ¬ Q (try_except act handle m).1
  unfolding try_except
  try-misses act handle m missed h = by_result (act m).0
    where
      by_result : (r : Result A) → ¬ Q (handled handle r (act m).1).1
      by_result (ok a) = missed
      by_result (err e) = h e

  pub else-reaches :
      (b : Bool) (x y : Action M A) (m : M)
      → ¬ Q (x m).1
      → Q ((if b then x else y) m).1
      → (b ≡ false) × Q (y m).1
  else-reaches true x y m h q = absurd (h q)
  else-reaches false x y m h q = (refl, q)

  pub then-reaches :
      (b : Bool) (x y : Action M A) (m : M)
      → ¬ Q (y m).1
      → Q ((if b then x else y) m).1
      → (b ≡ true) × Q (x m).1
  then-reaches true x y m h q = (refl, q)
  then-reaches false x y m h q = absurd (h q)

pub raise-misses :
    {M : Type 0} (Q : M → Type 0) (A : Type 0) (e : Exc) (m : M) → ¬ Q m → ¬ Q (raise {A = A} e m).1
unfolding ◌>>=◌
raise-misses Q A e m h = h

pub pure-misses : {M A : Type 0} (Q : M → Type 0) (a : A) (m : M) → ¬ Q m → ¬ Q (pure a m).1
unfolding ◌>>=◌
pure-misses Q a m h = h
