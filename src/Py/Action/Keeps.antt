-- ===== src/Py/Action/Keeps.antt =====
-- Rules for what holds after an action, one for each way to build an action.
use afk_pipeline.Prelude.{◌≡◌, refl, Bool, true, false, if◌then◌else◌}
use afk_pipeline.Py.Result.{Result, ok, err, Exc}
use afk_pipeline.Py.Action.{
  Action, pure, raise, lift, gets, modify, proceed, ◌>>=◌, handled, try_except,
}

-- From an object with `P`, the action leaves an object with `P`, whether it returns or raises.
pub record Keeps {M A : Type 0} (P : M → Type 0) (act : Action M A) : Type 0 where
  pub at : (m : M) → P m → P (act m).1

module _ {M A : Type 0} {P : M → Type 0} where
  pub Keeps-pure : (a : A) → Keeps P (pure a)
  unfolding ◌>>=◌
  Keeps-pure a = record { at = λ m h. h }

  pub Keeps-raise : (e : Exc) → Keeps P (raise {A = A} e)
  unfolding ◌>>=◌
  Keeps-raise e = record { at = λ m h. h }

  pub Keeps-lift : (r : Result A) → Keeps P (lift r)
  unfolding ◌>>=◌
  Keeps-lift r = record { at = λ m h. h }

  pub Keeps-gets : (f : M → A) → Keeps P (gets f)
  unfolding ◌>>=◌
  Keeps-gets f = record { at = λ m h. h }

  pub Keeps-if :
      (b : Bool) (x y : Action M A) → Keeps P x → Keeps P y → Keeps P (if b then x else y)
  Keeps-if true x y kx ky = kx
  Keeps-if false x y kx ky = ky

  pub Keeps-try :
      (act : Action M A) (handle : Exc → Action M A)
      → Keeps P act
      → ((e : Exc) → Keeps P (handle e))
      → Keeps P (try_except act handle)
  unfolding try_except
  Keeps-try act handle ka kh = record { at = λ m h. let (r, m') = act m in after r m' (ka.at m h) }
    where
      after : (r : Result A) (m' : M) → P m' → P (handled handle r m').1
      after (ok a) m' h = h
      after (err e) m' h = (kh e).at m' h

pub Keeps-modify :
    {M : Type 0} {P : M → Type 0} (f : M → M) → ((m : M) → P m → P (f m)) → Keeps P (modify f)
unfolding ◌>>=◌
Keeps-modify f k = record { at = k }

module _ {M A B : Type 0} {P : M → Type 0} where
  pub Keeps-proceed :
      (r : Result A) (f : A → Action M B) (m : M)
      → ((a : A) → r ≡ ok a → Keeps P (f a))
      → P m
      → P (proceed r f m).1
  Keeps-proceed (ok a) f m kf h = (kf a refl).at m h
  Keeps-proceed (err e) f m kf h = h

  pub Keeps-bind :
      (act : Action M A) (f : A → Action M B)
      → Keeps P act
      → ((a : A) → Keeps P (f a))
      → Keeps P (act >>= f)
  unfolding ◌>>=◌
  Keeps-bind act f ka kf = record {
    at = λ m h. let (r, m') = act m in Keeps-proceed r f m' (λ a _. kf a) (ka.at m h);
  }

  -- what the first action leaves with `P`, the rest keeps so
  pub bind-at :
      (act : Action M A) (f : A → Action M B) (m : M)
      → P (act m).1
      → ((a : A) → Keeps P (f a))
      → P ((act >>= f) m).1
  unfolding ◌>>=◌
  bind-at act f m h kf = Keeps-proceed (act m).0 f (act m).1 (λ a _. kf a) h

module _ {M A B : Type 0} {P Q : M → Type 0} where
  -- what the first action leaves with `P`, the rest takes to `Q`
  pub bind-to :
      (act : Action M A) (f : A → Action M B) (m : M)
      → P (act m).1
      → ((d : M) → P d → Q d)
      → ((a : A) (d : M) → P d → Q (f a d).1)
      → Q ((act >>= f) m).1
  unfolding ◌>>=◌
  bind-to act f m h weaker kf = by_result (act m).0
    where
      by_result : (r : Result A) → Q (proceed r f (act m).1).1
      by_result (ok a) = kf a (act m).1 h
      by_result (err e) = weaker (act m).1 h

pub try-at :
    {M A : Type 0} {P : M → Type 0} (act : Action M A) (handle : Exc → Action M A) (m : M)
    → P (act m).1
    → ((e : Exc) → Keeps P (handle e))
    → P (try_except act handle m).1
unfolding try_except
try-at {A = A} {P = P} act handle m h kh = by_result (act m).0
  where
    by_result : (r : Result A) → P (handled handle r (act m).1).1
    by_result (ok a) = h
    by_result (err e) = (kh e).at (act m).1 h

pub if-at :
    {M A : Type 0} (P : M → Type 0) (b : Bool) (x y : Action M A) (m : M)
    → (b ≡ true → P (x m).1)
    → (b ≡ false → P (y m).1)
    → P ((if b then x else y) m).1
if-at P true x y m hx hy = hx refl
if-at P false x y m hx hy = hy refl

-- a read of the object, or a computation, and then the rest
pub gets-at :
    {M A B : Type 0} (P : M → Type 0) (g : M → A) (f : A → Action M B) (m : M)
    → P (f (g m) m).1
    → P ((gets g >>= f) m).1
unfolding ◌>>=◌
gets-at P g f m h = h

pub lift-at :
    {M A B : Type 0} (P : M → Type 0) (r : Result A) (f : A → Action M B) (m : M)
    → P m
    → ((a : A) → r ≡ ok a → P (f a m).1)
    → P ((lift r >>= f) m).1
unfolding ◌>>=◌
lift-at P (ok a) f m h k = k a refl
lift-at P (err e) f m h k = h

-- an assignment, and then the rest
pub modify-at :
    {M B : Type 0} (P : M → Type 0) (g : M → M) (f : Unit {0} → Action M B) (m : M)
    → P (f tt (g m)).1
    → P ((modify g >>= f) m).1
unfolding ◌>>=◌
modify-at P g f m h = h

pub ruleset keeps_rules =
    (Keeps-pure, Keeps-raise, Keeps-lift, Keeps-gets, Keeps-if, Keeps-bind, Keeps-try)
