-- ===== src/Py/Action.antt =====
-- Code that mutates an object `M` and may raise. What was written before a raise stays written.
pub mod Keeps
pub mod Reaches
pub mod Returns
use afk_pipeline.Py.Result.{Result, ok, err, Exc}

abbrev pub Action : Type 0 → Type 0 → Type 0
Action M A = M → Result A × M

module _ {M A : Type 0} where
  pub pure : A → Action M A
  pure a m = (ok a, m)

  pub raise : Exc → Action M A
  raise e m = (err e, m)

  pub lift : Result A → Action M A
  lift r m = (r, m)

  pub gets : (M → A) → Action M A
  gets f m = (ok (f m), m)

pub modify : {M : Type 0} → (M → M) → Action M Unit
modify f m = (ok tt, f m)

module _ {M A B : Type 0} where
  abbrev pub proceed : Result A → (A → Action M B) → Action M B
  proceed (ok a) f m = f a m
  proceed (err e) f m = (err e, m)

  infixl 5 ◌>>=◌ ◌>>◌
  -- opening this opens the actions above too
  unfoldable pub ◌>>=◌ : Action M A → (A → Action M B) → Action M B
  unfolding pure raise lift gets modify
  ◌>>=◌ act f m = let (r, m') = act m in proceed r f m'

  abbrev pub ◌>>◌ : Action M A → Action M B → Action M B
  a >> b = a >>= λ _. b

abbrev pub handled : {M A : Type 0} → (Exc → Action M A) → Result A → Action M A
handled handle (ok a) m = (ok a, m)
handled handle (err e) m = handle e m

-- `try: act; except: handle(error)`
unfoldable pub try_except : {M A : Type 0} → Action M A → (Exc → Action M A) → Action M A
try_except act handle m = let (r, m') = act m in handled handle r m'
