-- ===== src/Exec.antt =====
-- Python methods that mutate an object and may raise: a function of the object's state, whose
-- changes stay when it raises.
pub mod Preserves
pub mod Returns
pub mod Ensures
use mathlib.Core.Bool.{Bool}
use mathlib.Core.List.{List, [], ◌∷◌}
use mathlib.Core.Option.{Option, none, some}

-- The exceptions that the modelled code raises or tells apart. `operational b` is SQLAlchemy's
-- `OperationalError`, where `b` says that its text contains "restart transaction"; `api_error` is
-- `MemoriApiError`; `quota` is `QuotaExceededError`; `other` is any exception that no handler singles out.
pub data Exc : Type 0 where
  operational : Bool → Exc
  attribute_error runtime_error integrity_error not_implemented api_error quota other : Exc

pub data Result {ℓ} (A : Type ℓ) : Type ℓ where
  ok : A → Result A
  err : Exc → Result A

abbrev pub Exec : Type 0 → Type 0 → Type 0
Exec S A = S → Result A × S

module _ {S A : Type 0} where
  abbrev pub pure : A → Exec S A
  pure a s = (ok a, s)

  abbrev pub raise : Exc → Exec S A
  raise e s = (err e, s)

  -- `x.y` where `x` may be `None`
  abbrev pub or_raise : Exc → Option A → Exec S A
  or_raise e none s = (err e, s)
  or_raise e (some a) s = (ok a, s)

module _ {S : Type 0} where
  abbrev pub gets : {A : Type 0} → (S → A) → Exec S A
  gets f s = (ok (f s), s)

  abbrev pub modify : (S → S) → Exec S (Unit {0})
  modify f s = (ok tt, f s)

module _ {S A B : Type 0} where
  abbrev pub continue : Result A → (A → Exec S B) → Exec S B
  continue (ok a) f s = f a s
  continue (err e) f s = (err e, s)

  infixl 5 ◌>>=◌ ◌>>◌
  abbrev pub ◌>>=◌ : Exec S A → (A → Exec S B) → Exec S B
  ◌>>=◌ m f s = let (r, s') = m s in continue r f s'

  abbrev pub ◌>>◌ : Exec S A → Exec S B → Exec S B
  m >> n = m >>= λ _. n

-- A `for` loop whose body may raise.
abbrev pub for_each : {S A : Type 0} → List A → (A → Exec S (Unit {0})) → Exec S (Unit {0})
for_each [] f s = (ok tt, s)
for_each (x ∷ xs) f s = let (r, s') = f x s in continue r (λ _. for_each xs f) s'
