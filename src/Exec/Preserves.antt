-- ===== src/Exec/Preserves.antt =====
-- Invariants of actions, by the way that an action is built.
use memori.Prelude.{Option, none, some, Bool, true, false, List, [], ◌∷◌, if◌then◌else◌}
use memori.Exec.{Exc, Result, ok, err, Exec, pure, raise, or_raise, gets, continue, ◌>>=◌, for_each}

-- `m` keeps `P`, whether it returns or raises.
pub record Preserves {S A : Type 0} (P : S → Type 0) (m : Exec S A) : Type 0 where
  pub at : (s : S) → P s → P (m s).1

module _ {S A : Type 0} {P : S → Type 0} where
  pub Preserves-pure : (a : A) → Preserves P (pure a)
  Preserves-pure a = record { at = λ s h. h }

  pub Preserves-raise : (e : Exc) → Preserves P (raise {A = A} e)
  Preserves-raise e = record { at = λ s h. h }

  pub Preserves-or_raise : (e : Exc) (o : Option A) → Preserves P (or_raise e o)
  Preserves-or_raise e none = record { at = λ s h. h }
  Preserves-or_raise e (some a) = record { at = λ s h. h }

  pub Preserves-gets : (f : S → A) → Preserves P (gets f)
  Preserves-gets f = record { at = λ s h. h }

  pub Preserves-if :
      (b : Bool) (m n : Exec S A) → Preserves P m → Preserves P n → Preserves P (if b then m else n)
  Preserves-if true m n hm hn = hm
  Preserves-if false m n hm hn = hn

module _ {S A B : Type 0} {P : S → Type 0} where
  Preserves-continue :
      (r : Result A) (f : A → Exec S B) → ((a : A) → Preserves P (f a)) → Preserves P (continue r f)
  Preserves-continue (ok a) f h = record { at = (h a).at }
  Preserves-continue (err e) f h = record { at = λ s p. p }

  pub Preserves-bind :
      (m : Exec S A) (f : A → Exec S B)
      → Preserves P m
      → ((a : A) → Preserves P (f a))
      → Preserves P (m >>= f)
  Preserves-bind m f hm hf = record {
    at = λ s p. let (r, s') = m s in (Preserves-continue r f hf).at s' (hm.at s p);
  }

module _ {S A : Type 0} {P : S → Type 0} where
  pub Preserves-for_each :
      (xs : List A) (f : A → Exec S (Unit {0}))
      → ((x : A) → Preserves P (f x))
      → Preserves P (for_each xs f)
  Preserves-for_each [] f h = record { at = λ s p. p }
  Preserves-for_each (x ∷ xs) f h =
      Preserves-bind (f x) (λ _. for_each xs f) (h x) (λ _. Preserves-for_each xs f h)

pub ruleset preserves_rules = (
  Preserves-pure, Preserves-raise, Preserves-or_raise, Preserves-gets, Preserves-bind,
  Preserves-for_each,
)
