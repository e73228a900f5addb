-- ===== src/Exec/Returns.antt =====
-- What holds of the state and the value when an action returns.
use memori.Prelude.{◌≡◌}
use memori.Exec.{Result, ok, err, Exec, continue, ◌>>=◌}

pub record Returns {S A : Type 0} (Q : A → S → Type 0) (m : Exec S A) : Type 0 where
  pub at : (s : S) (a : A) → (m s).0 ≡ ok a → Q a (m s).1

module _ {S A B : Type 0} {Q : B → S → Type 0} where
  Returns-continue :
      (r : Result A) (f : A → Exec S B) → ((a : A) → Returns Q (f a)) → Returns Q (continue r f)
  Returns-continue (ok a) f h = record { at = (h a).at }
  Returns-continue (err e) f h = record { at = λ s b q. cc }

  -- The last action decides.
  pub Returns-bind :
      (m : Exec S A) (f : A → Exec S B) → ((a : A) → Returns Q (f a)) → Returns Q (m >>= f)
  Returns-bind m f h = record {
    at = λ s b q. let (r, s') = m s in (Returns-continue r f h).at s' b q;
  }
