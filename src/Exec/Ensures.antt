-- ===== src/Exec/Ensures.antt =====
-- What holds when an action returns, of what held before it.
use memori.Prelude.{◌≡◌, refl}
use memori.Exec.{Result, ok, err, Exec, continue, ◌>>=◌}

pub record Ensures {S A : Type 0} (P : S → Type 0) (Q : A → S → Type 0) (m : Exec S A)
    : Type 0 where
  pub at : (s : S) → P s → (a : A) → (m s).0 ≡ ok a → Q a (m s).1

module _ {S A B : Type 0} {Q : A → S → Type 0} {R : B → S → Type 0} where
  continue-ensures :
      (r : Result A) (s : S) (f : A → Exec S B)
      → ((a : A) → r ≡ ok a → Q a s)
      → ((a : A) → Ensures (Q a) R (f a))
      → (b : B) → (continue r f s).0 ≡ ok b
      → R b (continue r f s).1
  continue-ensures (ok a) s f q h b e = (h a).at s (q a refl) b e
  continue-ensures (err x) s f q h b e = cc

  pub Ensures-bind :
      {P : S → Type 0} (m : Exec S A) (f : A → Exec S B)
      → Ensures P Q m
      → ((a : A) → Ensures (Q a) R (f a))
      → Ensures P R (m >>= f)
  Ensures-bind m f hm hf = record {
    at = λ s p b e. continue-ensures (m s).0 (m s).1 f (λ a q. hm.at s p a q) hf b e;
  }
