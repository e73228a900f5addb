-- ===== src/Native/Engine/Shared.antt =====
-- What the threads that are through have.
use memori.Prelude.{ℕ, ◌≤◌, ◌≡◌, arith, subst}
use memori.Native.Engine.{Outcome, returned, raised, done, Adapter, Reach}
use memori.Native.Engine.Once.{Fits, IsConsistent, Reach-IsConsistent}

module _ {s : Adapter} (inv : IsConsistent s) where
  done-Fits :
      (t : ℕ) (a : Outcome) → s.place t ≡ done a → Fits s.lock s.engine s.engine_error t (done a)
  done-Fits t a p = subst (Fits s.lock s.engine s.engine_error t) p (inv.fits t)

  agree : (t u : ℕ) (a b : Outcome) → s.place t ≡ done a → s.place u ≡ done b → a ≡ b
  agree t u (returned i) (returned j) p q = cc (done-Fits t _ p, done-Fits u _ q)
  agree t u (raised i) (raised j) p q = cc (done-Fits t _ p, done-Fits u _ q)
  agree t u (returned i) (raised e) p q =
      absurd (ground (arith, done-Fits t _ p, done-Fits u _ q, inv.counted, inv.once))
  agree t u (raised e) (returned i) p q =
      absurd (ground (arith, done-Fits t _ p, done-Fits u _ q, inv.counted, inv.once))

-- However the threads interleave from a new adapter, `_create_engine` is entered once at most, and
-- all threads that are through have got the same engine or have raised the same error.
pub active_engine_shared :
    (s : Adapter)
    → Reach s
    → (s.creations ≤ 1)
      × ((t u : ℕ) (a b : Outcome) → s.place t ≡ done a → s.place u ≡ done b → a ≡ b)
active_engine_shared s r = ((Reach-IsConsistent r).once, agree (Reach-IsConsistent r))
