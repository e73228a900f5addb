-- ===== src/Native/Engine/Once.antt =====
-- One engine is made at most, however the threads interleave, and every thread has it or its error.
use memori.Prelude.{
  ℕ, ◌+◌, ◌≤◌, ◌≡◌, ◌≢◌, refl, ◌⊎◌, inl, inr, Option, none, some, arith, ◌==◌, ==_sound, false,
  subst, Bool-cases,
}
use memori.Native.Engine.{
  returned, raised, Place, start, no_engine, no_error, locked, creating, done, Adapter, at, Step,
  look_engine, miss_engine, look_error, miss_error, acquire, find_engine, find_error, enter_create,
  create_engine, create_fails, new_adapter, Reach, here, next,
}

-- What a thread's place says of the adapter.
abbrev pub Fits : Option ℕ → Option ℕ → Option ℕ → ℕ → Place → Type 0
Fits lock engine error t start = Unit
Fits lock engine error t no_engine = Unit
Fits lock engine error t no_error = Unit
Fits lock engine error t locked = lock ≡ some t
Fits lock engine error t creating = lock ≡ some t
Fits lock engine error t (done (returned i)) = engine ≡ some i
Fits lock engine error t (done (raised e)) = error ≡ some e

abbrev one {ℓ} : {A : Type ℓ} → Option A → ℕ
one none = 0
one (some a) = 1

abbrev is_creating : Place → ℕ
is_creating creating = 1
is_creating _ = 0

abbrev held : Option ℕ → (ℕ → Place) → ℕ
held none place = 0
held (some t) place = is_creating (place t)

pub record IsConsistent (s : Adapter) : Type 0 where
  pub fits : (t : ℕ) → Fits s.lock s.engine s.engine_error t (s.place t)
  pub counted : s.creations ≡ one s.engine + one s.engine_error + held s.lock s.place
  pub once : s.creations ≤ 1
  pub holder : (t : ℕ) → s.lock ≡ some t → (s.place t ≡ locked) ⊎ (s.place t ≡ creating)

at_self : (place : ℕ → Place) (t : ℕ) (p : Place) → at place t p t ≡ p
at_self place t p = ground arith

at-other : (place : ℕ → Place) (t u : ℕ) (p : Place) → t ≢ u → at place t p u ≡ place u
at-other place t u p h = ground arith

module _ (lock lock' engine engine' error error' : Option ℕ) where
  Fits-keeps :
      (u : ℕ) (q : Place)
      → (lock ≡ some u → lock' ≡ some u)
      → ((i : ℕ) → engine ≡ some i → engine' ≡ some i)
      → ((e : ℕ) → error ≡ some e → error' ≡ some e)
      → Fits lock engine error u q
      → Fits lock' engine' error' u q
  Fits-keeps u start l i e h = tt
  Fits-keeps u no_engine l i e h = tt
  Fits-keeps u no_error l i e h = tt
  Fits-keeps u locked l i e h = l h
  Fits-keeps u creating l i e h = l h
  Fits-keeps u (done (returned k)) l i e h = i k h
  Fits-keeps u (done (raised k)) l i e h = e k h

  -- The thread that moves, and the others.
  Fits-at :
      (place : ℕ → Place) (t u : ℕ) (p : Place)
      → Fits lock' engine' error' t p
      → (t ≢ u → lock ≡ some u → lock' ≡ some u)
      → ((i : ℕ) → engine ≡ some i → engine' ≡ some i)
      → ((e : ℕ) → error ≡ some e → error' ≡ some e)
      → Fits lock engine error u (place u)
      → Fits lock' engine' error' u (at place t p u)
  Fits-at place t u p own l i e h = elim (Bool-cases (u == t)) [
    | inl q ↦ rw q (rw (==_sound u t q) own)
    | inr q ↦ rw q (Fits-keeps u (place u) (l (ne q)) i e h)
  ]
    where
      ne : (u == t) ≡ false → t ≢ u
      ne q r = ground arith

module _ {s : Adapter} (inv : IsConsistent s) where
  locked-holds : (t : ℕ) → s.place t ≡ locked → s.lock ≡ some t
  locked-holds t p = subst (Fits s.lock s.engine s.engine_error t) p (inv.fits t)

  creating-holds : (t : ℕ) → s.place t ≡ creating → s.lock ≡ some t
  creating-holds t p = subst (Fits s.lock s.engine s.engine_error t) p (inv.fits t)

  -- While a thread creates the engine, there is neither an engine nor an error.
  creating-unset :
      (t : ℕ)
      → s.place t ≡ creating
      → (s.engine ≡ none) × (s.engine_error ≡ none) × (s.creations ≡ 1)
  creating-unset t p = ground (arith, creating-holds t p, inv.counted, inv.once)

  -- A step that changes neither the lock nor the engine nor the error.
  same-Fits :
      (t u : ℕ) (p : Place)
      → Fits s.lock s.engine s.engine_error t p
      → Fits s.lock s.engine s.engine_error u (at s.place t p u)
  same-Fits t u p own =
      Fits-at s.lock s.lock s.engine s.engine s.engine_error s.engine_error s.place t u p own
        (λ _ x. x) (λ _ x. x) (λ _ x. x) (inv.fits u)

  -- A step that releases the lock.
  release-Fits :
      (t u : ℕ) (p : Place) (engine' error' : Option ℕ)
      → s.lock ≡ some t
      → Fits none engine' error' t p
      → ((i : ℕ) → s.engine ≡ some i → engine' ≡ some i)
      → ((e : ℕ) → s.engine_error ≡ some e → error' ≡ some e)
      → Fits none engine' error' u (at s.place t p u)
  release-Fits t u p engine' error' l own i e =
      Fits-at s.lock none s.engine engine' s.engine_error error' s.place t u p own
        (λ n x. absurd (n (cc))) i e (inv.fits u)

  Step-Fits :
      {s' : Adapter} → Step s s' → (u : ℕ) → Fits s'.lock s'.engine s'.engine_error u (s'.place u)
  Step-Fits (look_engine t i p e) u = same-Fits t u (done (returned i)) e
  Step-Fits (miss_engine t p e) u = same-Fits t u no_engine tt
  Step-Fits (look_error t e p q) u = same-Fits t u (done (raised e)) q
  Step-Fits (miss_error t p e) u = same-Fits t u no_error tt
  Step-Fits (acquire t p l) u =
      Fits-at s.lock (some t) s.engine s.engine s.engine_error s.engine_error s.place t u locked
        refl (λ _ x. cc) (λ _ x. x) (λ _ x. x) (inv.fits u)
  Step-Fits (find_engine t i p e) u =
      release-Fits t u (done (returned i)) _ _ (locked-holds t p) e (λ _ x. x) (λ _ x. x)
  Step-Fits (find_error t e p q r) u =
      release-Fits t u (done (raised e)) _ _ (locked-holds t p) r (λ _ x. x) (λ _ x. x)
  Step-Fits (enter_create t p e r) u = same-Fits t u creating (locked-holds t p)
  Step-Fits (create_engine t i p) u =
      release-Fits t u (done (returned i)) (some i) s.engine_error (creating-holds t p) refl
        (λ j x. cc (creating-unset t p).0) (λ _ x. x)
  Step-Fits (create_fails t e p) u =
      release-Fits t u (done (raised e)) s.engine (some e) (creating-holds t p) refl (λ _ x. x)
        (λ j x. cc (creating-unset t p).1)

  -- A step of thread `t` to `p`: what it does to the count, to the bound and to the holder.
  holds-at :
      (t : ℕ) (p : Place)
      → is_creating (s.place t) ≡ is_creating p
      → held s.lock (at s.place t p) ≡ held s.lock s.place
  holds-at t p h = go s.lock
    where
      go : (l : Option ℕ) → held l (at s.place t p) ≡ held l s.place
      go none = refl
      go (some u) = elim (Bool-cases (u == t)) [
        | inl q ↦ ground (arith, h, ==_sound u t q)
        | inr q ↦ rw q refl
      ]

  Step-counted :
      {s' : Adapter}
      → Step s s'
      → (s'.creations ≡ one s'.engine + one s'.engine_error + held s'.lock s'.place)
        × (s'.creations ≤ 1)
  Step-counted (look_engine t i p e) =
      ground (arith, inv.counted, inv.once, holds-at t (done (returned i)))
  Step-counted (miss_engine t p e) = ground (arith, inv.counted, inv.once, holds-at t no_engine)
  Step-counted (look_error t e p q) =
      ground (arith, inv.counted, inv.once, holds-at t (done (raised e)))
  Step-counted (miss_error t p e) = ground (arith, inv.counted, inv.once, holds-at t no_error)
  Step-counted (acquire t p l) = ground (arith, inv.counted, inv.once)
  Step-counted (find_engine t i p e) = ground (arith, inv.counted, inv.once, locked-holds t p)
  Step-counted (find_error t e p q r) = ground (arith, inv.counted, inv.once, locked-holds t p)
  Step-counted (enter_create t p e r) = ground (arith, inv.counted, inv.once, locked-holds t p)
  Step-counted (create_engine t i p) = ground (arith, inv.counted, inv.once, creating-unset t p)
  Step-counted (create_fails t e p) = ground (arith, inv.counted, inv.once, creating-unset t p)

  -- A thread that does not hold the lock moves without it.
  holder-at :
      (t u : ℕ) (p : Place)
      → (s.lock ≡ some t → ⊥)
      → s.lock ≡ some u
      → (at s.place t p u ≡ locked) ⊎ (at s.place t p u ≡ creating)
  holder-at t u p n l = elim (Bool-cases (u == t)) [
    | inl q ↦ absurd (n (cc (==_sound u t q)))
    | inr q ↦ rw q (inv.holder u l)
  ]

  outside : (t : ℕ) → (s.place t ≢ locked) → (s.place t ≢ creating) → s.lock ≡ some t → ⊥
  outside t a b l = elim (inv.holder t l) [ inl x ↦ a x | inr x ↦ b x ]

  Step-holder :
      {s' : Adapter}
      → Step s s'
      → (u : ℕ) → s'.lock ≡ some u
      → (s'.place u ≡ locked) ⊎ (s'.place u ≡ creating)
  Step-holder (look_engine t i p e) u x = holder-at t u _ (outside t (λ y. cc) (λ y. cc)) x
  Step-holder (miss_engine t p e) u x = holder-at t u _ (outside t (λ y. cc) (λ y. cc)) x
  Step-holder (look_error t e p q) u x = holder-at t u _ (outside t (λ y. cc) (λ y. cc)) x
  Step-holder (miss_error t p e) u x = holder-at t u _ (outside t (λ y. cc) (λ y. cc)) x
  Step-holder (acquire t p l) u x = ground arith
  Step-holder (find_engine t i p e) u x = cc
  Step-holder (find_error t e p q r) u x = cc
  Step-holder (enter_create t p e r) u x = ground (arith, locked-holds t p)
  Step-holder (create_engine t i p) u x = cc
  Step-holder (create_fails t e p) u x = cc

  Step-IsConsistent : {s' : Adapter} → Step s s' → IsConsistent s'
  Step-IsConsistent st = record {
    fits = Step-Fits st;
    counted = (Step-counted st).0;
    once = (Step-counted st).1;
    holder = Step-holder st;
  }

new_adapter-IsConsistent : IsConsistent new_adapter
new_adapter-IsConsistent = record {
  fits = λ t. tt;
  counted = omega arith;
  once = omega arith;
  holder = λ t h. cc;
}

pub Reach-IsConsistent : {s : Adapter} → Reach s → IsConsistent s
Reach-IsConsistent here = new_adapter-IsConsistent
Reach-IsConsistent (next r st) = Step-IsConsistent (Reach-IsConsistent r) st
