-- ===== src/Native/Engine/Ends.antt =====
-- Every run of finitely many threads ends, with all of them through.
use memori.Prelude.{
  ℕ, zero, suc, ◌+◌, ◌*◌, ◌≤◌, ◌<◌, ◌≡◌, refl, ap, ◌∙◌, ltb, ◌⊎◌, inl, inr, arith, ◌==◌, ==_sound,
  Bool-cases, Option-cases,
}
use memori.Native.Engine.{
  Outcome, returned, raised, Place, start, no_engine, no_error, locked, creating, done, Adapter, at,
  Step, look_engine, miss_engine, look_error, miss_error, acquire, find_engine, find_error,
  enter_create, create_engine, create_fails, new_adapter, Reach, here, next,
}
use memori.Native.Engine.Once.{IsConsistent, Reach-IsConsistent}

abbrev pub mover : {s s' : Adapter} → Step s s' → ℕ
mover (look_engine t i p e) = t
mover (miss_engine t p e) = t
mover (look_error t e p q) = t
mover (miss_error t p e) = t
mover (acquire t p l) = t
mover (find_engine t i p e) = t
mover (find_error t e p q r) = t
mover (enter_create t p e r) = t
mover (create_engine t i p) = t
mover (create_fails t e p) = t

-- A run of the threads below `n`, of so many steps.
pub data Run (n : ℕ) : ℕ → Adapter → Type 0 where
  begun : Run n 0 new_adapter
  moved : {k : ℕ} {s s' : Adapter} → Run n k s → (st : Step s s') → mover st < n → Run n (suc k) s'

Run-Reach : {n k : ℕ} {s : Adapter} → Run n k s → Reach s
Run-Reach begun = here
Run-Reach (moved r st h) = next (Run-Reach r) st

-- How many steps a thread has left at most.
abbrev rank : Place → ℕ
rank start = 5
rank no_engine = 4
rank no_error = 3
rank locked = 2
rank creating = 1
rank (done a) = 0

abbrev total : ℕ → (ℕ → Place) → ℕ
total zero place = 0
total (suc n) place = rank (place n) + total n place

total-start : (n : ℕ) → total n (λ t. start) ≡ 5 * n
total-start zero = omega arith
total-start (suc n) = omega (arith, total-start n)

total-above :
    (n t : ℕ) (place : ℕ → Place) (p : Place) → n ≤ t → total n (at place t p) ≡ total n place
total-above zero t place p h = refl
total-above (suc n) t place p h = ground (arith, total-above n t place p)

total-below :
    (n t : ℕ) (place : ℕ → Place) (p : Place)
    → t < n
    → rank p < rank (place t)
    → total n (at place t p) < total n place
total-below zero t place p h k = absurd (omega arith)
total-below (suc n) t place p h k = elim (Bool-cases (n == t)) [
  | inl q ↦ rw q (
      omega (
        arith,
        total-above n t place p (omega (arith, ==_sound n t q)),
        ap (λ (u : ℕ). rank (place u)) (==_sound n t q),
      ))
  | inr q ↦ rw q (omega (arith, total-below n t place p (ground arith) k))
]

Step-at :
    {s s' : Adapter} (st : Step s s')
    → (p : Place) × (s'.place ≡ at s.place (mover st) p) × (rank p < rank (s.place (mover st)))
Step-at (look_engine t i p e) = (done (returned i), refl, omega (arith, ap rank p))
Step-at (miss_engine t p e) = (no_engine, refl, omega (arith, ap rank p))
Step-at (look_error t e p q) = (done (raised e), refl, omega (arith, ap rank p))
Step-at (miss_error t p e) = (no_error, refl, omega (arith, ap rank p))
Step-at (acquire t p l) = (locked, refl, omega (arith, ap rank p))
Step-at (find_engine t i p e) = (done (returned i), refl, omega (arith, ap rank p))
Step-at (find_error t e p q r) = (done (raised e), refl, omega (arith, ap rank p))
Step-at (enter_create t p e r) = (creating, refl, omega (arith, ap rank p))
Step-at (create_engine t i p) = (done (returned i), refl, omega (arith, ap rank p))
Step-at (create_fails t e p) = (done (raised e), refl, omega (arith, ap rank p))

Run-total : {n k : ℕ} {s : Adapter} → Run n k s → k + total n s.place ≤ 5 * n
Run-total {n} begun = omega (arith, total-start n)
Run-total {n} (moved {s} r st h) =
    let (p, e, lower) = Step-at st in
    omega (
      arith,
      Run-total r,
      total-below n (mover st) s.place p h lower,
      ap (λ (place : ℕ → Place). total n place) e,
    )

-- A thread that takes no part has not begun.
Run-start : {n k : ℕ} {s : Adapter} → Run n k s → (u : ℕ) → n ≤ u → s.place u ≡ start
Run-start begun u h = refl
Run-start {n} (moved {s} r st lt) u h =
    let (p, e, lower) = Step-at st in
    ap (λ (place : ℕ → Place). place u) e
    ∙ other u (mover st) p (omega (arith, lt)) (Run-start r u h)
  where
    other : (v t : ℕ) (p : Place) → t < v → s.place v ≡ start → at s.place t p v ≡ start
    other v t p below q = ground arith

abbrev pub Moves : Adapter → (ℕ → Type 0) → Type 0
Moves s P = (s' : Adapter) × (st : Step s s') × P (mover st)

module _ (s : Adapter) (inv : IsConsistent s) where
  abbrev Near : ℕ → ℕ → Type 0
  Near t u = (u ≡ t) ⊎ ((s.place u ≡ locked) ⊎ (s.place u ≡ creating))

  locked-moves : (t u : ℕ) → Near t u → s.place u ≡ locked → Moves s (Near t)
  locked-moves t u near p = elim (Option-cases s.engine) [
    | inl e ↦ elim (Option-cases s.engine_error) [
      | inl r ↦ (_, enter_create u p e r, near)
      | inr (x, r) ↦ (_, find_error u x p e r, near)
    ]
    | inr (i, e) ↦ (_, find_engine u i p e, near)
  ]

  -- A thread that is not through can move, or the one that holds the lock can.
  Place-moves :
      (t : ℕ) (q : Place)
      → s.place t ≡ q
      → ((a : Outcome) × (s.place t ≡ done a)) ⊎ Moves s (Near t)
  Place-moves t start p = elim (Option-cases s.engine) [
    | inl e ↦ inr (_, miss_engine t p e, inl refl)
    | inr (i, e) ↦ inr (_, look_engine t i p e, inl refl)
  ]
  Place-moves t no_engine p = elim (Option-cases s.engine_error) [
    | inl e ↦ inr (_, miss_error t p e, inl refl)
    | inr (x, e) ↦ inr (_, look_error t x p e, inl refl)
  ]
  Place-moves t no_error p = elim (Option-cases s.lock) [
    | inl l ↦ inr (_, acquire t p l, inl refl)
    | inr (u, l) ↦ elim (inv.holder u l) [
      | inl q ↦ inr (locked-moves t u (inr (inl q)) q)
      | inr q ↦ inr (_, create_engine u 0 q, inr (inr q))
    ]
  ]
  Place-moves t locked p = inr (locked-moves t t (inl refl) p)
  Place-moves t creating p = inr (_, create_engine t 0 p, inl refl)
  Place-moves t (done a) p = inl (a, p)

abbrev pub AllDone : ℕ → Adapter → Type 0
AllDone n s = (t : ℕ) → t < n → (a : Outcome) × (s.place t ≡ done a)

Near-below :
    {n k : ℕ} {s : Adapter}
    → Run n k s
    → (inv : IsConsistent s) → (t u : ℕ) → t < n
    → Near s inv t u
    → u < n
Near-below {n} r inv t u h near = elim (Bool-cases (ltb u n)) [
  | inl q ↦ ground arith
  | inr q ↦ absurd (ground (arith, Run-start r u (ground arith)))
]

all_or_moves :
    {n k : ℕ} {s : Adapter} → Run n k s → (m : ℕ) → m ≤ n → AllDone m s ⊎ Moves s (λ u. u < n)
all_or_moves r zero h = inl (λ t k. absurd (omega arith))
all_or_moves {n} {k} {s} r (suc m) h = elim (all_or_moves r m (omega arith)) [
  | inr moves ↦ inr moves
  | inl all ↦ elim (Place-moves s (Reach-IsConsistent (Run-Reach r)) m (s.place m) refl) [
    | inr (s', st, near) ↦
        inr
          (s', st, Near-below r (Reach-IsConsistent (Run-Reach r)) m (mover st) (omega arith) near)
    | inl (a, p) ↦ inl (λ t lt. elim (Bool-cases (t == m)) [
      | inl q ↦ (a, cc (==_sound t m q, p))
      | inr q ↦ all t (ground arith)
    ])
  ]
]

-- A run of `n` threads from a new adapter, in any interleaving and whatever becomes of the creation,
-- has at most 5 n steps, and can go on unless all of the threads are through: none waits for ever.
pub active_engine_ends :
    (n k : ℕ) (s : Adapter) → Run n k s → (k ≤ 5 * n) × (AllDone n s ⊎ Moves s (λ u. u < n))
active_engine_ends n k s r = (omega (arith, Run-total r), all_or_moves r n (omega arith))
