-- ===== src/Prelude/Sort.antt =====
-- A stable sort by a Boolean order: `before x y` says that `x` must stand in front of `y`.
use mathlib.Core.Path.{◌≡◌, refl}
use mathlib.Core.Logic.{inl, inr}
use mathlib.Core.Bool.{Bool, true, false, ◌||◌}
use mathlib.Core.List.{List, [], ◌∷◌}
use native.Mathlib.Omega.{arith}
use memori.Prelude.Lists.{if◌then◌else◌, All, any, length, take, Bool-cases}
use Prim.Native.Nat.{ℕ, zero, suc, ◌≤◌}

module _ {ℓ} {A : Type ℓ} (before : A → A → Bool) where
  abbrev pub insert_sorted : A → List A → List A
  insert_sorted x [] = x ∷ []
  insert_sorted x (y ∷ ys) = if before y x then y ∷ insert_sorted x ys else x ∷ y ∷ ys

  unfoldable pub sort : List A → List A
  sort [] = []
  sort (x ∷ xs) = insert_sorted x (sort xs)

  -- No element must stand in front of one that stands in front of it.
  abbrev pub Ordered : List A → Type 0
  Ordered [] = Unit
  Ordered (x ∷ xs) = All (λ y. before y x ≡ false) xs × Ordered xs

  -- `before` is a strict weak order.
  pub record IsWeakOrder : Type ℓ where
    pub asym : (a b : A) → before a b ≡ true → before b a ≡ false
    pub neg_trans : (a b c : A) → before a b ≡ false → before b c ≡ false → before a c ≡ false

  any-insert_sorted :
      (p : A → Bool) (x : A) (l : List A) → any p (insert_sorted x l) ≡ (p x || any p l)
  any-insert_sorted p x [] = refl
  any-insert_sorted p x (y ∷ l) = ground (arith, any-insert_sorted p x l)

  pub any-sort : (p : A → Bool) (l : List A) → any p (sort l) ≡ any p l
  unfolding sort
  any-sort p [] = refl
  any-sort p (x ∷ l) = ground (arith, any-insert_sorted p x (sort l), any-sort p l)

module _ {ℓ} {A : Type ℓ} (before : A → A → Bool) where
  pub All-insert_sorted :
      (P : A → Type 0) (x : A) (l : List A) → P x → All P l → All P (insert_sorted before x l)
  All-insert_sorted P x [] h a = (h, tt)
  All-insert_sorted P x (y ∷ l) h a = elim (Bool-cases (before y x)) [
    | inl e ↦ rw e (a.0, All-insert_sorted P x l h a.1)
    | inr e ↦ rw e (h, a)
  ]

  pub All-sort : (P : A → Type 0) (l : List A) → All P l → All P (sort before l)
  unfolding sort
  All-sort P [] a = tt
  All-sort P (x ∷ l) a = All-insert_sorted P x (sort before l) a.0 (All-sort P l a.1)

  pub All-take : (P : A → Type 0) (n : ℕ) (l : List A) → All P l → All P (take n l)
  All-take P zero l a = tt
  All-take P (suc n) [] a = tt
  All-take P (suc n) (x ∷ l) a = (a.0, All-take P n l a.1)

  pub Ordered-take : (n : ℕ) (l : List A) → Ordered before l → Ordered before (take n l)
  Ordered-take zero l o = tt
  Ordered-take (suc n) [] o = tt
  Ordered-take (suc n) (x ∷ l) o =
      (All-take (λ y. before y x ≡ false) n l o.0, Ordered-take n l o.1)

module _ {ℓ} {A : Type ℓ} (before : A → A → Bool) (weak : IsWeakOrder before) where
  All-behind :
      (x y : A) (l : List A)
      → before y x ≡ false
      → All (λ z. before z y ≡ false) l
      → All (λ z. before z x ≡ false) l
  All-behind x y [] h a = tt
  All-behind x y (z ∷ l) h a = (weak.neg_trans z y x a.0 h, All-behind x y l h a.1)

  Ordered-insert_sorted :
      (x : A) (l : List A) → Ordered before l → Ordered before (insert_sorted before x l)
  Ordered-insert_sorted x [] o = (tt, tt)
  Ordered-insert_sorted x (y ∷ l) o = elim (Bool-cases (before y x)) [
    | inl e ↦ rw e (
      All-insert_sorted before (λ z. before z y ≡ false) x l (weak.asym y x e) o.0,
      Ordered-insert_sorted x l o.1,
    )
    | inr e ↦ rw e ((e, All-behind x y l e o.0), o)
  ]

  pub sort-Ordered : (l : List A) → Ordered before (sort before l)
  unfolding sort
  sort-Ordered [] = tt
  sort-Ordered (x ∷ l) = Ordered-insert_sorted x (sort before l) (sort-Ordered l)

pub length-take_le {ℓ} : {A : Type ℓ} (n : ℕ) (l : List A) → length (take n l) ≤ n
length-take_le zero l = omega arith
length-take_le (suc n) [] = omega arith
length-take_le (suc n) (x ∷ l) = omega (arith, length-take_le n l)
