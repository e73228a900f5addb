-- ===== src/Augment/Cloud/Posted.antt =====
-- The loop of requests ends, and its last response decides.
use Prim.Native.Nat.{◌^◌, max}
use native.Mathlib.Numerals.{unary_clauses}
use memori.Prelude.{
  ℕ, zero, suc, ◌+◌, ◌-◌, ◌*◌, ◌≤◌, ◌<◌, ◌≡◌, refl, ◌⊎◌, inl, inr, true, false, ◌==◌, ==_sound,
  arith, Bool-cases,
}
use memori.Exec.{Result, ok, err}
use memori.Augment.Cloud.{
  Post, is_success, failure, attempts_of, post_loop, post_cloud_augmentation,
}

-- With `most` attempts at hand: the request of number `last` is the last one, no response before it
-- is a success, and it is one or no attempt is left; the pauses are 1, 2, 4, … units, one for each
-- response before the last.
pub record Decides (post : ℕ → Result ℕ) (most : ℕ) (p : Post) : Type 0 where
  pub last : ℕ
  pub requests : p.requests ≡ suc last
  pub bound : p.requests ≤ most
  pub failed : (i : ℕ) → i < last → is_success (post i) ≡ false
  pub decided :
      ((is_success (post last) ≡ true) × (p.outcome ≡ ok tt))
      ⊎ ((is_success (post last) ≡ false)
          × (p.outcome ≡ err (failure (post last)))
          × (p.requests ≡ most))
  pub slept : p.slept + 1 ≡ 2 ^ last

pow_suc : (n : ℕ) → 2 ^ suc n ≡ 2 ^ n * 2
pow_suc n = simp unary_clauses

module _ (post : ℕ → Result ℕ) where
  one_more :
      (n : ℕ)
      → ((i : ℕ) → i < n → is_success (post i) ≡ false)
      → is_success (post n) ≡ false
      → (i : ℕ) → i < suc n
      → is_success (post i) ≡ false
  one_more n before now i h = elim (Bool-cases (i == n)) [
    | inl same ↦ rw (==_sound i n same) now
    | inr other ↦ before i (ground arith)
  ]

  module _ (n slept most : ℕ) (before : (i : ℕ) → i < n → is_success (post i) ≡ false) where
    succeeded :
        is_success (post n) ≡ true
        → suc n ≤ most
        → slept + 1 ≡ 2 ^ n
        → Decides post most (record { outcome = ok tt; requests = suc n; slept = slept })
    succeeded h bound sum = record {
      last = n;
      requests = refl;
      bound = bound;
      failed = before;
      decided = inl (h, refl);
      slept = sum;
    }

    gave_up :
        is_success (post n) ≡ false
        → suc n ≡ most
        → slept + 1 ≡ 2 ^ n
        → Decides post most
            (record { outcome = err (failure (post n)); requests = suc n; slept = slept })
    gave_up h bound sum = record {
      last = n;
      requests = refl;
      bound = omega arith;
      failed = before;
      decided = inr (h, refl, bound);
      slept = sum;
    }

  post_loop-Decides :
      (k n slept most : ℕ)
      → k + suc n ≡ most
      → ((i : ℕ) → i < n → is_success (post i) ≡ false)
      → slept + 1 ≡ 2 ^ n
      → Decides post most (post_loop post k n slept)
  unfolding post_loop
  post_loop-Decides zero n slept most left before sum = elim (Bool-cases (is_success (post n))) [
    | inl h ↦ rw h (succeeded n slept most before h (omega arith) sum)
    | inr h ↦ rw h (gave_up n slept most before h (omega arith) sum)
  ]
  post_loop-Decides (suc k) n slept most left before sum = elim (Bool-cases (is_success (post n))) [
    | inl h ↦ rw h (succeeded n slept most before h (omega arith) sum)
    | inr h ↦ rw h (
        post_loop-Decides k (suc n) (slept + 2 ^ n) most (omega arith) (one_more n before h)
          (omega (arith, pow_suc n)))
  ]

-- The requests of an exchange to the cloud end after at most max(1, request_num_backoff) of them,
-- with the first that gets a status from 200 to 299; without one, that many are sent, and the error
-- of the last is raised, or MemoriApiError if it had a status; the pauses are 1, 2, 4, … units.
pub post_cloud_augmentation-Decides :
    (post : ℕ → Result ℕ) (request_num_backoff : ℕ)
    → Decides post (max 1 request_num_backoff) (post_cloud_augmentation post request_num_backoff)
unfolding post_cloud_augmentation
post_cloud_augmentation-Decides post n =
    post_loop-Decides post (attempts_of n - 1) 0 0 (max 1 n) (omega arith)
      (λ i h. absurd (omega arith)) refl
