-- ===== src/Network/Retries.antt =====
-- How often a request is sent, and for how long the loop sleeps.
use Prim.Native.Nat.{◌^◌}
use memori.Prelude.{
  ℕ, zero, suc, ◌+◌, ◌*◌, ◌≤◌, ◌<◌, true, false, some, ◌≡◌, refl, ==_sound, ◌==◌, arith, Bool-cases,
  inl, inr, ◌⊎◌,
}
use native.Mathlib.Numerals.{unary_clauses}
use memori.Network.{
  Response, success, response_error, other_error, Run, max_retries, backoff_factor, is_retried,
  request_loop, request_async,
}

-- A server error, or an exception that is no response error.
abbrev pub IsTemporary : {A : Type 0} → Response A → Type 0
IsTemporary (success a) = true ≡ false
IsTemporary (response_error status) = (500 ≤ status) × (status ≤ 599)
IsTemporary other_error = Unit

-- A value, or an error that another request does not mend.
abbrev pub IsFinal : {A : Type 0} → Response A → Type 0
IsFinal (success a) = Unit
IsFinal (response_error status) = (status < 500) ⊎ (599 < status)
IsFinal other_error = true ≡ false

is_retried-IsTemporary : {A : Type 0} (r : Response A) → is_retried r ≡ true → IsTemporary r
is_retried-IsTemporary (success a) h = cc
is_retried-IsTemporary (response_error status) h = (ground arith, ground arith)
is_retried-IsTemporary other_error h = tt

is_retried-IsFinal : {A : Type 0} (r : Response A) → is_retried r ≡ false → IsFinal r
is_retried-IsFinal (success a) h = tt
is_retried-IsFinal (response_error status) h = ground arith
is_retried-IsFinal other_error h = cc

-- A run as it is meant: the last response decides, those before it are temporary failures, and it
-- is final or the retries are used up; the pauses are 1, 2, 4, … seconds.
pub record Decides {A : Type 0} (send : ℕ → Response A) (run : Run A) : Type 0 where
  pub last : ℕ
  pub requests : run.requests ≡ suc last
  pub most : last ≤ max_retries
  pub outcome : run.outcome ≡ send last
  pub retried : (i : ℕ) → i < last → IsTemporary (send i)
  pub stops : IsFinal (send last) ⊎ (last ≡ max_retries)
  pub slept : run.slept + 1 ≡ 2 ^ last

pow_step : (n : ℕ) → 2 ^ suc n ≡ 2 ^ n * 2
pow_step n = simp unary_clauses

module _ {A : Type 0} (send : ℕ → Response A) where
  one_more :
      (n : ℕ)
      → ((i : ℕ) → i < n → IsTemporary (send i))
      → IsTemporary (send n)
      → (i : ℕ) → i < suc n
      → IsTemporary (send i)
  one_more n before now i h = elim (Bool-cases (i == n)) [
    | inl same ↦ rw (==_sound i n same) now
    | inr other ↦ before i (ground arith)
  ]

  ended-Decides :
      (attempts slept : ℕ)
      → attempts ≤ max_retries
      → ((i : ℕ) → i < attempts → IsTemporary (send i))
      → IsFinal (send attempts) ⊎ (attempts ≡ max_retries)
      → slept + 1 ≡ 2 ^ attempts
      → Decides send (record { outcome = send attempts; requests = suc attempts; slept = slept })
  ended-Decides attempts slept most before stops sum = record {
    last = attempts;
    requests = refl;
    most = most;
    outcome = refl;
    retried = before;
    stops = stops;
    slept = sum;
  }

  request_loop-Decides :
      (fuel attempts slept : ℕ)
      → fuel + attempts ≡ max_retries
      → ((i : ℕ) → i < attempts → IsTemporary (send i))
      → slept + 1 ≡ 2 ^ attempts
      → (run : Run A) × (request_loop send (suc fuel) attempts slept ≡ some run) × Decides send run
  unfolding request_loop
  request_loop-Decides zero attempts slept bound before sum =
      (_, ground arith, ended-Decides attempts slept (omega arith) before (inr (omega arith)) sum)
  request_loop-Decides (suc fuel) attempts slept bound before sum =
      elim (Bool-cases (is_retried (send attempts))) [
        | inl again ↦
            let (run, same, decides) =
              request_loop-Decides fuel (suc attempts) (slept + backoff_factor * 2 ^ attempts)
                (omega arith) (one_more attempts before (is_retried-IsTemporary _ again))
                (omega (arith, pow_step attempts)) in
            (run, ground arith, decides)
        | inr done ↦ (
          _,
          rw done refl,
          ended-Decides attempts slept (omega arith) before (inl (is_retried-IsFinal _ done)) sum,
        )
      ]

-- A request ends, after at most six requests; the last response is what it returns or raises; each
-- one before was a server error or another exception than a response error, and so is the last one
-- only if it is the sixth; and with `n` retries it sleeps 2 ^ n - 1 seconds in all.
pub request_async-Decides :
    {A : Type 0} (send : ℕ → Response A)
    → (run : Run A) × (request_async send ≡ some run) × Decides send run
unfolding request_async
request_async-Decides send =
    request_loop-Decides send max_retries 0 0 refl (λ i h. ground arith) refl
