-- ===== src/Augment/Cloud.antt =====
-- memori/memory/augmentation/_handler.py: which way an exchange is augmented, and the requests to the
-- cloud. `post n` is the status, or the exception, of the `n`-th request.
pub mod Posted
use Prim.Native.Nat.{max, ◌^◌}
use memori.Prelude.{ℕ, zero, suc, ◌+◌, ◌-◌, Bool, true, false, ◌&&◌, leb, if◌then◌else◌}
use memori.Exec.{Exc, api_error, Result, ok, err}

-- How `_post_cloud_augmentation` ends: what it returns or raises, the requests it sent, and how long
-- it slept in units of the backoff factor.
pub record Post : Type 0 where
  pub outcome : Result (Unit {0})
  pub requests : ℕ
  pub slept : ℕ

-- `200 <= last_status <= 299`
abbrev pub is_success : Result ℕ → Bool
is_success (ok status) = leb 200 status && leb status 299
is_success (err e) = false

-- What is raised after the last attempt: `last_error` is `None` after a status.
abbrev pub failure : Result ℕ → Exc
failure (ok status) = api_error
failure (err e) = e

-- `attempts = max(1, int(request_num_backoff or 1))`
abbrev pub attempts_of : ℕ → ℕ
attempts_of request_num_backoff = max 1 request_num_backoff

module _ (post : ℕ → Result ℕ) where
  -- The attempts from number `n` that are left, of `suc k`; `0 < k` is the test
  -- `attempt < attempts - 1`.
  unfoldable pub post_loop : ℕ → ℕ → ℕ → Post
  post_loop zero n slept =
      if is_success (post n)
      then record { outcome = ok tt; requests = suc n; slept = slept }
      else record { outcome = err (failure (post n)); requests = suc n; slept = slept }
  post_loop (suc k) n slept =
      let rest = post_loop k (suc n) (slept + 2 ^ n) in
      if is_success (post n)
      then record { outcome = ok tt; requests = suc n; slept = slept }
      else rest

  unfoldable pub post_cloud_augmentation : ℕ → Post
  unfolding post_loop
  post_cloud_augmentation request_num_backoff = post_loop (attempts_of request_num_backoff - 1) 0 0

-- What `handle_augmentation` does with an exchange.
pub data Route : Type 0 where
  nothing : Route
  -- `_send_cloud_augmentation_background`, `_submit_rust_augmentation_background`: in an executor or
  -- at once
  cloud_background cloud_now rust_background rust_now : Route
  -- `augmentation_manager.enqueue`
  enqueue_python : Route

-- `has_attribution`: an entity or a process is configured. `has_executor`: `thread_pool_executor`.
unfoldable pub handle_augmentation : Bool → Bool → Bool → Bool → Route
handle_augmentation false cloud rust_core has_executor = nothing
handle_augmentation true true rust_core has_executor =
    if has_executor then cloud_background else cloud_now
handle_augmentation true false true has_executor =
    if has_executor then rust_background else rust_now
handle_augmentation true false false has_executor = enqueue_python
