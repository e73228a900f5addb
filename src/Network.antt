-- ===== src/Network.antt =====
-- memori/_network.py: the retry loop of `Api.__request_async`, and what `augmentation_async` makes of
-- an answer.
pub mod Retries
pub mod Replies
use Prim.Native.Nat.{◌^◌}
use memori.Prelude.{
  ℕ, zero, suc, ◌+◌, ◌*◌, Bool, true, false, Option, none, some, String, ◌&&◌, leb, ◌==◌, ◌⊎◌, inl,
  inr, if◌then◌else◌,
}
use memori.Json.{Json, object, end}

-- A request gives a JSON value, a `ClientResponseError` with a status, or another exception.
pub data Response (A : Type 0) : Type 0 where
  success : A → Response A
  response_error : ℕ → Response A
  other_error : Response A

abbrev pub max_retries : ℕ
max_retries = 5

abbrev pub backoff_factor : ℕ
backoff_factor = 1

-- What has been requested and slept, in seconds, when the loop ends with `outcome`: it returns the
-- value of a success, and raises anything else.
pub record Run (A : Type 0) : Type 0 where
  pub outcome : Response A
  pub requests : ℕ
  pub slept : ℕ

-- not `e.status < 500 or e.status > 599`
abbrev pub is_server_error : ℕ → Bool
is_server_error status = leb 500 status && leb status 599

-- The loop goes on after it, if there are retries left.
abbrev pub is_retried : {A : Type 0} → Response A → Bool
is_retried (success a) = false
is_retried (response_error status) = is_server_error status
is_retried other_error = true

module _ {A : Type 0} (send : ℕ → Response A) where
  -- `while True`, on fuel; `send n` is the response to the request of number `n`
  unfoldable pub request_loop : ℕ → ℕ → ℕ → Option (Run A)
  request_loop zero attempts slept = none
  request_loop (suc fuel) attempts slept =
      let rest = request_loop fuel (suc attempts) (slept + backoff_factor * 2 ^ attempts) in
      let done =
        some (record { outcome = send attempts; requests = suc attempts; slept = slept }) in
      if is_retried (send attempts) then if leb max_retries attempts then done else rest else done

  unfoldable pub request_async : Option (Run A)
  unfolding request_loop
  request_async = request_loop (suc max_retries) 0 0

-- What `augmentation_async` raises: QuotaExceededError, MemoriApiValidationError,
-- MemoriApiRequestRejectedError, MemoriApiClientError, `ClientResponseError`, MemoriApiError.
pub data ApiError : Type 0 where
  quota_exceeded validation_error request_rejected : Option String → ApiError
  client_error : ℕ → Option String → ApiError
  failed_response : ℕ → ApiError
  api_error : ApiError

-- An answer's status, the message of its body, if it has one, and its body; or an SSL, network or
-- timeout error.
pub data Reply : Type 0 where
  answered : ℕ → Option String → Json → Reply
  unreachable : Reply

-- `augmentation_async`, of an anonymous client or of one with a key
abbrev pub augmentation_async : Bool → Reply → ApiError ⊎ Json
augmentation_async anonymous unreachable = inl api_error
augmentation_async anonymous (answered status message body) =
    if status == 429
    then if anonymous then inl (quota_exceeded message) else inr (object end)
    else if status == 422
    then inl (validation_error message)
    else if status == 433
    then inl (request_rejected message)
    else if leb 400 status && leb status 499
    then inl (client_error status message)
    else if leb 400 status
    then inl (failed_response status)
    else inr body
