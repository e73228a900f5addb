-- ===== src/Network/Replies.antt =====
-- Which answers `augmentation_async` returns.
use memori.Prelude.{
  ℕ, Bool, true, false, Option, none, some, String, ◌≡◌, ◌==◌, ltb, not, ◌&&◌, ◌⊎◌, inl, inr, arith,
  if◌then◌else◌,
}
use memori.Json.{Json, object, end}
use memori.Network.{answered, ApiError, augmentation_async}

-- It returns a value and does not raise.
abbrev pub returned : ApiError ⊎ Json → Option Json
returned (inl e) = none
returned (inr v) = some v

-- `augmentation_async` returns the body of an answer whose status is below 400, and an empty dict
-- for a 429 to a client with a key; at every other status it raises.
pub augmentation_async-returned :
    (anonymous : Bool) (status : ℕ) (message : Option String) (body : Json)
    → returned (augmentation_async anonymous (answered status message body)) ≡ (
        if ltb status 400
        then some body
        else if status == 429 && not anonymous
        then some (object end)
        else none)
augmentation_async-returned true status message body = ground arith
augmentation_async-returned false status message body = ground arith
