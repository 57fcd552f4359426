-- ===== src/Retry.antt =====
-- `Client::request_idempotent` of user/cpp/core/client.cpp. One attempt is a parameter: what the
-- request number `n` returns or throws. The loop runs on fuel; `none` means that it ran out.
pub mod Laws
mod Tests
use easy_uds.Prelude.{
  ℕ, zero, suc, ◌+◌, ◌-◌, Bool, true, false, not, ◌||◌, ◌&&◌, List, [], ◌∷◌, Option, some, none,
  ◌==◌, ltb, leb, min, if◌then◌else◌, ErrorCode, timeout, closed, unavailable, Exception, error,
  invalid_argument, Result, ok, err,
}
use easy_uds.Options.{Count, pos, negsuc, is_negative}

pub record RetryOptions : Type 0 where
  pub max_attempts : ℕ
  pub initial_backoff : Count
  pub max_backoff : Count

abbrev pub default_retry_options : RetryOptions
default_retry_options = record { max_attempts = 3; initial_backoff = pos 5; max_backoff = pos 100 }

abbrev pub millis : Count → ℕ
millis (pos n) = n
millis (negsuc n) = 0

-- The `catch` clause takes an `Error` only, and retries three of its kinds.
abbrev pub is_retryable : Exception → Bool
is_retryable (error timeout what) = true
is_retryable (error closed what) = true
is_retryable (error unavailable what) = true
is_retryable _ = false

abbrev pub next_backoff : ℕ → ℕ → ℕ
next_backoff backoff limit =
    if ltb backoff limit then backoff + min backoff (limit - backoff) else backoff

-- The result of the call, and the pauses that it made.
pub record Outcome (R : Type 0) : Type 0 where
  pub result : Result R
  pub sleeps : List ℕ

module _ {R : Type 0} where
  -- A pause of zero is not made.
  abbrev pub paused : ℕ → Outcome R → Outcome R
  paused backoff o = record o { sleeps = if ltb 0 backoff then backoff ∷ o.sleeps else o.sleeps }

  abbrev pub then_pause : ℕ → Option (Outcome R) → Option (Outcome R)
  then_pause backoff none = none
  then_pause backoff (some o) = some (paused backoff o)

  unfoldable pub attempts : ℕ → (ℕ → Result R) → ℕ → ℕ → ℕ → ℕ → Option (Outcome R)
  attempts zero request max_attempts limit attempt backoff = none
  attempts (suc fuel) request max_attempts limit attempt backoff =
      let rest =
        attempts fuel request max_attempts limit (attempt + 1) (next_backoff backoff limit) in
      elim (request attempt) [
        | ok r ↦ some (record { result = ok r; sleeps = [] })
        | err e ↦
            if not (is_retryable e) || leb max_attempts attempt
            then some (record { result = err e; sleeps = [] })
            else then_pause backoff rest
      ]

  unfoldable pub request_idempotent : (ℕ → Result R) → RetryOptions → Option (Outcome R)
  unfolding attempts
  request_idempotent request retry =
      if retry.max_attempts == 0
        || is_negative retry.initial_backoff
        || is_negative retry.max_backoff
        || ltb (millis retry.max_backoff) (millis retry.initial_backoff)
      then some (record {
        result = err (invalid_argument "invalid idempotent request retry options");
        sleeps = [];
      })
      else attempts retry.max_attempts request retry.max_attempts (millis retry.max_backoff) 1
          (millis retry.initial_backoff)
