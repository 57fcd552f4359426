-- ===== src/Retry/Tests.antt =====
-- Retries at concrete values: the default options, and a request that is answered at the third
-- attempt.
use easy_uds.Prelude.{
  ℕ, ◌≡◌, [], ◌∷◌, refl, arith, ltb, if◌then◌else◌, some, timeout, error, Result, ok, err,
}
use easy_uds.Retry.{Outcome, default_retry_options, request_idempotent}
use easy_uds.Retry.Laws.{Stops, request_idempotent-Stops}

abbrev third_time : ℕ → Result ℕ
third_time n = if ltb n 3 then err (error timeout "connect") else ok 42

request_idempotent_run :
    request_idempotent third_time default_retry_options
    ≡ some (record { result = ok 42; sleeps = 5 ∷ 10 ∷ [] })
unfolding request_idempotent
request_idempotent_run = refl

request_idempotent-Stops_example :
    (o : Outcome ℕ) × (request_idempotent third_time default_retry_options ≡ some o)
    × Stops third_time 3 100 1 5 o
request_idempotent-Stops_example =
    request_idempotent-Stops third_time default_retry_options 5 100 (omega arith) refl refl
      (omega arith)
