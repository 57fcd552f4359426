-- ===== src/Retry/Laws.antt =====
-- When the retries of an idempotent request stop, and how long they pause.
use easy_uds.Prelude.{
  ℕ, zero, suc, ◌+◌, ◌≤◌, ◌<◌, ◌≡◌, ◌⊎◌, inl, inr, refl, ap, subst, arith, true, false, List, [],
  ◌∷◌, some, ltb, min, if◌then◌else◌, dec_lt, Exception, Result, ok, err, Bool-cases,
}
use easy_uds.Options.{pos}
use easy_uds.Retry.{
  RetryOptions, is_retryable, next_backoff, Outcome, paused, attempts, request_idempotent,
}

-- The pauses from a backoff on: each doubles the one before, up to the limit.
abbrev pub pauses : ℕ → ℕ → ℕ → List ℕ
pauses zero limit backoff = []
pauses (suc n) limit backoff =
    if ltb 0 backoff
    then backoff ∷ pauses n limit (min (backoff + backoff) limit)
    else pauses n limit (min (backoff + backoff) limit)

next_backoff-min : (b limit : ℕ) → b ≤ limit → next_backoff b limit ≡ min (b + b) limit
next_backoff-min b limit h = ground arith

module _ {R : Type 0} where
  abbrev pub IsFinal : Result R → Type 0
  IsFinal (ok r) = Unit {0}
  IsFinal (err e) = is_retryable e ≡ false

  abbrev pub IsRetried : Result R → Type 0
  IsRetried (ok r) = ⊥
  IsRetried (err e) = is_retryable e ≡ true

  -- What a call does that makes `made` more attempts from number `attempt` on.
  pub record Stops (request : ℕ → Result R) (max_attempts limit attempt backoff : ℕ) (o : Outcome R)
      : Type 0 where
    pub made : ℕ
    pub last_within : attempt + made ≤ max_attempts
    pub result_last : o.result ≡ request (attempt + made)
    pub ended : IsFinal (request (attempt + made)) ⊎ (attempt + made ≡ max_attempts)
    pub retried : (i : ℕ) → i < made → IsRetried (request (attempt + i))
    pub slept : o.sleeps ≡ pauses made limit backoff

  abbrev Answer : ℕ → (ℕ → Result R) → ℕ → ℕ → ℕ → ℕ → Type 0
  Answer fuel request n limit attempt backoff =
      (o : Outcome R) × (attempts fuel request n limit attempt backoff ≡ some o)
      × Stops request n limit attempt backoff o

  shifted-IsRetried :
      (request : ℕ → Result R) (attempt made : ℕ)
      → IsRetried (request attempt)
      → ((i : ℕ) → i < made → IsRetried (request (attempt + 1 + i)))
      → (i : ℕ) → i < suc made
      → IsRetried (request (attempt + i))
  shifted-IsRetried request attempt made first later zero h =
      let here : attempt ≡ attempt + 0 = omega arith in rw here at first
  shifted-IsRetried request attempt made first later (suc i) h =
      let moved : attempt + 1 + i ≡ attempt + suc i = omega arith in
      subst (λ j. IsRetried (request j)) moved (later i (omega arith))

  -- One more attempt in front of a call.
  retried-Stops :
      (request : ℕ → Result R) (n limit attempt backoff : ℕ) (o : Outcome R)
      → backoff ≤ limit
      → IsRetried (request attempt)
      → Stops request n limit (attempt + 1) (next_backoff backoff limit) o
      → Stops request n limit attempt backoff (paused backoff o)
  retried-Stops request n limit attempt backoff o small first s =
      let shift : attempt + 1 + s.made ≡ attempt + suc s.made = omega arith in
      record {
        made = suc s.made;
        last_within = omega (arith, s.last_within);
        result_last = rw shift at s.result_last;
        ended = rw shift at s.ended;
        retried = shifted-IsRetried request attempt s.made first s.retried;
        slept = ground (arith, next_backoff-min backoff limit small, s.slept);
      }

  IsFinal-ok : {q : Result R} {r : R} → q ≡ ok r → IsFinal q
  IsFinal-ok {q = ok r} e = tt
  IsFinal-ok {q = err x} e = cc

  failed-IsFinal : {q : Result R} {x : Exception} → q ≡ err x → is_retryable x ≡ false → IsFinal q
  failed-IsFinal {q = ok r} e h = tt
  failed-IsFinal {q = err x} e h = cc

  failed-IsRetried :
      {q : Result R} {x : Exception} → q ≡ err x → is_retryable x ≡ true → IsRetried q
  failed-IsRetried {q = ok r} e h = cc
  failed-IsRetried {q = err x} e h = cc

  -- A call that makes no further attempt.
  last-Stops :
      (request : ℕ → Result R) (n limit attempt backoff : ℕ)
      → attempt ≤ n
      → IsFinal (request attempt) ⊎ (attempt ≡ n)
      → Stops request n limit attempt backoff (record { result = request attempt; sleeps = [] })
  last-Stops request n limit attempt backoff le end =
      let here : attempt ≡ attempt + 0 = omega arith in
      record {
        made = 0;
        last_within = omega arith;
        result_last = ap request here;
        ended = rw here at end;
        retried = λ i h. absurd (omega arith);
        slept = refl;
      }

  attempts-Stops :
      (fuel : ℕ) (request : ℕ → Result R) (n limit attempt backoff : ℕ)
      → attempt ≤ n
      → n < attempt + fuel
      → backoff ≤ limit
      → Answer fuel request n limit attempt backoff
  unfolding attempts
  attempts-Stops zero request n limit attempt backoff le enough small = absurd (omega arith)
  attempts-Stops (suc fuel) request n limit attempt backoff le enough small =
      go (request attempt) refl (λ h.
        attempts-Stops fuel request n limit (attempt + 1) (next_backoff backoff limit) h
          (omega arith) (ground arith))
    where
      go :
          (r : Result R)
          → request attempt ≡ r
          → (attempt + 1 ≤ n
              → Answer fuel request n limit (attempt + 1) (next_backoff backoff limit))
          → Answer (suc fuel) request n limit attempt backoff
      go (ok r) e again = (
        record { result = request attempt; sleeps = [] },
        ground (arith, e),
        last-Stops request n limit attempt backoff le (inl (IsFinal-ok e)),
      )
      go (err x) e again = elim (Bool-cases (is_retryable x)) [
        | inl yes_retry ↦ elim (dec_lt attempt n) [
          | yes more ↦
              let (o, returned, stops) = again (omega arith) in
              (
                paused backoff o,
                ground (arith, e, yes_retry, more, returned),
                retried-Stops request n limit attempt backoff o small (failed-IsRetried e yes_retry)
                    stops,
              )
          | no last ↦ (
            record { result = request attempt; sleeps = [] },
            ground (arith, e, yes_retry, last),
            last-Stops request n limit attempt backoff le (inr (omega arith)),
          )
        ]
        | inr no_retry ↦ (
          record { result = request attempt; sleeps = [] },
          ground (arith, e, no_retry),
          last-Stops request n limit attempt backoff le (inl (failed-IsFinal e no_retry)),
        )
      ]

  -- Options with at least one attempt and backoffs that are not negative and in order make the
  -- call return. It then made attempts number 1 to `1 + made`, at most `max_attempts` of them. All
  -- but the last failed with a failure to retry; the last one's result is the call's, and it
  -- succeeded, failed with another failure, or was the last one allowed. Between two attempts it
  -- paused for the initial backoff, doubled each time up to the limit, but not for zero.
  pub request_idempotent-Stops :
      (request : ℕ → Result R) (retry : RetryOptions) (initial limit : ℕ)
      → 0 < retry.max_attempts
      → retry.initial_backoff ≡ pos initial
      → retry.max_backoff ≡ pos limit
      → initial ≤ limit
      → (o : Outcome R) × (request_idempotent request retry ≡ some o)
        × Stops request retry.max_attempts limit 1 initial o
  unfolding request_idempotent
  request_idempotent-Stops request retry initial limit any first last order =
      let (o, returned, stops) =
        attempts-Stops retry.max_attempts request retry.max_attempts limit 1 initial (omega arith)
          (omega arith) order in
      (o, ground (arith, first, last, returned), stops)
