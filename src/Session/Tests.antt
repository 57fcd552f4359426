-- ===== src/Session/Tests.antt =====
-- A session whose caller gets its response, and one whose reader fails under it.
use easy_uds.Prelude.{
  ℕ, ◌+◌, ◌≡◌, ◌≢◌, ◌⊎◌, ◌≤◌, ◌<◌, zero, suc, refl, arith, false, true, [], ◌∷◌, ◌==◌, none, some,
  error, closed, Exception, ok, err,
}
use easy_uds.Options.{pos}
use easy_uds.Output.{Response}
use easy_uds.Session.{
  empty_slot, sending, awaiting, Call, leaving, Session, failing, stopped, shard_count, new_session,
  try_register, registered, caller_moves, deliver, fail_reader, fail_shard, outcome,
}
use easy_uds.Session.Steps.{
  Heard, Said, registers, moves, delivers, reader_fails, sweeps, Reaches, start, step,
}
use easy_uds.Session.Invariant.{Distinct}
use easy_uds.Session.Waiters.{AllNonzero, AllDone, in_flight-Distinct, stopped-AllDone, outcome-own}

abbrev answer : Response
answer = record { status = pos 200; body = 9 ∷ [] }

abbrev one_call : Session
one_call = record new_session {
  calls = record { request_id = 7; stage = sending; slot = empty_slot } ∷ [];
}

registered_one : (try_register 7 new_session).1 ≡ one_call
unfolding try_register
registered_one = refl

one_call-Reaches : Reaches [] one_call
unfolding try_register
one_call-Reaches = step [] [] new_session one_call start (registers 7)

abbrev waits : Session
waits = record new_session {
  calls = record { request_id = 7; stage = awaiting; slot = empty_slot } ∷ [];
}

abbrev heard_seven : Heard
heard_seven = (7, answer) ∷ []

abbrev last_call : Call
last_call = record {
  request_id = 7;
  stage = leaving false false;
  slot = record { done = true; response = some answer; error = none };
}

abbrev returns : Session
returns = record new_session { calls = last_call ∷ [] }

returns-Reaches : Reaches heard_seven returns
unfolding caller_moves deliver
returns-Reaches =
    step heard_seven [] (deliver 7 answer waits) returns
      (step [] heard_seven waits (deliver 7 answer waits)
        (step [] [] one_call waits one_call-Reaches (moves 7 true false false))
        (delivers 7 answer refl))
      (moves 7 true false false)

in_flight-Distinct_example : Distinct returns.calls × AllNonzero returns.calls
in_flight-Distinct_example = in_flight-Distinct heard_seven returns returns-Reaches

outcome-own_example :
    ((e : Exception) × (outcome false false last_call.slot ≡ err e))
    ⊎ ((r : Response) × (outcome false false last_call.slot ≡ ok (some r)) × Said heard_seven 7 r)
outcome-own_example =
    outcome-own heard_seven returns 7 last_call false false returns-Reaches refl refl

-- The reader fails, and the `catch` block walks the shards.
abbrev lost : Exception
lost = error closed "peer closed connection"

abbrev walked : ℕ → Session
walked zero = fail_reader lost one_call
walked (suc k) = fail_shard lost k (walked k)

walked_reader : (k : ℕ) → k < shard_count → (walked k).reader ≡ failing lost k
unfolding fail_shard
walked_reader zero h = refl
walked_reader (suc k) h =
    let more : (k + 1 == shard_count) ≡ false = ground arith in
    let same : k + 1 ≡ suc k = omega arith in rw (more, same) refl

walked-Reaches : (k : ℕ) → k ≤ shard_count → Reaches [] (walked k)
walked-Reaches zero h = step [] [] one_call (walked 0) one_call-Reaches (reader_fails lost refl)
walked-Reaches (suc k) h =
    step [] [] (walked k) (walked (suc k)) (walked-Reaches k (omega arith))
      (sweeps lost k (walked_reader k (omega arith)))

walked_stopped : (walked shard_count).reader ≡ stopped
unfolding fail_shard
walked_stopped = refl

stopped-AllDone_example :
    AllDone (walked shard_count).calls × ((try_register 8 (walked shard_count)).0 ≢ registered)
stopped-AllDone_example =
    stopped-AllDone [] (walked shard_count) 8 (walked-Reaches shard_count (omega arith))
      walked_stopped
