-- ===== src/Session.antt =====
-- The requests of a session that are in flight: user/cpp/core/session.cpp and
-- system/runtime/session_engine.cpp. Callers and the reader thread share the shards of the table of
-- the calls. A function is one critical section or one atomic operation; `calls` are the entries of
-- all shards with their slots and where their callers are. The counters of the statistics, the spin
-- before the wait and the cache of map nodes are left out.
pub mod Steps
pub mod Invariant
pub mod Calls
pub mod Sections
pub mod Waiters
mod Tests
use easy_uds.Prelude.{
  ℕ, ◌+◌, ◌%◌, ◌^◌, ◌≡◌, Bool, true, false, not, ◌&&◌, ◌||◌, List, [], ◌∷◌, ◌++◌, Option, none,
  some, ◌==◌, ltb, leb, if◌then◌else◌, Exception, error, timeout, closed, protocol, too_large,
  cancelled, Result, ok, err, checks, ◌>>=◌, ◌>>◌,
}
use easy_uds.Deadlines.{int_max}
use easy_uds.Protocol.{HeaderBytes, response, DecodedHeader, decode_header_as}
use easy_uds.Output.{Response}

-- `SessionState::Slot`
pub record Slot : Type 0 where
  pub done : Bool
  pub response : Option Response
  pub error : Option Exception

-- Where a caller is: before its frame is written; in its wait; in the wait after it sent a
-- cancellation; and past its waits, with its `cancelled` and `timed_out`.
pub data Stage : Type 0 where
  sending awaiting cancelling send_failed : Stage
  leaving : Bool → Bool → Stage

pub record Call : Type 0 where
  pub request_id : ℕ
  pub stage : Stage
  pub slot : Slot

-- The reader: in its loop, in its `catch` block before the shard of that index, or past it.
pub data Reader : Type 0 where
  reading : Reader
  failing : Exception → ℕ → Reader
  stopped : Reader

pub record Session : Type 0 where
  pub next_id : ℕ
  pub broken : Bool
  pub reader : Reader
  pub calls : List Call

-- `inflight_shard_count`
abbrev pub shard_count : ℕ
shard_count = 16

abbrev pub shard_for : ℕ → ℕ
shard_for id = id % shard_count

abbrev pub empty_slot : Slot
empty_slot = record { done = false; response = none; error = none }

-- `next_id.fetch_add(1)`
unfoldable pub fetch_id : Session → ℕ × Session
fetch_id s = (s.next_id, record s { next_id = (s.next_id + 1) % 2 ^ 32 })

abbrev pub find_call : ℕ → List Call → Option Call
find_call id [] = none
find_call id (c ∷ cs) = let later = find_call id cs in if c.request_id == id then some c else later

-- What a round of the loop comes to that gets a request id.
pub data Registration : Type 0 where
  again registered : Registration
  refused : Exception → Registration

abbrev pub unusable : Exception
unusable = error closed "session connection is no longer usable"

-- The round, after `fetch_id`. The test of `broken` is made under the mutex of the shard.
unfoldable pub try_register : ℕ → Session → Registration × Session
try_register id s =
    let added = record s {
      calls = record { request_id = id; stage = sending; slot = empty_slot } ∷ s.calls;
    } in
    if id == 0
    then (again, s)
    else if s.broken
    then (refused unusable, s)
    else elim (find_call id s.calls) [ none ↦ (registered, added) | some c ↦ (again, s) ]

abbrev pub break_session : Session → Session
break_session s = record s { broken = true }

abbrev pub update_call : ℕ → (Call → Call) → List Call → List Call
update_call id f [] = []
update_call id f (c ∷ cs) =
    let later = update_call id f cs in if c.request_id == id then f c ∷ cs else c ∷ later

abbrev pub erase_call : ℕ → List Call → List Call
erase_call id [] = []
erase_call id (c ∷ cs) =
    let later = erase_call id cs in if c.request_id == id then cs else c ∷ later

-- The frame is written, or the write threw. Then `broken` is set, and then the entry erased.
abbrev pub after_send : Bool → Stage
after_send written = if written then awaiting else send_failed

-- A round of the wait, where the caller sees whether it is cancelled and its deadline past.
abbrev pub wait_round : Bool → Bool → Slot → Stage
wait_round cancel expired slot =
    if slot.done
    then leaving false false
    else if cancel
    then cancelling
    else if expired
    then leaving false true
    else awaiting

-- The end of the wait after the cancellation is sent.
abbrev pub cancel_round : Bool → Slot → Stage
cancel_round expired slot =
    if slot.done then leaving true false else if expired then leaving true true else cancelling

abbrev pub next_stage : Bool → Bool → Bool → Slot → Stage → Stage
next_stage written cancel expired slot sending = after_send written
next_stage written cancel expired slot awaiting = wait_round cancel expired slot
next_stage written cancel expired slot cancelling = cancel_round expired slot
next_stage written cancel expired slot send_failed = send_failed
next_stage written cancel expired slot (leaving own late) = leaving own late

abbrev pub caller_round : Bool → Bool → Bool → Call → Call
caller_round written cancel expired c = record c {
  stage = next_stage written cancel expired c.slot c.stage;
}

unfoldable pub caller_moves : ℕ → Bool → Bool → Bool → Session → Session
caller_moves id written cancel expired s = record s {
  calls = update_call id (caller_round written cancel expired) s.calls;
}

-- `shard.erase(request_id)`
unfoldable pub leave : ℕ → Session → Session
leave id s = record s { calls = erase_call id s.calls }

-- What a caller returns or throws once it left.
unfoldable pub outcome : Bool → Bool → Slot → Result (Option Response)
outcome cancel timed_out slot =
    if timed_out
    then err (error timeout "request timed out")
    else if cancel
    then err (error cancelled "request cancelled")
    else elim slot.error [ none ↦ ok slot.response | some e ↦ err e ]

-- The checks of a response's header.
unfoldable pub response_header : ℕ → HeaderBytes → Result DecodedHeader
unfolding decode_header_as
response_header max_message_size h = do
  decoded ← decode_header_as h response
  checks (
      (ltb int_max decoded.arg1, error protocol "response status_code is out of range")
      ∷ (ltb max_message_size decoded.arg2, error too_large "response exceeds max_message_size")
      ∷ [])
  ok decoded

abbrev pub answered : Response → Call → Call
answered r c = record c { slot = record (c.slot) { done = true; response = some r } }

-- The `catch` block: `broken` is set before the first shard.
abbrev pub fail_reader : Exception → Session → Session
fail_reader e s = record s { broken = true; reader = failing e 0 }

abbrev pub duplicate : Exception
duplicate = error protocol "duplicate response request_id"

abbrev pub unexpected : Exception
unexpected = error protocol "unexpected response request_id"

-- The reader has a response.
unfoldable pub deliver : ℕ → Response → Session → Session
deliver id r s = elim (find_call id s.calls) [
  | none ↦ fail_reader unexpected s
  | some c ↦
      if c.slot.done
      then fail_reader duplicate s
      else record s { calls = update_call id (answered r) s.calls }
]

-- A slot of the shard that the `catch` block walks.
abbrev pub failed_in : ℕ → Exception → Call → Call
failed_in shard e c =
    if shard_for c.request_id == shard && not c.slot.done
    then record c { slot = record (c.slot) { done = true; error = some e } }
    else c

abbrev pub fail_all : ℕ → Exception → List Call → List Call
fail_all shard e [] = []
fail_all shard e (c ∷ cs) = failed_in shard e c ∷ fail_all shard e cs

unfoldable pub fail_shard : Exception → ℕ → Session → Session
fail_shard e shard s = record s {
  reader = if shard + 1 == shard_count then stopped else failing e (shard + 1);
  calls = fail_all shard e s.calls;
}

abbrev pub new_session : Session
new_session = record { next_id = 1; broken = false; reader = reading; calls = [] }
