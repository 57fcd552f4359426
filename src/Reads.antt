-- ===== src/Reads.antt =====
-- The blocking reads: `BufferedReader` of transport/io.hpp, and `StreamByteSource` of
-- reactor/stream_io.hpp. A socket is the list of what its next calls of `recv` come to; it hands out
-- no more than is asked for and keeps the rest, and a call whose list is used up still waits. No
-- bytes arrive where the peer closed. `clock` is the time when so many arrivals are left.
pub mod Receive
pub mod Buffered
pub mod Source
pub mod Whole
mod Tests
use easy_uds.Prelude.{
  ℕ, ◌+◌, ◌-◌, ◌*◌, zero, suc, Bool, true, false, List, [], ◌∷◌, ◌++◌, Option, none, some, ltb, leb,
  min, if◌then◌else◌, length, drop, take, Exception, error, timeout, closed, Result, ok, err,
}
use easy_uds.Deadlines.{check_absolute_deadline}
use easy_uds.Output.{Bytes, is_empty_body}

-- What a call of `recv` comes to: bytes, `EINTR`, a wait that returned, or an exception, of the wait
-- or of another error.
pub data Arrival : Type 0 where
  bytes_came : Bytes → Arrival
  call_interrupted wait_returned : Arrival
  call_failed : Exception → Arrival

-- How a read ends.
pub data Reading : Type 0 where
  complete stalled : Reading
  threw : Exception → Reading

abbrev pub receive_timed_out : Exception
receive_timed_out = error timeout "receive timed out"

abbrev pub peer_closed : Exception
peer_closed = error closed "peer closed connection"

pub record Received : Type 0 where
  pub reading : Reading
  pub bytes : Bytes
  pub rest : List Arrival

abbrev pub no_bytes : Reading → List Arrival → Received
no_bytes r script = record { reading = r; bytes = []; rest = script }

-- `check_absolute_deadline`, then the call.
abbrev pub on_time : Result (Unit {0}) → List Arrival → Received → Received
on_time (ok u) script r = r
on_time (err e) script r = no_bytes (threw e) script

-- One answer, where `again` is what the loop comes to after it.
abbrev pub arrival : ℕ → List Arrival → Received → Arrival → Received
arrival capacity script again (bytes_came bytes) =
    if is_empty_body bytes then no_bytes (threw peer_closed) script else record {
      reading = complete;
      bytes = take capacity bytes;
      rest =
          if leb (length bytes) capacity then script else bytes_came (drop capacity bytes) ∷ script;
    }
arrival capacity script again call_interrupted = again
arrival capacity script again wait_returned = again
arrival capacity script again (call_failed e) = no_bytes (threw e) script

-- `BufferedReader::receive`
unfoldable pub receive : (ℕ → ℕ) → ℕ → ℕ → List Arrival → Received
unfolding check_absolute_deadline
receive clock deadline capacity [] =
    on_time (check_absolute_deadline (clock 0) deadline receive_timed_out) [] (no_bytes stalled [])
receive clock deadline capacity (a ∷ script) =
    let again = receive clock deadline capacity script in
    on_time (check_absolute_deadline (clock (length (a ∷ script))) deadline receive_timed_out)
      (a ∷ script) (arrival capacity script again a)

-- What a read delivered, what it left in the buffer, and the arrivals that are left.
pub record Read : Type 0 where
  pub reading : Reading
  pub bytes : Bytes
  pub buffer : Bytes
  pub rest : List Arrival

abbrev pub after : Bytes → Option Read → Option Read
after bytes none = none
after bytes (some r) = some (record r { bytes = bytes ++ r.bytes })

-- A receive that did not deliver ends the read.
abbrev pub onward : Received → (Bytes → List Arrival → Option Read) → Option Read
onward r next = elim r.reading [
  | complete ↦ next r.bytes r.rest
  | other ↦ some (record { reading = other; bytes = []; buffer = []; rest = r.rest })
]

-- `read_direct`: each round brings a byte at least.
unfoldable pub read_direct : ℕ → (ℕ → ℕ) → ℕ → ℕ → List Arrival → Option Read
unfolding receive
read_direct fuel clock deadline zero script =
    some (record { reading = complete; bytes = []; buffer = []; rest = script })
read_direct zero clock deadline (suc size) script = none
read_direct (suc fuel) clock deadline (suc size) script =
    let further = λ (bytes : Bytes) (rest : List Arrival).
      read_direct fuel clock deadline (suc size - length bytes) rest in
    onward (receive clock deadline (suc size) script)
      (λ bytes rest. after bytes (further bytes rest))

abbrev pub read_ahead_capacity : ℕ
read_ahead_capacity = 4096

-- The loop of `BufferedReader::read`, for so many bytes that are missing.
unfoldable pub read_loop : ℕ → (ℕ → ℕ) → ℕ → ℕ → Bytes → List Arrival → Option Read
unfolding read_direct receive
read_loop fuel clock deadline zero buffer script =
    some (record { reading = complete; bytes = []; buffer = buffer; rest = script })
read_loop zero clock deadline (suc missing) buffer script = none
read_loop (suc fuel) clock deadline (suc missing) buffer script =
    let took = min (suc missing) (length buffer) in
    let further = read_loop fuel clock deadline (suc missing - took) (drop took buffer) script in
    let refilled = λ (bytes : Bytes) (rest : List Arrival).
      read_loop fuel clock deadline (suc missing) bytes rest in
    if ltb 0 (length buffer)
    then after (take took buffer) further
    else if leb read_ahead_capacity (suc missing)
    then read_direct (suc missing) clock deadline (suc missing) script
    else onward (receive clock deadline read_ahead_capacity script) refilled

-- A refill and a copy for each missing byte are enough.
unfoldable pub read : (ℕ → ℕ) → ℕ → ℕ → Bytes → List Arrival → Option Read
unfolding read_loop
read clock deadline size buffer script = read_loop (2 * size) clock deadline size buffer script

abbrev pub rebuffered : Bytes → Option Read → Option Read
rebuffered buffer none = none
rebuffered buffer (some r) = some (record r { buffer = buffer })

-- `StreamByteSource::read`: the bytes that the reactor had read, then the socket.
unfoldable pub read_source : (ℕ → ℕ) → ℕ → ℕ → Bytes → List Arrival → Option Read
unfolding read_direct
read_source clock deadline size buffered script =
    let took = min size (length buffered) in
    let further = read_direct (size - took) clock deadline (size - took) script in
    rebuffered (drop took buffered) (after (take took buffered) further)
