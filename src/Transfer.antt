-- ===== src/Transfer.antt =====
-- The blocking writes of transport/io.hpp. A socket is the list of what its next calls come to; a
-- call whose list is used up still waits. `wait_for_io` is part of an answer: it returned, or it
-- threw. `clock` is the time when so many answers are left.
pub mod Write
pub mod Plain
pub mod Termination
mod Tests
use easy_uds.Prelude.{
  ℕ, ◌+◌, ◌-◌, zero, suc, Bool, true, false, not, ◌&&◌, List, [], ◌∷◌, ◌++◌, ◌==◌, ltb, leb, min,
  if◌then◌else◌, length, drop, take, Exception, error, timeout, closed, Result, ok, err,
}
use easy_uds.Protocol.{WireType, request, encode_header}
use easy_uds.Deadlines.{check_absolute_deadline}
use easy_uds.Output.{Bytes, is_empty_body, gathered}

-- What a call of `send` comes to: so many bytes, `EINTR`, a wait that returned, or an exception, of
-- the wait or of another error.
pub data Reply : Type 0 where
  moved : ℕ → Reply
  interrupted waited : Reply
  broken : Exception → Reply

pub data Status : Type 0 where
  done waiting : Status
  threw : Exception → Status

-- How a write ends, the bytes that the socket took, and how many of the sends that took some carried
-- the descriptor.
pub record Transfer : Type 0 where
  pub status : Status
  pub sent : Bytes
  pub descriptors : ℕ

abbrev pub stop : Status → Transfer
stop s = record { status = s; sent = []; descriptors = 0 }

abbrev pub after : Bytes → ℕ → Transfer → Transfer
after bytes descriptors t = record t {
  sent = bytes ++ t.sent;
  descriptors = descriptors + t.descriptors;
}

abbrev pub send_timed_out : Exception
send_timed_out = error timeout "send timed out"

abbrev pub broken_pipe_error : Exception
broken_pipe_error = error closed "send failed"

-- `check_absolute_deadline`, then the call.
abbrev pub in_time : Result (Unit {0}) → Transfer → Transfer
in_time (ok u) t = t
in_time (err e) t = stop (threw e)

-- The loop over the leading parts of no bytes.
unfoldable pub skip_empty : List Bytes → List Bytes
skip_empty [] = []
skip_empty (part ∷ parts) = if is_empty_body part then skip_empty parts else part ∷ parts

-- The parts that are left after some bytes.
unfoldable pub consume : ℕ → List Bytes → List Bytes
consume n [] = []
consume n (part ∷ parts) =
    let later = consume (n - length part) parts in
    if leb (length part) n then later else drop n part ∷ parts

abbrev pub no_parts : List Bytes → Bool
no_parts [] = true
no_parts (x ∷ xs) = false

-- What a round does with the answer: bytes go out and the loop goes further, or it goes on the same.
abbrev pub answered : Bytes → ℕ → (ℕ → Transfer) → Transfer → Reply → Transfer
answered left attach further same (moved zero) = stop (threw broken_pipe_error)
answered left attach further same (moved (suc n)) =
    after (take (suc n) left) attach (further (min (suc n) (length left)))
answered left attach further same interrupted = same
answered left attach further same waited = same
answered left attach further same (broken e) = stop (threw e)

-- `attach` counts a descriptor that the next send would carry.
unfoldable pub write_loop : (ℕ → ℕ) → ℕ → ℕ → List Reply → List Bytes → Transfer
unfolding skip_empty consume check_absolute_deadline
write_loop clock deadline attach [] parts =
    if no_parts (skip_empty parts)
    then stop done
    else in_time (check_absolute_deadline (clock 0) deadline send_timed_out) (stop waiting)
write_loop clock deadline attach (reply ∷ script) parts =
    let left = skip_empty parts in
    let same = write_loop clock deadline attach script left in
    let further = λ (n : ℕ). write_loop clock deadline 0 script (consume n left) in
    if no_parts left
    then stop done
    else in_time (check_absolute_deadline (clock (length (reply ∷ script))) deadline send_timed_out)
        (answered (gathered left) attach further same reply)

unfoldable pub write_iovecs_exact : (ℕ → ℕ) → ℕ → List Reply → List Bytes → Transfer
unfolding write_loop
write_iovecs_exact clock deadline script parts = write_loop clock deadline 0 script parts

unfoldable pub write_iovecs_exact_with_fd : (ℕ → ℕ) → ℕ → List Reply → List Bytes → Transfer
unfolding write_loop
write_iovecs_exact_with_fd clock deadline script parts = write_loop clock deadline 1 script parts

unfoldable pub write_exact : (ℕ → ℕ) → ℕ → List Reply → Bytes → Transfer
unfolding check_absolute_deadline
write_exact clock deadline [] bytes =
    if is_empty_body bytes
    then stop done
    else in_time (check_absolute_deadline (clock 0) deadline send_timed_out) (stop waiting)
write_exact clock deadline (reply ∷ script) bytes =
    let same = write_exact clock deadline script bytes in
    let further = λ (n : ℕ). write_exact clock deadline script (drop n bytes) in
    if is_empty_body bytes
    then stop done
    else in_time (check_absolute_deadline (clock (length (reply ∷ script))) deadline send_timed_out)
        (answered bytes 0 further same reply)

unfoldable pub write_frame_with_payload :
    (ℕ → ℕ) → ℕ → List Reply → WireType → ℕ → ℕ → ℕ → Bytes → ℕ → Transfer
unfolding write_iovecs_exact
write_frame_with_payload clock deadline script type request_id arg1 arg2 payload wire_version =
    write_iovecs_exact clock deadline script
      (encode_header type request_id arg1 arg2 0 wire_version ∷ payload ∷ [])

unfoldable pub write_header_frame : (ℕ → ℕ) → ℕ → List Reply → WireType → ℕ → ℕ → ℕ → ℕ → Transfer
unfolding write_exact
write_header_frame clock deadline script type request_id arg1 arg2 wire_version =
    write_exact clock deadline script (encode_header type request_id arg1 arg2 0 wire_version)

-- `client::write_request_frame` of transport/transport.hpp, and the parts that it writes.
abbrev pub request_parts : ℕ → Bytes → Bytes → ℕ → List Bytes
request_parts request_id route body wire_version =
    encode_header request request_id (length route) (length body) 0 wire_version ∷ route ∷ body ∷ []

unfoldable pub write_request_frame : (ℕ → ℕ) → ℕ → List Reply → ℕ → Bytes → Bytes → ℕ → Transfer
unfolding write_iovecs_exact
write_request_frame clock deadline script request_id route body wire_version =
    write_iovecs_exact clock deadline script (request_parts request_id route body wire_version)
