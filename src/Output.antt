-- ===== src/Output.antt =====
-- The output of a connection, reactor/output.cpp: the choice of the response, its first send, the
-- queue of frames that the socket did not take, and the flush of that queue. A socket is the list
-- of its answers to the next calls of `send`: it takes no more than it is handed, and where no
-- answer is left it would block. `clock` is the time when so many answers are left. `size_t` wraps
-- where the code subtracts. Waking the reactor and the readiness set are left out.
pub mod Calls
pub mod Stream
pub mod Flush
pub mod Account
pub mod Choice
mod Tests
use easy_uds.Prelude.{
  ℕ, ◌+◌, ◌-◌, ◌*◌, ◌^◌, ◌≡◌, zero, suc, Bool, true, false, not, ◌&&◌, ◌||◌, List, [], ◌∷◌, ◌++◌,
  Option, none, some, ◌==◌, ltb, leb, min, if◌then◌else◌, length, drop, take, Exception, error,
  timeout, runtime_error, Result, ok, err,
}
use easy_uds.Options.{ServerOptions, Count, pos, negsuc, is_negative}
use easy_uds.Protocol.{header_size, max_wire_field, version, response, encode_header}
use easy_uds.Deadlines.{max_time, inactivity_deadline, earlier_deadline, check_absolute_deadline}
use easy_uds.FlowControl.{size_modulus, fetch_add, fetch_sub}

abbrev pub Bytes : Type 0
Bytes = List ℕ

pub record OutgoingFrame : Type 0 where
  pub header : Bytes
  pub body : Bytes
  pub offset : ℕ
  pub deadline : ℕ

-- `wire` is what the socket took so far.
pub record Output : Type 0 where
  pub output_queue : List OutgoingFrame
  pub queued_output_bytes : ℕ
  pub total_queued_output_bytes : ℕ
  pub last_output_progress : ℕ
  pub closing : Bool
  pub wire : Bytes

-- An answer of `send`: so many bytes, `EINTR`, `EAGAIN` or `EWOULDBLOCK`, or another error.
pub data Answer : Type 0 where
  took : ℕ → Answer
  interrupted would_block failed : Answer

pub record Response : Type 0 where
  pub status : Count
  pub body : Bytes

abbrev pub max_flush_bytes : ℕ
max_flush_bytes = 256 * 1024

unfoldable pub reserve_global_output : ServerOptions → ℕ → ℕ → Bool × ℕ
reserve_global_output options bytes current =
    let limit = options.max_total_output_bytes in
    if limit == 0
    then (true, fetch_add current bytes)
    else if leb current limit && leb bytes (limit - current)
    then (true, fetch_add current bytes)
    else (false, current)

abbrev pub is_empty_body : Bytes → Bool
is_empty_body [] = true
is_empty_body (x ∷ xs) = false

unfoldable pub remaining_parts : OutgoingFrame → List Bytes
remaining_parts frame =
    if ltb frame.offset (length frame.header)
    then (if is_empty_body frame.body
        then drop frame.offset frame.header ∷ []
        else drop frame.offset frame.header ∷ frame.body ∷ [])
    else drop (frame.offset - length frame.header) frame.body ∷ []

abbrev pub gathered : List Bytes → Bytes
gathered [] = []
gathered (part ∷ parts) = part ++ gathered parts

-- The result of one `send` that was not interrupted, the answers that are left, and the bytes taken.
pub record Sent : Type 0 where
  pub answer : Answer
  pub rest : List Answer
  pub taken : Bytes

abbrev pub send_parts : List Answer → Bytes → Sent
send_parts [] bytes = record { answer = would_block; rest = []; taken = [] }
send_parts (interrupted ∷ script) bytes = send_parts script bytes
send_parts (took n ∷ script) bytes = record {
  answer = took (min n (length bytes));
  rest = script;
  taken = take n bytes;
}
send_parts (would_block ∷ script) bytes = record { answer = would_block; rest = script; taken = [] }
send_parts (failed ∷ script) bytes = record { answer = failed; rest = script; taken = [] }

unfoldable pub send_frame_once : List Answer → OutgoingFrame → Sent
unfolding remaining_parts
send_frame_once script frame = send_parts script (gathered (remaining_parts frame))

-- A status that is at least 0, as a header field.
abbrev pub status_field : Count → ℕ
status_field (pos n) = n
status_field (negsuc n) = 0

abbrev pub internal_error : Bytes
internal_error =
    b'I' ∷ b'n' ∷ b't' ∷ b'e' ∷ b'r' ∷ b'n' ∷ b'a' ∷ b'l' ∷ b' ' ∷ b'S' ∷ b'e' ∷ b'r' ∷ b'v' ∷ b'e'
    ∷ b'r' ∷ b' ' ∷ b'E' ∷ b'r' ∷ b'r' ∷ b'o' ∷ b'r' ∷ []

abbrev pub negative_status : Bytes
negative_status =
    b'r' ∷ b'e' ∷ b's' ∷ b'p' ∷ b'o' ∷ b'n' ∷ b's' ∷ b'e' ∷ b' ' ∷ b's' ∷ b't' ∷ b'a' ∷ b't' ∷ b'u'
    ∷ b's' ∷ b'_' ∷ b'c' ∷ b'o' ∷ b'd' ∷ b'e' ∷ b' ' ∷ b'm' ∷ b'u' ∷ b's' ∷ b't' ∷ b' ' ∷ b'n'
    ∷ b'o' ∷ b't' ∷ b' ' ∷ b'b' ∷ b'e' ∷ b' ' ∷ b'n' ∷ b'e' ∷ b'g' ∷ b'a' ∷ b't' ∷ b'i' ∷ b'v'
    ∷ b'e' ∷ []

abbrev pub too_large_body : Bytes
too_large_body =
    b'r' ∷ b'e' ∷ b's' ∷ b'p' ∷ b'o' ∷ b'n' ∷ b's' ∷ b'e' ∷ b' ' ∷ b'e' ∷ b'x' ∷ b'c' ∷ b'e' ∷ b'e'
    ∷ b'd' ∷ b's' ∷ b' ' ∷ b'm' ∷ b'a' ∷ b'x' ∷ b'_' ∷ b'm' ∷ b'e' ∷ b's' ∷ b's' ∷ b'a' ∷ b'g'
    ∷ b'e' ∷ b'_' ∷ b's' ∷ b'i' ∷ b'z' ∷ b'e' ∷ []

unfoldable pub bounded_error_body : Bytes → ℕ → Bytes
bounded_error_body message max_message_size =
    if leb (length message) max_message_size then message else []

unfoldable pub error_response : ServerOptions → Bytes → Response
unfolding bounded_error_body
error_response options message = record {
  status = pos 500;
  body = bounded_error_body message options.max_message_size;
}

-- The two tests at the head of `write_fixed_response`: the call that each makes has another
-- response. On fuel.
unfoldable pub resolve_response : ℕ → ServerOptions → Response → Option Response
unfolding error_response
resolve_response zero options r = none
resolve_response (suc fuel) options r =
    let for_negative = resolve_response fuel options (
      error_response options
        (if options.include_handler_error_messages then negative_status else internal_error)) in
    let for_large = resolve_response fuel options (
      error_response options
        (if options.include_handler_error_messages then too_large_body else internal_error)) in
    if is_negative r.status
    then for_negative
    else if ltb options.max_message_size (length r.body) || ltb max_wire_field (length r.body)
    then for_large
    else some r

abbrev pub frame_size : OutgoingFrame → ℕ
frame_size frame = length frame.header + length frame.body

abbrev pub queue_overflow : Exception
queue_overflow = runtime_error "connection output queue limit exceeded"

-- What a writer sees, the connection, and the answers that are left.
pub record Written : Type 0 where
  pub result : Result (Unit {0})
  pub output : Output
  pub rest : List Answer

-- What `close_connection` does to the output of a connection, which is `registered` where the map
-- of the server still holds it.
unfoldable pub close_output : Bool → Output → Output
close_output registered o =
    let queued = o.queued_output_bytes in
    let closed_output = record o {
      closing = true;
      output_queue = [];
      queued_output_bytes = 0;
      total_queued_output_bytes =
          if not (queued == 0)
          then fetch_sub o.total_queued_output_bytes queued
          else o.total_queued_output_bytes;
    } in
    if registered then closed_output else o

-- The part of the locked section after the first send, and the end of the call on an overflow.
unfoldable pub queue_frame :
    ServerOptions → Bool → ℕ → OutgoingFrame → Output → Result (Unit {0}) × Output
unfolding reserve_global_output close_output
queue_frame options registered now frame o =
    let remaining = frame_size frame - frame.offset in
    let limit = options.max_output_bytes_per_connection in
    let reserved = reserve_global_output options remaining o.total_queued_output_bytes in
    if leb remaining limit && leb o.queued_output_bytes (limit - remaining) && reserved.0
    then (
      ok tt,
      record o {
        output_queue = o.output_queue ++ frame ∷ [];
        queued_output_bytes = o.queued_output_bytes + remaining;
        total_queued_output_bytes = reserved.1;
        last_output_progress = if o.queued_output_bytes == 0 then now else o.last_output_progress;
      },
    )
    else (err queue_overflow, close_output registered (record o { closing = true }))

-- After a send that the socket answered, of a frame with an empty queue before it.
unfoldable pub after_send :
    ServerOptions → Bool → ℕ → Exception → OutgoingFrame → Output → Sent → Written
unfolding queue_frame
after_send options registered now send_failed frame o sent = elim sent.answer [
  | failed ↦ record {
    result = err send_failed;
    output = record o { closing = true };
    rest = sent.rest;
  }
  | took n ↦
      let moved = record frame { offset = if ltb 0 n then n else frame.offset } in
      let on_wire = record o {
        wire = o.wire ++ sent.taken;
        last_output_progress = if ltb 0 n then now else o.last_output_progress;
      } in
      let queued = queue_frame options registered now moved on_wire in
      if ltb 0 n && n == frame_size frame
      then record { result = ok tt; output = on_wire; rest = sent.rest }
      else record { result = queued.0; output = queued.1; rest = sent.rest }
  | other ↦
      let queued = queue_frame options registered now frame o in
      record { result = queued.0; output = queued.1; rest = sent.rest }
]

abbrev pub is_idle : List OutgoingFrame → Bool
is_idle [] = true
is_idle (x ∷ xs) = false

-- The locked section of `write_fixed_response`.
unfoldable pub write_frame :
    ServerOptions → Bool → ℕ → Exception → OutgoingFrame → Output → List Answer → Written
unfolding queue_frame after_send send_frame_once
write_frame options registered now send_failed frame o script =
    let queued = queue_frame options registered now frame o in
    if is_idle o.output_queue
    then after_send options registered now send_failed frame o (send_frame_once script frame)
    else record { result = queued.0; output = queued.1; rest = script }

unfoldable pub new_frame : ℕ → ℕ → ℕ → Response → OutgoingFrame
new_frame wire_version request_id deadline r = record {
  header =
      encode_header response request_id (status_field r.status) (length r.body) 0
        (if wire_version == 0 then version else wire_version);
  body = r.body;
  offset = 0;
  deadline = deadline;
}
