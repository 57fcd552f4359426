-- ===== src/Frames.antt =====
-- What the parser of reactor/parser.cpp keeps of a connection (`ReactorConnection` of
-- reactor/core.hpp) and hands to dispatch, with the table of the cancellations of reactor/parser.cpp
-- and reactor/dispatch.cpp. What it calls of flow control and of dispatch is a `Host` over a state of
-- its own.
use easy_uds.Prelude.{
  ℕ, Bool, true, false, not, ◌&&◌, List, [], ◌∷◌, Option, none, some, ◌==◌, if◌then◌else◌, length,
  drop, Exception, runtime_error, Result, ok, err,
}
use easy_uds.Options.{Count, pos, negsuc, ServerOptions}
use easy_uds.Deadlines.{max_time, deadline_from}
use easy_uds.Protocol.{HeaderBytes}
use easy_uds.Output.{Bytes}
use easy_uds.Routes.{Route}

pub data ParsePhase : Type 0 where
  header request_budget request_payload stream_budget stream_route : ParsePhase

-- An entry of `cancellations`: the flag is gone where its job let go of it.
pub record Cancellation : Type 0 where
  pub request_id : ℕ
  pub flag : Option Bool

-- The operands of `dispatch_request` after the registration, and of `dispatch_stream`.
pub record Frame : Type 0 where
  pub request_id : ℕ
  pub route : Route
  pub body : Bytes
  pub received_fd : Option ℕ
  pub arrival_time : ℕ
  pub deadline : ℕ
  pub wire_version : ℕ

pub record StreamFrame : Type 0 where
  pub request_id : ℕ
  pub route : Route
  pub arrival_time : ℕ
  pub deadline : ℕ
  pub leftover : Bytes

-- `hand_over` says whether reads are paused now, `hand_over_stream` whether it took the connection;
-- each may throw instead.
pub record Host (W : Type 0) : Type 0 where
  pub try_reserve : ℕ → W → Bool × W
  pub pause_reads : W → W
  pub mark_io_progress : W → W
  pub close : W → W
  pub hand_over : Frame → W → Result Bool × W
  pub hand_over_stream : StreamFrame → W → Result Bool × W

-- `ReactorConnection`, as far as the parser uses it. `header_bytes` are the first `header_received`
-- bytes of `header`. Time 0 stands for `Clock::time_point{}`.
pub record Parser (W : Type 0) : Type 0 where
  pub phase : ParsePhase
  pub header_bytes : HeaderBytes
  pub route_buffer : Route
  pub body_buffer : Bytes
  pub payload_received : ℕ
  pub payload_total : ℕ
  pub request_id : ℕ
  pub request_flags : ℕ
  pub arg1 : ℕ
  pub arg2 : ℕ
  pub reserved_request_bytes : ℕ
  pub arrival_time : ℕ
  pub deadline : ℕ
  pub received_fds : List ℕ
  pub received_fd : Option ℕ
  pub wire_version : ℕ
  pub cancellations : List Cancellation
  pub world : W

-- What a round of the loop comes to: the next round, a return for want of bytes, another return, or
-- an exception.
pub data Verdict (W : Type 0) : Type 0 where
  goes_on starved stopped : Parser W → Verdict W
  throws : Exception → Parser W → Verdict W

-- A round, and the bytes that it left.
abbrev pub Round : Type 0 → Type 0
Round W = Verdict W × Bytes

abbrev pub milliseconds : Count → ℕ
milliseconds (pos n) = n
milliseconds (negsuc n) = 0

-- The flag of the request is set; an entry whose flag is gone is erased.
unfoldable pub cancel : ℕ → List Cancellation → List Cancellation
cancel id [] = []
cancel id (c ∷ cs) =
    let later = cancel id cs in
    let found : List Cancellation = elim c.flag [
      | none ↦ cs
      | some b ↦ record c { flag = some true } ∷ cs
    ] in
    if c.request_id == id then found else c ∷ later

-- The entries without a flag go, and the request gets a new one.
unfoldable pub register_cancellation : ℕ → List Cancellation → List Cancellation
register_cancellation id [] = record { request_id = id; flag = some false } ∷ []
register_cancellation id (c ∷ cs) =
    let later = register_cancellation id cs in
    elim c.flag [ none ↦ later | some b ↦ if c.request_id == id then later else c ∷ later ]

abbrev pub first_fd : List ℕ → Option ℕ
first_fd [] = none
first_fd (fd ∷ fds) = some fd

abbrev pub has_none : List ℕ → Bool
has_none [] = true
has_none (fd ∷ fds) = false

abbrev pub protocol_changed : Exception
protocol_changed = runtime_error "protocol version changed on connection"

-- The arrival time and the deadline of the frame: its first bytes start them.
unfoldable pub start_clock : ServerOptions → ℕ → Bytes → ℕ × ℕ → ℕ × ℕ
unfolding deadline_from
start_clock options now pending (arrival_time, deadline) =
    if not (length pending == 0) && arrival_time == 0
    then (now, deadline_from now (milliseconds options.request_timeout))
    else (arrival_time, deadline)

module _ {W : Type 0} where
  -- A test that throws, in the state that it was made in.
  abbrev pub checked : Result (Unit {0}) → Parser W → Verdict W → Verdict W
  checked (ok u) s next = next
  checked (err e) s next = throws e s

  abbrev pub pop_fd : Parser W → Parser W
  pop_fd s = record s {
    received_fd = first_fd s.received_fds;
    received_fds = drop 1 s.received_fds;
  }

  abbrev pub payload_started : Parser W → Parser W
  payload_started s = record s { route_buffer = []; body_buffer = []; phase = request_payload }

  abbrev pub route_started : Parser W → Parser W
  route_started s = record s { route_buffer = []; phase = stream_route }

  -- After a dispatch.
  abbrev pub frame_done : Parser W → Parser W
  frame_done s = record s {
    received_fd = none;
    request_flags = 0;
    phase = header;
    arrival_time = 0;
    deadline = max_time;
  }

  abbrev pub frame : Parser W → Frame
  frame s = record {
    request_id = s.request_id;
    route = s.route_buffer;
    body = s.body_buffer;
    received_fd = s.received_fd;
    arrival_time = s.arrival_time;
    deadline = s.deadline;
    wire_version = s.wire_version;
  }
