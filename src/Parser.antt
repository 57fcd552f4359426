-- ===== src/Parser.antt =====
-- reactor/parser.cpp: the frames of one connection, as the reactor reads them, with the first
-- and the last steps of `dispatch_request` and `dispatch_stream` of reactor/dispatch.cpp. The code of
-- POSIX systems, without the branches for `_WIN32`. The bytes that were read ahead, from `pending_offset` on, stand beside the state.
pub mod Memory
pub mod Socket
pub mod ReadAhead
pub mod Ready
pub mod Steps
pub mod Ends
pub mod Buffers
pub mod Fill
pub mod Chunks
pub mod Refusals
pub mod Deliveries
pub mod Clients
pub mod OneRequest
pub mod Requests
mod Tests
use easy_uds.Prelude.{
  ℕ, ◌+◌, ◌-◌, ◌≡◌, Bool, true, false, not, ◌&&◌, ◌||◌, List, [], ◌∷◌, ◌++◌, Option, none, some,
  ◌==◌, ltb, leb, min, if◌then◌else◌, length, drop, take, zero, suc, Exception, error,
  runtime_error, Result, ok, err, checks, ◌>>=◌, ◌>>◌,
}
use easy_uds.Options.{Count, pos, negsuc, ServerOptions}
use easy_uds.Deadlines.{max_time, deadline_from, deadline_from_now}
use easy_uds.Protocol.{
  HeaderBytes, header_size, cancellable_version, WireType, request, response, stream_request,
  stream_request_chunk, stream_request_end, stream_response, stream_response_chunk,
  stream_response_end, cancel_request, DecodedHeader, decode_header, carries_fd,
  carries_windows_handle, validate_request_lengths,
}
use easy_uds.Output.{Bytes}
use easy_uds.Routes.{Route}
use easy_uds.Frames.{
  ParsePhase, Cancellation, Frame, StreamFrame, Host, Parser, Verdict, Round, milliseconds, cancel,
  register_cancellation, first_fd, has_none, protocol_changed, start_clock, checked, pop_fd,
  payload_started, route_started, frame_done, frame, header, request_budget, request_payload,
  stream_budget, stream_route, goes_on, starved, stopped, throws,
}

abbrev pub stream_checks : ServerOptions → DecodedHeader → List (Bool × Exception)
stream_checks options d =
    (carries_fd d.flags, runtime_error "fd flag is only supported on fixed requests")
    ∷ (
      d.arg1 == 0 || not (d.arg2 == 0) || ltb options.max_message_size d.arg1,
      runtime_error "invalid stream request header",
    )
    ∷ []

module _ {W : Type 0} where
  abbrev pub header_need : Parser W → ℕ
  header_need s = header_size - length s.header_bytes

  abbrev pub payload_need : Parser W → ℕ
  payload_need s = s.payload_total - s.payload_received

  abbrev pub route_need : Parser W → ℕ
  route_need s = s.arg1 - length s.route_buffer

  -- The copies. A list's `take` stops at its end, as the code's `std::min(available, need)` does.
  unfoldable pub header_fill : ServerOptions → ℕ → Bytes → Parser W → Parser W
  unfolding start_clock
  header_fill options now pending s =
      let clock = start_clock options now pending (s.arrival_time, s.deadline) in
      record s {
        header_bytes = s.header_bytes ++ take (header_need s) pending;
        arrival_time = clock.0;
        deadline = clock.1;
      }

  unfoldable pub payload_fill : Bytes → Parser W → Parser W
  payload_fill pending s =
      let taken = min (length pending) (payload_need s) in
      let route_part = min taken (route_need s) in
      record s {
        route_buffer = s.route_buffer ++ take route_part pending;
        body_buffer = s.body_buffer ++ take (taken - route_part) (drop route_part pending);
        payload_received = s.payload_received + taken;
      }

  unfoldable pub stream_fill : Bytes → Parser W → Parser W
  stream_fill pending s = record s { route_buffer = s.route_buffer ++ take (route_need s) pending }

  -- After `dispatch_stream`, which moves the route and the bytes if it takes the connection, and has
  -- moved them where it throws.
  abbrev pub stream_dispatched : Parser W → Bytes → Result Bool × W → Round W
  stream_dispatched s later (ok true, w) =
      (stopped (record s { route_buffer = []; reserved_request_bytes = 0; world = w }), [])
  stream_dispatched s later (ok false, w) = (stopped (record s { world = w }), later)
  stream_dispatched s later (err e, w) =
      (throws e (record s { route_buffer = []; reserved_request_bytes = 0; world = w }), [])

  abbrev pub stream_frame : Parser W → Bytes → StreamFrame
  stream_frame s later = record {
    request_id = s.request_id;
    route = s.route_buffer;
    arrival_time = s.arrival_time;
    deadline = s.deadline;
    leftover = later;
  }

  -- The loop goes round, or it ended.
  abbrev pub next_round : Round W → (Bytes → Parser W → Option (Round W)) → Option (Round W)
  next_round (goes_on next, rest) further = further rest next
  next_round (starved next, rest) further = some (starved next, rest)
  next_round (stopped next, rest) further = some (stopped next, rest)
  next_round (throws e next, rest) further = some (throws e next, rest)

  abbrev pub fd_checks : DecodedHeader → Parser W → List (Bool × Exception)
  fd_checks d s =
      (
        carries_windows_handle d.flags,
        runtime_error "Windows handle transfer is unavailable on this platform",
      )
      ∷ (
        carries_fd d.flags && has_none s.received_fds,
        runtime_error "fd frame without ancillary descriptor",
      )
      ∷ []

  abbrev pub popped : DecodedHeader → Parser W → Parser W
  popped d s = if carries_fd d.flags then pop_fd s else s

  abbrev pub request_state : DecodedHeader → Parser W → Parser W
  request_state d s = record s {
    request_id = d.request_id;
    request_flags = d.flags;
    arg1 = d.arg1;
    arg2 = d.arg2;
    payload_total = d.arg1 + d.arg2;
    payload_received = 0;
    phase = request_budget;
  }

  abbrev pub stream_state : DecodedHeader → ℕ → Parser W → Parser W
  stream_state d deadline s = record s {
    request_id = d.request_id;
    arg1 = d.arg1;
    arg2 = 0;
    phase = stream_budget;
    deadline = deadline;
  }

module _ {W : Type 0} (host : Host W) (options : ServerOptions) where
  abbrev pub strict_budget : Bool
  strict_budget = not (options.max_total_inflight_bytes == 0)

  -- A reservation that the strict budget asks for, and what starts then.
  abbrev pub reserve_then : ℕ → (Parser W → Parser W) → Parser W → Verdict W
  reserve_then request_bytes started s =
      let r = host.try_reserve request_bytes s.world in
      if strict_budget
      then if r.0
        then goes_on (started (record s { world = r.1; reserved_request_bytes = request_bytes }))
        else stopped (record s { world = host.pause_reads r.1 })
      else goes_on (started s)

  abbrev pub begin_request_payload : Parser W → Verdict W
  begin_request_payload s = reserve_then s.payload_total payload_started s

  abbrev pub begin_stream_route : Parser W → Verdict W
  begin_stream_route s = reserve_then s.arg1 route_started s

  -- The branch of `consume` for a request header.
  unfoldable pub request_header : DecodedHeader → Parser W → Verdict W
  unfolding validate_request_lengths
  request_header d s = checked (checks (fd_checks d s)) s (
      checked (validate_request_lengths d.arg1 d.arg2 options.max_message_size) (popped d s)
        (begin_request_payload (request_state d (popped d s))))

  unfoldable pub stream_header : ℕ → DecodedHeader → Parser W → Verdict W
  unfolding deadline_from_now
  stream_header now d s = checked (checks (stream_checks options d)) s (
      begin_stream_route
        (stream_state d (deadline_from_now now (milliseconds options.stream_timeout)) s))

  abbrev pub cancel_header : DecodedHeader → Parser W → Verdict W
  cancel_header d s = goes_on (record s {
    cancellations = cancel d.request_id s.cancellations;
    arrival_time = 0;
    deadline = max_time;
  })

  abbrev pub by_type : ℕ → DecodedHeader → WireType → Parser W → Verdict W
  by_type now d cancel_request s = cancel_header d s
  by_type now d request s = request_header d s
  by_type now d stream_request s = stream_header now d s
  by_type now d _ s = throws (runtime_error "unexpected protocol message type") s

  abbrev pub with_version : ℕ → Parser W → Parser W
  with_version version s = if s.wire_version == 0 then record s { wire_version = version } else s

  -- A whole header, once it is decoded.
  abbrev pub decoded_header : ℕ → Parser W → Result DecodedHeader → Verdict W
  decoded_header now s (err e) = throws e s
  decoded_header now s (ok d) =
      let observed = with_version d.version s in
      if not (observed.wire_version == d.version)
      then throws protocol_changed observed
      else by_type now d d.type observed

  -- `dispatch_request`, where `hand_over` is what follows the registration. Where that throws, the
  -- request was registered and the buffers moved already.
  unfoldable pub dispatch_request : Parser W → Result Bool × Parser W
  unfolding register_cancellation
  dispatch_request s =
      let r = host.hand_over (frame s) s.world in
      let registered =
        if not (s.request_id == 0) && leb cancellable_version s.wire_version
        then register_cancellation s.request_id s.cancellations
        else s.cancellations in
      (
        r.0,
        record s {
          route_buffer = [];
          body_buffer = [];
          reserved_request_bytes = 0;
          cancellations = registered;
          world = r.1;
        },
      )

  abbrev pub dispatched : Result Bool × Parser W → Verdict W
  dispatched (ok true, s) = stopped (frame_done s)
  dispatched (ok false, s) = goes_on (frame_done s)
  dispatched (err e, s) = throws e s

  -- What follows the copy of a header's bytes, of a payload's, and of a route's.
  unfoldable pub header_filled : ℕ → Parser W → Bytes → Round W
  unfolding decode_header
  header_filled now s later =
      if not (length s.header_bytes == header_size) then (starved s, later) else (
        decoded_header now (record s { header_bytes = [] }) (decode_header s.header_bytes),
        later,
      )

  unfoldable pub payload_filled : Parser W → Bytes → Round W
  unfolding dispatch_request
  payload_filled s later =
      if s.payload_received == s.payload_total
      then (dispatched (dispatch_request s), later)
      else (starved s, later)

  unfoldable pub stream_filled : Parser W → Bytes → Round W
  stream_filled s later =
      if not (length s.route_buffer == s.arg1)
      then (starved s, later)
      else stream_dispatched s later (host.hand_over_stream (stream_frame s later) s.world)

  unfoldable pub header_round : ℕ → Bytes → Parser W → Round W
  unfolding header_fill header_filled
  header_round now pending s =
      header_filled now (header_fill options now pending s) (drop (header_need s) pending)

  unfoldable pub payload_round : Bytes → Parser W → Round W
  unfolding payload_fill payload_filled
  payload_round pending s =
      payload_filled (payload_fill pending s) (drop (min (length pending) (payload_need s)) pending)

  unfoldable pub stream_round : Bytes → Parser W → Round W
  unfolding stream_fill stream_filled
  stream_round pending s = stream_filled (stream_fill pending s) (drop (route_need s) pending)

  abbrev pub round_in : ParsePhase → ℕ → Bytes → Parser W → Round W
  round_in header now pending s = header_round now pending s
  round_in request_payload now pending s = payload_round pending s
  round_in _ now pending s = stream_round pending s

  -- The second loop of `consume`, on fuel.
  unfoldable pub parse : ℕ → ℕ → Bytes → Parser W → Option (Round W)
  unfolding header_round payload_round stream_round
  parse zero now pending s = none
  parse (suc fuel) now pending s =
      next_round (round_in s.phase now pending s) (λ rest next. parse fuel now rest next)

  -- A round for each byte and one more are enough.
  unfoldable pub parse_pending : ℕ → Bytes → Parser W → Option (Round W)
  unfolding parse
  parse_pending now pending s = parse (suc (length pending)) now pending s
