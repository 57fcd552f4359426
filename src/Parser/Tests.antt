-- ===== src/Parser/Tests.antt =====
-- A parser whose host keeps a log of the frames: two requests in three deliveries, and headers that
-- are refused.
use easy_uds.Prelude.{
  ◌+◌, ◌≡◌, inl, inr, refl, arith, true, false, List, [], ◌∷◌, ◌++◌, none, some, drop, take, error,
  protocol, ok, err, Exception, runtime_error,
}
use easy_uds.Options.{ServerOptions, default_server_options}
use easy_uds.Deadlines.{max_time}
use easy_uds.Protocol.{encode_header}
use easy_uds.Output.{Bytes}
use easy_uds.Frames.{header, request_payload, Frame, Host, Parser, starved, throws}
use easy_uds.Parser.{parse_pending, header_round, payload_round, round_in}
use easy_uds.Parser.Socket.{Answer, gives, interrupted, read_loop}
use easy_uds.Parser.Ready.{IsReading}
use easy_uds.Parser.Ends.{Ended, parse_pending-Ended}
use easy_uds.Parser.Deliveries.{deliver, joined, SameEnd, deliver-SameEnd}
use easy_uds.Parser.Clients.{Sending, wire_all, IsOpen, served, between_frames}
use easy_uds.Parser.Requests.{deliver-wire_all}
use easy_uds.Parser.ReadAhead.{ReadsWithin, read_loop-ReadsWithin}
use easy_uds.Parser.Memory.{LeavesHeld, parse_pending-LeavesHeld}
use easy_uds.Parser.Refusals.{Throws, round_in-Throws}

abbrev logging : Host (List Frame)
logging = record {
  try_reserve = λ n w. (true, w);
  pause_reads = λ w. w;
  mark_io_progress = λ w. w;
  close = λ w. w;
  hand_over = λ f w. (ok false, w ++ (f ∷ []));
  hand_over_stream = λ f w. (ok true, w);
}

abbrev strict_options : ServerOptions
strict_options = record default_server_options { max_total_inflight_bytes = 5000 }

logging-IsOpen : IsOpen logging
logging-IsOpen = record { grants = λ n w. refl; never_pauses = λ f w. refl }

-- A new connection.
abbrev fresh : Parser (List Frame)
fresh = record {
  phase = header;
  header_bytes = [];
  route_buffer = [];
  body_buffer = [];
  payload_received = 0;
  payload_total = 0;
  request_id = 0;
  request_flags = 0;
  arg1 = 0;
  arg2 = 0;
  reserved_request_bytes = 0;
  arrival_time = 0;
  deadline = max_time;
  received_fds = [];
  received_fd = none;
  wire_version = 0;
  cancellations = [];
  world = [];
}

fresh-IsReading : IsReading fresh
fresh-IsReading = record { header_part = omega arith; frame_part = tt }

abbrev two_requests : List Sending
two_requests =
    record { request_id = 7; route = 1 ∷ 2 ∷ []; body = 3 ∷ [] }
    ∷ record { request_id = 8; route = 4 ∷ []; body = [] }
    ∷ []

abbrev bytes : Bytes
bytes = wire_all 3 two_requests

abbrev later_bytes : List Bytes
later_bytes = take 20 (drop 5 bytes) ∷ drop 25 bytes ∷ []

deliver-wire_all_example :
    (t : Parser (List Frame)) × (deliver logging default_server_options 50
        (take 5 bytes)
        later_bytes
        fresh
      ≡ some (starved (between_frames t), []))
    × (t.world ≡ served logging default_server_options 50 3 two_requests [])
unfolding encode_header
deliver-wire_all_example =
    deliver-wire_all logging default_server_options 50 3 logging-IsOpen two_requests fresh
      (take 5 bytes) later_bytes
      (
        record {
          route_some = omega arith;
          message_fits = omega arith;
          route_fits = omega arith;
          body_fits = omega arith;
          id_fits = omega arith;
        },
        (
          record {
            route_some = omega arith;
            message_fits = omega arith;
            route_fits = omega arith;
            body_fits = omega arith;
            id_fits = omega arith;
          },
          tt,
        ),
      )
      (inr refl) (inl refl) refl

deliver-SameEnd_example :
    SameEnd logging default_server_options 50
      (deliver logging default_server_options 50 (take 5 bytes) later_bytes fresh)
      (parse_pending logging default_server_options 50
        (joined logging default_server_options 50 (take 5 bytes) later_bytes)
        fresh)
deliver-SameEnd_example =
    deliver-SameEnd logging default_server_options 50 (take 5 bytes) later_bytes fresh
      fresh-IsReading

parse_pending-Ended_example :
    Ended logging default_server_options
      (parse_pending logging default_server_options 50 bytes fresh)
parse_pending-Ended_example =
    parse_pending-Ended logging default_server_options 50 bytes fresh fresh-IsReading

abbrev answers : List Answer
answers = gives 9 none ∷ interrupted ∷ gives 30 (some 4) ∷ []

read_loop-ReadsWithin_example :
    ReadsWithin true 0 [] bytes fresh (read_loop logging strict_options answers 0 [] bytes fresh)
read_loop-ReadsWithin_example =
    read_loop-ReadsWithin logging strict_options answers [] bytes fresh fresh-IsReading

-- Twenty bytes without the magic.
abbrev garbage : Bytes
garbage = 9 ∷ 9 ∷ 9 ∷ 9 ∷ 9 ∷ 9 ∷ 9 ∷ 9 ∷ 9 ∷ 9 ∷ 9 ∷ 9 ∷ 9 ∷ 9 ∷ 9 ∷ 9 ∷ 9 ∷ 9 ∷ 9 ∷ 9 ∷ []

abbrev after_garbage : Parser (List Frame)
after_garbage = record fresh { arrival_time = 50; deadline = 50 + 30_000_000_000 }

refused_garbage :
    round_in logging default_server_options header 50 garbage fresh
    ≡ (throws (error protocol "invalid protocol magic") after_garbage, [])
unfolding header_round
refused_garbage = refl

-- A host that throws when it takes a request, as where no memory is left for the job.
abbrev no_memory : Exception
no_memory = runtime_error "std::bad_alloc"

abbrev throwing : Host (List Frame)
throwing = record logging { hand_over = λ f w. (err no_memory, w ++ (f ∷ [])) }

-- One byte of a payload is still to come.
abbrev near_end : Parser (List Frame)
near_end = record fresh {
  phase = request_payload;
  route_buffer = 1 ∷ 2 ∷ [];
  payload_received = 2;
  payload_total = 3;
  request_id = 7;
  arg1 = 2;
  arg2 = 1;
  reserved_request_bytes = 3;
  arrival_time = 50;
  wire_version = 3;
}

abbrev after_throw : Parser (List Frame)
after_throw = record near_end {
  route_buffer = [];
  payload_received = 3;
  reserved_request_bytes = 0;
  cancellations = record { request_id = 7; flag = some false } ∷ [];
  world =
      record {
        request_id = 7;
        route = 1 ∷ 2 ∷ [];
        body = 3 ∷ [];
        received_fd = none;
        arrival_time = 50;
        deadline = max_time;
        wire_version = 3;
      }
      ∷ [];
}

thrown_payload :
    round_in throwing default_server_options request_payload 50 (3 ∷ []) near_end
    ≡ (throws no_memory after_throw, [])
unfolding payload_round
thrown_payload = refl

round_in-Throws_example :
    Throws throwing default_server_options request_payload (3 ∷ []) near_end no_memory after_throw
round_in-Throws_example =
    round_in-Throws throwing default_server_options 50 (3 ∷ []) [] near_end after_throw no_memory
      thrown_payload

parse_pending-LeavesHeld_example :
    LeavesHeld logging strict_options (parse_pending logging strict_options 50 bytes fresh)
parse_pending-LeavesHeld_example =
    parse_pending-LeavesHeld logging strict_options 50 bytes fresh fresh-IsReading (inr refl)
