-- ===== src/Parser/Memory.antt =====
-- The memory that a connection's parser holds, and the bytes that it has reserved.
use easy_uds.Prelude.{
  ℕ, ◌+◌, ◌-◌, ◌≡◌, ◌⊎◌, ◌≤◌, ◌<◌, zero, suc, refl, subst, arith, inl, inr, Bool, true, false, not,
  [], ◌++◌, Option, none, some, ◌==◌, min, length, length-append, length-take, length-drop, drop,
  take, Bool-cases, Result, ok, err, checks, checks-pass,
}
use easy_uds.Options.{ServerOptions}
use easy_uds.Deadlines.{deadline_from_now}
use easy_uds.Protocol.{
  WireType, request, response, stream_request, stream_request_chunk, stream_request_end,
  stream_response, stream_response_chunk, stream_response_end, cancel_request, DecodedHeader,
  decode_header, header_size, validate_request_lengths,
}
use easy_uds.Protocol.Lengths.{validate_request_lengths_iff}
use easy_uds.Output.{Bytes}
use easy_uds.Frames.{
  ParsePhase, header, request_budget, request_payload, stream_budget, stream_route, Host, Parser,
  Verdict, goes_on, starved, stopped, throws, Round, milliseconds, checked, payload_started,
  route_started,
}
use easy_uds.Parser.{
  reserve_then, begin_request_payload, begin_stream_route, fd_checks, stream_checks, popped,
  request_state, stream_state, request_header, stream_header, by_type, decoded_header,
  dispatch_request, dispatched, stream_dispatched, stream_frame, header_need, payload_need,
  route_need, header_fill, payload_fill, stream_fill, header_filled, payload_filled, stream_filled,
  header_round, payload_round, stream_round, round_in, next_round, parse, parse_pending,
}
use easy_uds.Parser.Ready.{PhaseReady, IsReading, Progresses}
use easy_uds.Parser.Steps.{round_in-Progresses}

module _ {W : Type 0} (options : ServerOptions) where
  -- Under a strict budget so many bytes are reserved.
  abbrev pub Reserves : Parser W → ℕ → Type 0
  Reserves s n = ((options.max_total_inflight_bytes ≡ 0)) ⊎ (s.reserved_request_bytes ≡ n)

  -- Between frames nothing is reserved. In a frame all that its header announced is, which is within
  -- the limit, and the buffers hold no more.
  abbrev pub Holds : ParsePhase → Parser W → Type 0
  Holds header s = Reserves s 0
  Holds request_payload s =
      Reserves s s.payload_total
      × (length s.route_buffer + length s.body_buffer ≡ s.payload_received)
      × (s.payload_received ≤ s.payload_total)
      × (s.payload_total ≤ options.max_message_size)
  Holds stream_route s =
      Reserves s s.arg1 × (length s.route_buffer ≤ s.arg1) × (s.arg1 ≤ options.max_message_size)
  Holds _ s = Unit {0}

  abbrev Fits : Verdict W → Type 0
  Fits (goes_on s) = Holds s.phase s
  Fits (starved s) = Holds s.phase s
  Fits (stopped s) = Unit {0}
  Fits (throws e s) = Unit {0}

  checked-Fits :
      (r : Result (Unit {0})) (s : Parser W) (v : Verdict W)
      → ((r ≡ ok tt) → Fits v)
      → Fits (checked r s v)
  checked-Fits (ok u) s v h = h refl
  checked-Fits (err e) s v h = tt

module _ {W : Type 0} (host : Host W) (options : ServerOptions) where
  reserve_then-Fits :
      (n : ℕ) (started : Parser W → Parser W) (s : Parser W)
      → ((w : W) (k : ℕ)
          → (options.max_total_inflight_bytes ≡ 0) ⊎ (k ≡ n)
          → Fits options (goes_on (started (record s { world = w; reserved_request_bytes = k }))))
      → Fits options (reserve_then host options n started s)
  reserve_then-Fits n started s h =
      elim (Bool-cases (not (options.max_total_inflight_bytes == 0))) [
        | inl strict ↦ elim (Bool-cases ((host.try_reserve n s.world).0)) [
          | inl granted ↦ rw (strict, granted) (h (host.try_reserve n s.world).1 n (inr refl))
          | inr refused ↦ rw (strict, refused) tt
        ]
        | inr loose ↦ rw loose (
            h s.world s.reserved_request_bytes
              (inl (unlimited options.max_total_inflight_bytes loose)))
      ]
    where
      unlimited : (n : ℕ) → not (n == 0) ≡ false → n ≡ 0
      unlimited n h = ground arith

  by_type-Fits :
      (now : ℕ) (d : DecodedHeader) (type : WireType) (s : Parser W)
      → s.phase ≡ header
      → Reserves options s 0
      → Fits options (by_type host options now d type s)
  unfolding request_header stream_header
  by_type-Fits now d request s p h = checked-Fits options (checks (fd_checks d s)) s _ (λ a.
      checked-Fits options (validate_request_lengths d.arg1 d.arg2 options.max_message_size)
        (popped d s) (begin_request_payload host options (request_state d (popped d s)))
        (λ lengths.
          let fits =
            ((validate_request_lengths_iff d.arg1 d.arg2 options.max_message_size).0 lengths).1 in
          reserve_then-Fits (d.arg1 + d.arg2) payload_started (request_state d (popped d s))
            (λ w k r. (r, omega arith, omega arith, fits))))
  by_type-Fits now d stream_request s p h =
      checked-Fits options (checks (stream_checks options d)) s
        (begin_stream_route host options
          (stream_state d (deadline_from_now now (milliseconds options.stream_timeout)) s))
        (λ a.
          let pass = checks-pass (stream_checks options d) a in
          reserve_then-Fits d.arg1 route_started
            (stream_state d (deadline_from_now now (milliseconds options.stream_timeout)) s)
            (λ w k r. (r, omega arith, ground arith)))
  by_type-Fits now d cancel_request s p h = rw p h
  by_type-Fits now d response s p h = tt
  by_type-Fits now d stream_request_chunk s p h = tt
  by_type-Fits now d stream_request_end s p h = tt
  by_type-Fits now d stream_response s p h = tt
  by_type-Fits now d stream_response_chunk s p h = tt
  by_type-Fits now d stream_response_end s p h = tt

  decoded_header-Fits :
      (now : ℕ) (s : Parser W) (r : Result DecodedHeader)
      → s.phase ≡ header
      → Reserves options s 0
      → Fits options (decoded_header host options now s r)
  decoded_header-Fits now s (err e) p h = tt
  decoded_header-Fits now s (ok d) p h = elim (Bool-cases (s.wire_version == 0)) [
    | inl first ↦ rw first (elim (Bool-cases (not (d.version == d.version))) [
      | inl changed ↦ rw changed tt
      | inr same ↦ rw same (by_type-Fits now d d.type (record s { wire_version = d.version }) p h)
    ])
    | inr later ↦ rw later (elim (Bool-cases (not (s.wire_version == d.version))) [
      | inl changed ↦ rw changed tt
      | inr same ↦ rw same (by_type-Fits now d d.type s p h)
    ])
  ]

  dispatched-Fits :
      (b : Result Bool) (s : Parser W)
      → Reserves options s 0
      → Fits options (dispatched host options (b, s))
  dispatched-Fits (ok true) s h = tt
  dispatched-Fits (ok false) s h = h
  dispatched-Fits (err e) s h = tt

  header_round-Fits :
      (now : ℕ) (pending : Bytes) (s : Parser W)
      → s.phase ≡ header
      → Reserves options s 0
      → Fits options (header_round host options now pending s).0
  unfolding header_round header_fill header_filled
  header_round-Fits now pending s p h =
      let t = header_fill options now pending s in
      elim (Bool-cases
        (not (length (s.header_bytes ++ take (header_need s) pending) == header_size))) [
          | inl part ↦ rw part (rw p h)
          | inr whole ↦ rw whole (
              decoded_header-Fits now (record t { header_bytes = [] })
                (decode_header (s.header_bytes ++ take (header_need s) pending)) p h)
        ]

  payload_round-Fits :
      (pending : Bytes) (s : Parser W)
      → s.phase ≡ request_payload
      → Holds options request_payload s
      → Fits options (payload_round host options pending s).0
  unfolding payload_round payload_fill payload_filled dispatch_request
  payload_round-Fits pending s p (r, sum, within, limit) =
      let taken = min (length pending) (payload_need s) in
      let part = min taken (route_need s) in
      let d = dispatch_request host options (payload_fill pending s) in
      let a = length-append s.route_buffer (take part pending) in
      let b = length-append s.body_buffer (take (taken - part) (drop part pending)) in
      let c = length-take part pending in
      let e = length-take (taken - part) (drop part pending) in
      let f = length-drop part pending in
      elim (Bool-cases (s.payload_received + taken == s.payload_total)) [
        | inl whole ↦ rw whole (dispatched-Fits d.0 d.1 (inr refl))
        | inr more ↦ rw (more, p) (r, omega arith, omega arith, limit)
      ]

  stream_dispatched-Fits :
      (s : Parser W) (later : Bytes) (r : Result Bool × W)
      → Fits options (stream_dispatched s later r).0
  stream_dispatched-Fits s later (ok true, w) = tt
  stream_dispatched-Fits s later (ok false, w) = tt
  stream_dispatched-Fits s later (err e, w) = tt

  stream_round-Fits :
      (pending : Bytes) (s : Parser W)
      → s.phase ≡ stream_route
      → Holds options stream_route s
      → Fits options (stream_round host options pending s).0
  unfolding stream_round stream_fill stream_filled
  stream_round-Fits pending s p (r, within, limit) =
      let t = stream_fill pending s in
      let later = drop (route_need s) pending in
      let a = length-append s.route_buffer (take (route_need s) pending) in
      let b = length-take (route_need s) pending in
      elim (Bool-cases (not (length (s.route_buffer ++ take (route_need s) pending) == s.arg1))) [
        | inl part ↦ rw (part, p) (r, omega arith, limit)
        | inr whole ↦
            rw whole (
              stream_dispatched-Fits t later (host.hand_over_stream (stream_frame t later) s.world))
      ]

  round_in-Fits :
      (phase : ParsePhase) (now : ℕ) (pending : Bytes) (s : Parser W)
      → s.phase ≡ phase
      → IsReading s
      → Holds options phase s
      → Fits options (round_in host options phase now pending s).0
  round_in-Fits header now pending s p w h = header_round-Fits now pending s p h
  round_in-Fits request_payload now pending s p w h = payload_round-Fits pending s p h
  round_in-Fits stream_route now pending s p w h = stream_round-Fits pending s p h
  round_in-Fits request_budget now pending s p w h =
      absurd (subst (λ k. PhaseReady k s) p w.frame_part)
  round_in-Fits stream_budget now pending s p w h =
      absurd (subst (λ k. PhaseReady k s) p w.frame_part)

  -- What the loop leaves when it returns for want of bytes.
  abbrev pub LeavesHeld : Option (Round W) → Type 0
  LeavesHeld none = ⊥
  LeavesHeld (some (goes_on s, rest)) = ⊥
  LeavesHeld (some (starved s, rest)) = Holds options s.phase s
  LeavesHeld (some (stopped s, rest)) = Unit {0}
  LeavesHeld (some (throws e s, rest)) = Unit {0}

  next_round-LeavesHeld :
      (pending : Bytes) (r : Round W) (further : Bytes → Parser W → Option (Round W))
      → Progresses pending r.0 r.1
      → Fits options r.0
      → ((rest : Bytes) (next : Parser W)
          → length rest < length pending
          → IsReading next
          → Holds options next.phase next
          → LeavesHeld (further rest next))
      → LeavesHeld (next_round r further)
  next_round-LeavesHeld pending (goes_on s, rest) further p f k = k rest s p.1 p.0 f
  next_round-LeavesHeld pending (starved s, rest) further p f k = f
  next_round-LeavesHeld pending (stopped s, rest) further p f k = tt
  next_round-LeavesHeld pending (throws e s, rest) further p f k = tt

  parse-LeavesHeld :
      (fuel now : ℕ) (pending : Bytes) (s : Parser W)
      → length pending < fuel
      → IsReading s
      → Holds options s.phase s
      → LeavesHeld (parse host options fuel now pending s)
  unfolding parse
  parse-LeavesHeld zero now pending s h w k = absurd (omega arith)
  parse-LeavesHeld (suc fuel) now pending s h w k =
      next_round-LeavesHeld pending (round_in host options s.phase now pending s)
        (λ rest next. parse host options fuel now rest next)
        (round_in-Progresses host options s.phase now pending s refl w)
        (round_in-Fits s.phase now pending s refl w k)
        (λ rest next shorter r f. parse-LeavesHeld fuel now rest next (omega arith) r f)

  -- The parser holds no more than it announced: from a state that does so, whenever it returns for want
  -- of bytes it does so too. Between frames a strict budget has nothing reserved; inside a request all
  -- the bytes that its header announced are reserved, they are within `max_message_size`, and the
  -- buffers hold just as many bytes as were received; inside a stream's route its announced bytes are
  -- reserved and within the limit, and the buffer holds no more.
  pub parse_pending-LeavesHeld :
      (now : ℕ) (pending : Bytes) (s : Parser W)
      → IsReading s
      → Holds options s.phase s
      → LeavesHeld (parse_pending host options now pending s)
  unfolding parse_pending
  parse_pending-LeavesHeld now pending s w h =
      parse-LeavesHeld (suc (length pending)) now pending s (omega arith) w h
