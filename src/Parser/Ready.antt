-- ===== src/Parser/Ready.antt =====
-- The state between two rounds of the parser, after each header and each dispatch.
use easy_uds.Prelude.{
  ℕ, ◌+◌, ◌≡◌, ◌<◌, refl, if◌then◌else◌, arith, inl, inr, Bool, true, false, not, [], ◌==◌, length,
  Bool-cases, Result, ok, err, checks, checks-pass,
}
use easy_uds.Options.{ServerOptions}
use easy_uds.Protocol.{
  DecodedHeader, WireType, request, stream_request, cancel_request, response, stream_request_chunk,
  stream_request_end, stream_response, stream_response_chunk, stream_response_end,
  validate_request_lengths, header_size, carries_fd,
}
use easy_uds.Protocol.Lengths.{validate_request_lengths_iff}
use easy_uds.Output.{Bytes}
use easy_uds.Deadlines.{deadline_from_now}
use easy_uds.Frames.{
  milliseconds, ParsePhase, header, request_payload, stream_route, Host, Parser, Verdict, goes_on,
  starved, stopped, throws, checked, payload_started, route_started, pop_fd,
}
use easy_uds.Parser.{
  fd_checks, popped, request_state, stream_checks, stream_state, begin_request_payload,
  begin_stream_route, reserve_then, request_header, stream_header, by_type, decoded_header,
  dispatched,
}

module _ {W : Type 0} where
  -- What is missing of the frame that is being read.
  abbrev pub PhaseReady : ParsePhase → Parser W → Type 0
  PhaseReady header s = Unit {0}
  PhaseReady request_payload s = s.payload_received < s.payload_total
  PhaseReady stream_route s = length s.route_buffer < s.arg1
  PhaseReady _ s = ⊥

  -- A state that a round starts in: the header is not whole, nor is the frame.
  pub record IsReading (s : Parser W) : Type 0 where
    pub header_part : length s.header_bytes < header_size
    pub frame_part : PhaseReady s.phase s

  -- A round that goes on used up a byte, and one that is out of bytes left none.
  abbrev pub Progresses : Bytes → Verdict W → Bytes → Type 0
  Progresses pending (goes_on next) rest = IsReading next × (length rest < length pending)
  Progresses pending (starved next) rest = IsReading next × (rest ≡ [])
  Progresses pending (stopped next) rest = Unit {0}
  Progresses pending (throws e next) rest = Unit {0}

  -- Not out of bytes, and ready for the next round.
  abbrev pub Ready : Verdict W → Type 0
  Ready (goes_on next) = IsReading next
  Ready (starved next) = ⊥
  Ready (stopped next) = Unit {0}
  Ready (throws e next) = Unit {0}

  pub Ready-Progresses :
      (pending rest : Bytes) (v : Verdict W)
      → length rest < length pending
      → Ready v
      → Progresses pending v rest
  Ready-Progresses pending rest (goes_on next) h r = (r, h)
  Ready-Progresses pending rest (starved next) h r = absurd r
  Ready-Progresses pending rest (stopped next) h r = tt
  Ready-Progresses pending rest (throws e next) h r = tt

  checked-Ready :
      (r : Result (Unit {0})) (s : Parser W) (v : Verdict W)
      → ((r ≡ ok tt) → Ready v)
      → Ready (checked r s v)
  checked-Ready (ok u) s v h = h refl
  checked-Ready (err e) s v h = tt

module _ {W : Type 0} (host : Host W) (options : ServerOptions) where
  reserve_then-Ready :
      (n : ℕ) (started : Parser W → Parser W) (s : Parser W)
      → ((w : W) (k : ℕ) → IsReading (started (record s { world = w; reserved_request_bytes = k })))
      → Ready (reserve_then host options n started s)
  reserve_then-Ready n started s h =
      elim (Bool-cases (not (options.max_total_inflight_bytes == 0))) [
        | inl strict ↦ elim (Bool-cases ((host.try_reserve n s.world).0)) [
          | inl granted ↦ rw (strict, granted) (h (host.try_reserve n s.world).1 n)
          | inr refused ↦ rw (strict, refused) tt
        ]
        | inr loose ↦ rw loose (h s.world s.reserved_request_bytes)
      ]

  request_header-Ready :
      (d : DecodedHeader) (s : Parser W)
      → length s.header_bytes < header_size
      → Ready (request_header host options d s)
  unfolding request_header
  request_header-Ready d s h = checked-Ready (checks (fd_checks d s)) s _ (λ a.
      checked-Ready (validate_request_lengths d.arg1 d.arg2 options.max_message_size) (popped d s)
        (begin_request_payload host options (request_state d (popped d s)))
        (λ lengths.
          let positive =
            ((validate_request_lengths_iff d.arg1 d.arg2 options.max_message_size).0 lengths).0 in
          reserve_then-Ready (d.arg1 + d.arg2) payload_started (request_state d (popped d s))
            (λ w k. record { header_part = short (carries_fd d.flags); frame_part = omega arith })))
    where
      short : (b : Bool) → length (if b then pop_fd s else s).header_bytes < header_size
      short true = h
      short false = h

  stream_header-Ready :
      (now : ℕ) (d : DecodedHeader) (s : Parser W)
      → length s.header_bytes < header_size
      → Ready (stream_header host options now d s)
  unfolding stream_header
  stream_header-Ready now d s h =
      checked-Ready (checks (stream_checks options d)) s
        (begin_stream_route host options
          (stream_state d (deadline_from_now now (milliseconds options.stream_timeout)) s))
        (λ a.
          let pass = checks-pass (stream_checks options d) a in
          reserve_then-Ready d.arg1 route_started
            (stream_state d (deadline_from_now now (milliseconds options.stream_timeout)) s)
            (λ w k. record { header_part = h; frame_part = ground arith }))

  by_type-Ready :
      (now : ℕ) (d : DecodedHeader) (type : WireType) (s : Parser W)
      → length s.header_bytes < header_size
      → s.phase ≡ header
      → Ready (by_type host options now d type s)
  by_type-Ready now d request s h p = request_header-Ready d s h
  by_type-Ready now d stream_request s h p = stream_header-Ready now d s h
  by_type-Ready now d cancel_request s h p = record { header_part = h; frame_part = rw p tt }
  by_type-Ready now d response s h p = tt
  by_type-Ready now d stream_request_chunk s h p = tt
  by_type-Ready now d stream_request_end s h p = tt
  by_type-Ready now d stream_response s h p = tt
  by_type-Ready now d stream_response_chunk s h p = tt
  by_type-Ready now d stream_response_end s h p = tt

  pub decoded_header-Ready :
      (now : ℕ) (s : Parser W) (r : Result DecodedHeader)
      → length s.header_bytes < header_size
      → s.phase ≡ header
      → Ready (decoded_header host options now s r)
  decoded_header-Ready now s (err e) h p = tt
  decoded_header-Ready now s (ok d) h p = elim (Bool-cases (s.wire_version == 0)) [
    | inl first ↦ rw first (elim (Bool-cases (not (d.version == d.version))) [
      | inl changed ↦ rw changed tt
      | inr same ↦ rw same (by_type-Ready now d d.type (record s { wire_version = d.version }) h p)
    ])
    | inr later ↦ rw later (elim (Bool-cases (not (s.wire_version == d.version))) [
      | inl changed ↦ rw changed tt
      | inr same ↦ rw same (by_type-Ready now d d.type s h p)
    ])
  ]

  pub dispatched-Ready :
      (b : Result Bool) (s : Parser W)
      → length s.header_bytes < header_size
      → Ready (dispatched host options (b, s))
  dispatched-Ready (ok true) s h = tt
  dispatched-Ready (ok false) s h = record { header_part = h; frame_part = tt }
  dispatched-Ready (err e) s h = tt
