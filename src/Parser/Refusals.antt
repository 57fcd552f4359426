-- ===== src/Parser/Refusals.antt =====
-- The rounds of the parser that end with an exception: refused headers, and hand-overs that throw.
use easy_uds.Prelude.{
  ℕ, ◌≡◌, ◌≢◌, ◌≤◌, ◌<◌, ◌⊎◌, ◌&&◌, ◌+◌, sym, arith, leb, List, subst, [], refl, ap, inl, inr, Bool,
  true, false, not, ◌==◌, ◌++◌, if◌then◌else◌, length, drop, take, Bool-cases, Exception, Result,
  ok, err, checks,
}
use easy_uds.Options.{ServerOptions}
use easy_uds.Deadlines.{deadline_from_now}
use easy_uds.Protocol.{
  WireType, request, response, stream_request, stream_request_chunk, stream_request_end,
  stream_response, stream_response_chunk, stream_response_end, cancel_request, DecodedHeader,
  decode_header, header_size, cancellable_version, validate_request_lengths, carries_fd,
}
use easy_uds.Output.{Bytes}
use easy_uds.Frames.{
  ParsePhase, header, request_budget, request_payload, stream_budget, stream_route, Host, Parser,
  Verdict, throws, Round, milliseconds, checked, payload_started, route_started, pop_fd, frame,
  Cancellation, register_cancellation,
}
use easy_uds.Parser.{
  reserve_then, fd_checks, stream_checks, popped, request_state, stream_state, request_header,
  stream_header, by_type, decoded_header, dispatch_request, dispatched, stream_dispatched,
  stream_frame, header_need, route_need, header_fill, payload_fill, stream_fill, header_filled,
  payload_filled, stream_filled, header_round, payload_round, stream_round, round_in,
}

module _ {W : Type 0} where
  -- Nothing was handed over or reserved, and no cancellation set.
  abbrev pub Untouched : Parser W → Parser W → Type 0
  Untouched s t =
      (t.world ≡ s.world)
      × (t.cancellations ≡ s.cancellations)
      × (t.reserved_request_bytes ≡ s.reserved_request_bytes)

  -- What holds of the exception and the state, if there is one.
  abbrev OnThrow : (Exception → Parser W → Type 0) → Verdict W → Type 0
  OnThrow P (throws e t) = P e t
  OnThrow P _ = Unit {0}

  abbrev Refuses : Parser W → Verdict W → Type 0
  Refuses s v = OnThrow (λ e t. Untouched s t) v

  -- A request that can be cancelled is registered, and no other.
  abbrev pub Registers : Parser W → List Cancellation → Type 0
  Registers s cs =
      (((s.request_id ≡ 0) ⊎ (s.wire_version < cancellable_version)) × (cs ≡ s.cancellations))
      ⊎ ((s.request_id ≢ 0)
          × (cancellable_version ≤ s.wire_version)
          × (cs ≡ register_cancellation s.request_id s.cancellations))

  registered-Registers :
      (s : Parser W)
      → Registers s (
          if not (s.request_id == 0) && leb cancellable_version s.wire_version
          then register_cancellation s.request_id s.cancellations
          else s.cancellations)
  registered-Registers s =
      elim (Bool-cases (not (s.request_id == 0) && leb cancellable_version s.wire_version)) [
        | inl can ↦ rw can (inr (ground arith, ground arith, refl))
        | inr not_so ↦ rw not_so (inl (ground arith, refl))
      ]

  checked-Refuses :
      (r : Result (Unit {0})) (s t : Parser W) (v : Verdict W)
      → Untouched s t
      → Refuses s v
      → Refuses s (checked r t v)
  checked-Refuses (ok u) s t v h k = k
  checked-Refuses (err e) s t v h k = h

module _ {W : Type 0} (host : Host W) (options : ServerOptions) where
  reserve_then-Refuses :
      (n : ℕ) (started : Parser W → Parser W) (s t : Parser W)
      → Refuses s (reserve_then host options n started t)
  reserve_then-Refuses n started s t =
      elim (Bool-cases (not (options.max_total_inflight_bytes == 0))) [
        | inl strict ↦ elim (Bool-cases ((host.try_reserve n t.world).0)) [
          | inl granted ↦ rw (strict, granted) tt
          | inr refused ↦ rw (strict, refused) tt
        ]
        | inr loose ↦ rw loose tt
      ]

  popped-Untouched :
      (s t : Parser W) (b : Bool) → Untouched s t → Untouched s (if b then pop_fd t else t)
  popped-Untouched s t true h = h
  popped-Untouched s t false h = h

  by_type-Refuses :
      (now : ℕ) (d : DecodedHeader) (type : WireType) (s t : Parser W)
      → Untouched s t
      → Refuses s (by_type host options now d type t)
  unfolding request_header stream_header
  by_type-Refuses now d request s t h = checked-Refuses (checks (fd_checks d t)) s t _ h (
      checked-Refuses (validate_request_lengths d.arg1 d.arg2 options.max_message_size) s
        (popped d t) _ (popped-Untouched s t (carries_fd d.flags) h)
        (reserve_then-Refuses (d.arg1 + d.arg2) payload_started s (request_state d (popped d t))))
  by_type-Refuses now d stream_request s t h =
      checked-Refuses (checks (stream_checks options d)) s t _ h (
        reserve_then-Refuses d.arg1 route_started s
          (stream_state d (deadline_from_now now (milliseconds options.stream_timeout)) t))
  by_type-Refuses now d cancel_request s t h = tt
  by_type-Refuses now d response s t h = h
  by_type-Refuses now d stream_request_chunk s t h = h
  by_type-Refuses now d stream_request_end s t h = h
  by_type-Refuses now d stream_response s t h = h
  by_type-Refuses now d stream_response_chunk s t h = h
  by_type-Refuses now d stream_response_end s t h = h

  decoded_header-Refuses :
      (now : ℕ) (s t : Parser W) (r : Result DecodedHeader)
      → Untouched s t
      → Refuses s (decoded_header host options now t r)
  decoded_header-Refuses now s t (err e) h = h
  decoded_header-Refuses now s t (ok d) h = elim (Bool-cases (t.wire_version == 0)) [
    | inl first ↦ rw first (elim (Bool-cases (not (d.version == d.version))) [
      | inl changed ↦ rw changed h
      | inr same ↦
          rw same (by_type-Refuses now d d.type s (record t { wire_version = d.version }) h)
    ])
    | inr later ↦ rw later (elim (Bool-cases (not (t.wire_version == d.version))) [
      | inl changed ↦ rw changed h
      | inr same ↦ rw same (by_type-Refuses now d d.type s t h)
    ])
  ]

  -- What a round that threw did. In a header it only refused the frame. Else the frame was whole and
  -- the exception came from its hand-over.
  abbrev pub Throws : ParsePhase → Bytes → Parser W → Exception → Parser W → Type 0
  Throws header pending s e t = Untouched s t
  Throws request_payload pending s e t =
      let u = payload_fill pending s in
      (u.payload_received ≡ s.payload_total)
      × (host.hand_over (frame u) s.world ≡ (err e, t.world))
      × Registers s t.cancellations
      × (t.reserved_request_bytes ≡ 0)
  Throws _ pending s e t =
      let u = stream_fill pending s in
      (length u.route_buffer ≡ s.arg1)
      × (host.hand_over_stream (stream_frame u (drop (route_need s) pending)) s.world
          ≡ (err e, t.world))
      × (t.cancellations ≡ s.cancellations)
      × (t.reserved_request_bytes ≡ 0)

  payload-Throws :
      (pending : Bytes) (s : Parser W) (r : Result Bool × W) (cs : List Cancellation)
      → let u = payload_fill pending s in
        (u.payload_received ≡ s.payload_total)
        → r ≡ host.hand_over (frame (payload_fill pending s)) s.world
        → Registers s cs
        → OnThrow (Throws request_payload pending s) (
            dispatched host options (
              r.0,
              record (payload_fill pending s) {
                route_buffer = [];
                body_buffer = [];
                reserved_request_bytes = 0;
                cancellations = cs;
                world = r.1;
              },
            ))
  payload-Throws pending s (ok true, w) cs full e g = tt
  payload-Throws pending s (ok false, w) cs full e g = tt
  payload-Throws pending s (err x, w) cs full e g = (full, sym e, g, refl)

  stream-Throws :
      (pending : Bytes) (s : Parser W) (r : Result Bool × W)
      → length (stream_fill pending s).route_buffer ≡ s.arg1
      → r
        ≡ host.hand_over_stream
            (stream_frame (stream_fill pending s) (drop (route_need s) pending))
            s.world
      → OnThrow
          (Throws stream_route pending s)
          (stream_dispatched (stream_fill pending s) (drop (route_need s) pending) r).0
  unfolding stream_fill
  stream-Throws pending s (ok true, w) full e = tt
  stream-Throws pending s (ok false, w) full e = tt
  stream-Throws pending s (err x, w) full e = (full, sym e, refl, refl)

  stream_round-Throws :
      (pending : Bytes) (s : Parser W)
      → OnThrow (Throws stream_route pending s) (stream_round host options pending s).0
  unfolding stream_round stream_fill stream_filled
  stream_round-Throws pending s =
      let t = stream_fill pending s in
      let later = drop (route_need s) pending in
      elim (Bool-cases (length t.route_buffer == t.arg1)) [
        | inr part ↦ rw part tt
        | inl whole ↦ rw whole (
            stream-Throws pending s (host.hand_over_stream (stream_frame t later) s.world)
              (ground arith) refl)
      ]

  payload_round-Throws :
      (pending : Bytes) (s : Parser W)
      → OnThrow (Throws request_payload pending s) (payload_round host options pending s).0
  unfolding payload_round payload_fill payload_filled dispatch_request
  payload_round-Throws pending s =
      let t = payload_fill pending s in
      elim (Bool-cases (t.payload_received == t.payload_total)) [
        | inl whole ↦ rw whole (
            payload-Throws pending s (host.hand_over (frame t) s.world) _ (ground arith) refl
              (registered-Registers s))
        | inr part ↦ rw part tt
      ]

  round_in-OnThrow :
      (phase : ParsePhase) (now : ℕ) (pending : Bytes) (s : Parser W)
      → OnThrow (Throws phase pending s) (round_in host options phase now pending s).0
  unfolding header_round header_fill header_filled
  round_in-OnThrow header now pending s =
      let t = header_fill options now pending s in
      elim (Bool-cases
        (not (length (s.header_bytes ++ take (header_need s) pending) == header_size))) [
          | inl part ↦ rw part tt
          | inr whole ↦ rw whole (
              decoded_header-Refuses now s (record t { header_bytes = [] })
                (decode_header (s.header_bytes ++ take (header_need s) pending)) (refl, refl, refl))
        ]
  round_in-OnThrow request_payload now pending s = payload_round-Throws pending s
  round_in-OnThrow request_budget now pending s = stream_round-Throws pending s
  round_in-OnThrow stream_budget now pending s = stream_round-Throws pending s
  round_in-OnThrow stream_route now pending s = stream_round-Throws pending s

  -- A round that throws in a header has handed nothing over, reserved nothing and cancelled nothing.
  -- One that throws in a payload or in the route of a stream had the whole of it, and the exception
  -- is that of the hand-over of the frame, in the state that the hand-over left: nothing stays
  -- reserved for the connection's parser, and a fixed request that can be cancelled is registered.
  pub round_in-Throws :
      (now : ℕ) (pending rest : Bytes) (s t : Parser W) (e : Exception)
      → round_in host options s.phase now pending s ≡ (throws e t, rest)
      → Throws s.phase pending s e t
  round_in-Throws now pending rest s t e h =
      subst (λ (v : Verdict W). OnThrow (Throws s.phase pending s) v) (ap (λ (r : Round W). r.0) h)
        (round_in-OnThrow s.phase now pending s)
