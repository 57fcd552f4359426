-- ===== src/Parser/OneRequest.antt =====
-- One request of a client, in the rounds of the parser that read it.
use easy_uds.Prelude.{
  ℕ, ◌+◌, ◌-◌, ◌≡◌, ◌⊎◌, ◌<◌, suc, refl, sym, ◌∙◌, ap, arith, inl, inr, true, false, not, [], ◌++◌,
  ◌==◌, min, if◌then◌else◌, length, length-append, drop, Bool-cases, ok,
}
use easy_uds.Options.{ServerOptions}
use easy_uds.Deadlines.{deadline_from}
use easy_uds.Protocol.{header_size}
use easy_uds.Protocol.Lengths.{validate_request_lengths_iff}
use easy_uds.Output.{Bytes}
use easy_uds.Output.Stream.{append_assoc, append-nil, drop-drop}
use easy_uds.Frames.{
  Host, Parser, goes_on, milliseconds, start_clock, frame, frame_done, payload_started,
}
use easy_uds.Parser.{
  strict_budget, reserve_then, request_state, request_header, decoded_header, dispatch_request,
  dispatched, header_fill, payload_fill, header_filled, payload_filled, header_round, payload_round,
  parse,
}
use easy_uds.Parser.Buffers.{take-exact, drop-exact}
use easy_uds.Parser.Clients.{
  Sending, wire, IsSendable, said, decode_said, said_bytes, length-encode_header, IsOpen,
  between_frames, reserved,
}

module _ {W : Type 0} (host : Host W) (options : ServerOptions) (now version : ℕ) where
  abbrev admitted : ℕ → Parser W → Parser W
  admitted n s = record s {
    world = reserved host options now version n s.world;
    reserved_request_bytes = if strict_budget host options then n else s.reserved_request_bytes;
  }

  reserve_then-admitted :
      IsOpen host
      → (n : ℕ) (started : Parser W → Parser W) (s : Parser W)
      → reserve_then host options n started s ≡ goes_on (started (admitted n s))
  reserve_then-admitted opened n started s =
      elim (Bool-cases (not (options.max_total_inflight_bytes == 0))) [
        | inl strict ↦ rw (strict, opened.grants n s.world) refl
        | inr loose ↦ rw loose refl
      ]

  -- The state after the header, and after the payload.
  abbrev started : Sending → Parser W → Parser W
  started r s = payload_started (
      admitted (length r.route + length r.body) (
        request_state (said version r) (record (between_frames s) {
          arrival_time = now;
          deadline = deadline_from now (milliseconds options.request_timeout);
          wire_version = version;
        })))

  start_clock-first :
      (pending : Bytes) (deadline : ℕ)
      → 0 < length pending
      → start_clock options now pending (0, deadline)
        ≡ (now, deadline_from now (milliseconds options.request_timeout))
  unfolding start_clock
  start_clock-first pending deadline h =
      let some_bytes : (length pending == 0) ≡ false = ground arith in rw some_bytes refl

  request_header-started :
      IsOpen host
      → (r : Sending) (s : Parser W) → IsSendable options r
      → request_header host options (said version r) s
        ≡ goes_on (
            payload_started
              (admitted (length r.route + length r.body) (request_state (said version r) s)))
  unfolding request_header
  request_header-started opened r s w =
      let lengths =
        (validate_request_lengths_iff (length r.route) (length r.body) options.max_message_size).1
          (w.route_some, w.message_fits, w.route_fits, w.body_fits) in
      rw lengths (
        reserve_then-admitted opened (length r.route + length r.body) payload_started
          (request_state (said version r) s))

  decoded_header-started :
      IsOpen host
      → (r : Sending) (s : Parser W) → IsSendable options r
      → (s.wire_version ≡ 0) ⊎ (s.wire_version ≡ version)
      → decoded_header host options now s (ok (said version r))
        ≡ goes_on (
            payload_started (
              admitted
                (length r.route + length r.body)
                (request_state (said version r) (record s { wire_version = version }))))
  decoded_header-started opened r s w v =
      let t = record s { wire_version = version } in
      let same : (version == version) ≡ true = ground arith in
      let h = request_header-started opened r t w in
      elim v [
        | inl e ↦ let first : (s.wire_version == 0) ≡ true = ground arith in rw (first, same) h
        | inr e ↦ elim (Bool-cases (s.wire_version == 0)) [
          | inl first ↦ rw (first, same) h
          | inr later ↦
              let same' : (s.wire_version == version) ≡ true = ground arith in
              rw (later, same')
                (ap
                    (λ x.
                      request_header host options (said version r) (record s { wire_version = x }))
                    e
                  ∙ h)
        ]
      ]

  header_round-started :
      IsOpen host
      → (r : Sending) (s : Parser W) (later : Bytes) → IsSendable options r
      → (version ≡ 2) ⊎ (version ≡ 3)
      → (s.wire_version ≡ 0) ⊎ (s.wire_version ≡ version)
      → header_round host options now (said_bytes version r ++ later) (between_frames s)
        ≡ (goes_on (started r s), later)
  unfolding header_round header_fill header_filled
  header_round-started opened r s later w known v =
      let h = said_bytes version r in
      let sized = length-encode_header r.request_id (length r.route) (length r.body) version in
      let sum = length-append h later in
      let taken = take-exact header_size h later sized in
      let left = drop-exact header_size h later sized in
      let clock = start_clock-first (h ++ later) s.deadline (omega arith) in
      let whole : (length h == header_size) ≡ true = ground arith in
      rw (taken, left, clock, whole, decode_said options version r known w)
        (ap (λ x. (x, later))
          (decoded_header-started opened r
            (record (between_frames s) {
              arrival_time = now;
              deadline = deadline_from now (milliseconds options.request_timeout);
            })
            w v))

  -- After the dispatch.
  abbrev pub after_request : Sending → Parser W → Parser W
  after_request r s =
      frame_done
        (dispatch_request host options (record (started r s) {
          route_buffer = r.route;
          body_buffer = r.body;
          payload_received = 0 + (length r.route + length r.body);
        })).1

  dispatched-after :
      IsOpen host
      → (t : Parser W)
      → dispatched host options (dispatch_request host options t)
        ≡ goes_on (frame_done (dispatch_request host options t).1)
  unfolding dispatch_request
  dispatched-after opened t = rw (opened.never_pauses (frame t) t.world) refl

  payload_round-after :
      IsOpen host
      → (r : Sending) (s : Parser W) (later : Bytes)
      → payload_round host options (r.route ++ (r.body ++ later)) (started r s)
        ≡ (goes_on (after_request r s), later)
  unfolding payload_round payload_fill payload_filled dispatch_request
  payload_round-after opened r s later =
      let n = length r.route in
      let m = length r.body in
      let sum = length-append r.route (r.body ++ later) in
      let sum' = length-append r.body later in
      let all : min (length (r.route ++ (r.body ++ later))) (n + m - 0) ≡ n + m = omega arith in
      let part : min (n + m) (n - 0) ≡ n = omega arith in
      let body_part : n + m - n ≡ m = omega arith in
      let route = take-exact n r.route (r.body ++ later) refl in
      let after_route = drop-exact n r.route (r.body ++ later) refl in
      let body = take-exact m r.body later refl in
      let left =
        sym (drop-drop n m (r.route ++ (r.body ++ later)))
        ∙ ap (λ b. drop m b) after_route
        ∙ drop-exact m r.body later refl in
      let whole : (0 + (n + m) == n + m) ≡ true = ground arith in
      rw (all, part, body_part, route, after_route, body, left, whole)
        (ap (λ x. (x, later))
          (dispatched-after opened (record (started r s) {
            route_buffer = r.route;
            body_buffer = r.body;
            payload_received = 0 + (n + m);
          })))

  pub one_request :
      IsOpen host
      → (r : Sending) (s : Parser W) (later : Bytes) (fuel : ℕ) → IsSendable options r
      → (version ≡ 2) ⊎ (version ≡ 3)
      → (s.wire_version ≡ 0) ⊎ (s.wire_version ≡ version)
      → parse host options (suc (suc fuel)) now (wire version r ++ later) (between_frames s)
        ≡ parse host options fuel now later (between_frames (after_request r s))
  unfolding parse dispatch_request
  one_request opened r s later fuel w known v =
      let h = said_bytes version r in
      let flat =
        append_assoc h (r.route ++ (r.body ++ [])) later
        ∙ ap (λ b. h ++ b)
            (append_assoc r.route (r.body ++ []) later
              ∙ ap (λ b. r.route ++ (b ++ later)) (append-nil r.body)) in
      let first = header_round-started opened r s (r.route ++ (r.body ++ later)) w known v in
      let second = payload_round-after opened r s later in rw (flat, first, second) refl
