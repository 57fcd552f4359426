-- ===== src/Parser/Chunks.antt =====
-- A round of the parser, on bytes that come in two parts.
use easy_uds.Prelude.{
  ℕ, ◌-◌, ◌≡◌, ◌⊎◌, ◌<◌, refl, sym, ◌∙◌, ap, subst, arith, inl, inr, Bool, true, false, [], ◌++◌,
  ◌==◌, leb, length, length-append, length-take, drop, take, min, Bool-cases, Result, ok, err,
}
use mathlib.Core.Path.{ap₂}
use easy_uds.Options.{ServerOptions}
use easy_uds.Protocol.{decode_header, header_size}
use easy_uds.Routes.{Route}
use easy_uds.Output.{Bytes}
use easy_uds.Output.Stream.{drop-append_lt, drop-append_ge}
use easy_uds.Frames.{
  ParsePhase, header, request_budget, request_payload, stream_budget, stream_route, Host, Parser,
  Verdict, goes_on, starved, stopped, throws, Round,
}
use easy_uds.Parser.{
  header_need, payload_need, route_need, header_fill, payload_fill, stream_fill, header_filled,
  payload_filled, stream_filled, stream_frame, stream_dispatched, dispatch_request, dispatched,
  header_round, payload_round, stream_round, round_in,
}
use easy_uds.Parser.Fill.{
  header_fill-again, header_fill-longer, payload_fill-longer, payload_fill-again,
}
use easy_uds.Parser.Buffers.{take-append_lt, take-again, drop-again}
use easy_uds.Parser.Ready.{Ready, decoded_header-Ready, dispatched-Ready, IsReading, PhaseReady}

-- What a round on more bytes comes to, beside the round without them.
module _ {W : Type 0} (host : Host W) (options : ServerOptions) (now : ℕ) (q : Bytes) where
  -- What the hand-over of a stream comes to, with its route in `t` and the bytes after it.
  abbrev pub handed_over : Parser W → Bytes → Round W
  handed_over t later =
      stream_dispatched t later (host.hand_over_stream (stream_frame t later) t.world)

  -- A round that ended the loop, and the same on more bytes: they are left over too, or both handed
  -- over the same stream from the same state, each with the bytes that it had.
  abbrev pub Ends : Round W → Round W → Type 0
  Ends x r =
      (r ≡ (x.0, x.1 ++ q))
      ⊎ ((t : Parser W) × (later : Bytes) × (t.phase ≡ stream_route)
          × (length t.route_buffer ≡ t.arg1)
          × (x ≡ handed_over t later)
          × (r ≡ handed_over t (later ++ q)))

  abbrev pub Extends : Round W → Round W → Type 0
  Extends (goes_on next, rest) r = r ≡ (goes_on next, rest ++ q)
  Extends (throws e next, rest) r = Ends (throws e next, rest) r
  Extends (starved next, rest) r = r ≡ round_in host options next.phase now q next
  Extends (stopped next, rest) r = Ends (stopped next, rest) r

  Ready-Extends : (v : Verdict W) (rest : Bytes) → Ready v → Extends (v, rest) (v, rest ++ q)
  Ready-Extends (goes_on next) rest r = refl
  Ready-Extends (throws e next) rest r = inl refl
  Ready-Extends (starved next) rest r = absurd r
  Ready-Extends (stopped next) rest r = inl refl

  header_filled-Extends :
      (t : Parser W) (later : Bytes) (r : Round W)
      → r ≡ header_filled host options now t (later ++ q)
      → length t.header_bytes ≡ header_size
      → t.phase ≡ header
      → Extends (header_filled host options now t later) r
  unfolding header_filled
  header_filled-Extends t later r e full ph =
      let whole : (length t.header_bytes == header_size) ≡ true = ground arith in
      rw (e, whole)
        (Ready-Extends _ later (
          decoded_header-Ready host options now (record t { header_bytes = [] })
            (decode_header t.header_bytes) (omega arith) ph))

  header_filled-starved :
      (t : Parser W) (later : Bytes) (r : Round W)
      → length t.header_bytes < header_size
      → r ≡ round_in host options t.phase now q t
      → Extends (header_filled host options now t later) r
  unfolding header_filled
  header_filled-starved t later r h e =
      let part : (length t.header_bytes == header_size) ≡ false = ground arith in rw part e

  header_round-Extends :
      (p : Bytes) (s : Parser W)
      → s.phase ≡ header
      → IsReading s
      → Extends (header_round host options now p s) (header_round host options now (p ++ q) s)
  unfolding header_round
  header_round-Extends p s ph w =
      let t = header_fill options now p s in
      let need = header_need s in
      let short = w.header_part in
      let sum = length-append s.header_bytes (take need p) in
      let sized = length-take need p in
      elim (Bool-cases (leb need (length p))) [
        | inl whole ↦
            header_filled-Extends t (drop need p) _
              (ap₂ (λ (x : Parser W) (b : Bytes). header_filled host options now x b)
                (header_fill-longer options now q p s (ground arith) (ground arith))
                (drop-append_lt need p q (ground arith)))
              (ground arith) ph
        | inr part ↦ header_filled-starved t (drop need p) _ (ground arith) (
            ap₂ (λ (x : Parser W) (b : Bytes). header_filled host options now x b)
              (header_fill-again options now q p s (ground arith))
              (drop-again header_size s.header_bytes p q (ground arith))
            ∙ ap (λ k. round_in host options k now q t) (sym ph))
      ]

  stream_dispatched-Extends :
      (t : Parser W) (later : Bytes) (a : Result Bool × W) (r : Round W)
      → Ends (stream_dispatched t later a) r
      → Extends (stream_dispatched t later a) r
  stream_dispatched-Extends t later (ok true, w) r h = h
  stream_dispatched-Extends t later (ok false, w) r h = h
  stream_dispatched-Extends t later (err e, w) r h = h

  stream_filled-Extends :
      (t : Parser W) (later : Bytes) (r : Round W)
      → t.phase ≡ stream_route
      → length t.route_buffer ≡ t.arg1
      → r ≡ stream_filled host options t (later ++ q)
      → Extends (stream_filled host options t later) r
  unfolding stream_filled
  stream_filled-Extends t later r ph full e =
      let whole : (length t.route_buffer == t.arg1) ≡ true = ground arith in
      rw (e, whole)
        (stream_dispatched-Extends t later (host.hand_over_stream (stream_frame t later) t.world)
          (handed_over t (later ++ q)) (inr (t, later, ph, full, refl, refl)))

  stream_filled-starved :
      (t : Parser W) (later : Bytes) (r : Round W)
      → length t.route_buffer < t.arg1
      → r ≡ round_in host options t.phase now q t
      → Extends (stream_filled host options t later) r
  unfolding stream_filled
  stream_filled-starved t later r short e =
      let part : (length t.route_buffer == t.arg1) ≡ false = ground arith in rw part e

  stream_round-Extends :
      (p : Bytes) (s : Parser W)
      → s.phase ≡ stream_route
      → IsReading s
      → Extends (stream_round host options p s) (stream_round host options (p ++ q) s)
  unfolding stream_round stream_fill
  stream_round-Extends p s ph w =
      let t = stream_fill p s in
      let need = route_need s in
      let short = subst (λ k. PhaseReady k s) ph w.frame_part in
      let sum = length-append s.route_buffer (take need p) in
      let sized = length-take need p in
      elim (Bool-cases (leb need (length p))) [
        | inl whole ↦ stream_filled-Extends t (drop need p) _ ph (ground arith) (
            ap₂
              (λ (x b : Bytes).
                stream_filled host options (record s { route_buffer = s.route_buffer ++ x }) b)
              (take-append_lt need p q (ground arith)) (drop-append_lt need p q (ground arith)))
        | inr part ↦ stream_filled-starved t (drop need p) _ (ground arith) (
            ap₂
              (λ (x : Route) (b : Bytes).
                stream_filled host options (record s { route_buffer = x }) b)
              (take-again s.arg1 s.route_buffer p q (ground arith))
              (drop-again s.arg1 s.route_buffer p q (ground arith))
            ∙ ap (λ k. round_in host options k now q t) (sym ph))
      ]

  payload_filled-Extends :
      (t : Parser W) (later : Bytes) (r : Round W)
      → t.payload_received ≡ t.payload_total
      → length t.header_bytes < header_size
      → r ≡ payload_filled host options t (later ++ q)
      → Extends (payload_filled host options t later) r
  unfolding payload_filled dispatch_request
  payload_filled-Extends t later r full h e =
      let whole : (t.payload_received == t.payload_total) ≡ true = ground arith in
      let d = dispatch_request host options t in
      rw (e, whole)
        (Ready-Extends (dispatched host options d) later (dispatched-Ready host options d.0 d.1 h))

  payload_filled-starved :
      (t : Parser W) (later : Bytes) (r : Round W)
      → t.payload_received < t.payload_total
      → r ≡ round_in host options t.phase now q t
      → Extends (payload_filled host options t later) r
  unfolding payload_filled
  payload_filled-starved t later r short e =
      let part : (t.payload_received == t.payload_total) ≡ false = ground arith in rw part e

  payload_round-Extends :
      (p : Bytes) (s : Parser W)
      → s.phase ≡ request_payload
      → IsReading s
      → Extends (payload_round host options p s) (payload_round host options (p ++ q) s)
  unfolding payload_round payload_fill
  payload_round-Extends p s ph w =
      let t = payload_fill p s in
      let need = payload_need s in
      let k = min (length p) need in
      let short = subst (λ k. PhaseReady k s) ph w.frame_part in
      let sum = length-append p q in
      let here : (min (length p) need ≡ need) ⊎ (length p < need) = omega arith in
      elim (Bool-cases (leb need (length p))) [
        | inl whole ↦
            let taken : min (length (p ++ q)) need ≡ k = ground arith in
            payload_filled-Extends t (drop k p) _ (ground arith) w.header_part (
              ap₂ (λ (x : Parser W) (b : Bytes). payload_filled host options x b)
                (payload_fill-longer options now q p s (ground arith))
                (ap (λ i. drop i (p ++ q)) taken ∙ drop-append_lt k p q (omega arith)))
        | inr part ↦
            let later : min (length (p ++ q)) need - length p ≡ min (length q) (payload_need t) =
              ground arith in
            payload_filled-starved t (drop k p) _ (ground arith) (
              ap₂ (λ (x : Parser W) (b : Bytes). payload_filled host options x b)
                (payload_fill-again options now q p s (ground arith))
                (drop-append_ge (min (length (p ++ q)) need) p q (ground arith)
                  ∙ ap (λ i. drop i q) later)
              ∙ ap (λ k. round_in host options k now q t) (sym ph))
      ]

  pub round_in-Extends :
      (phase : ParsePhase) (p : Bytes) (s : Parser W)
      → s.phase ≡ phase
      → IsReading s
      → Extends (round_in host options phase now p s) (round_in host options phase now (p ++ q) s)
  round_in-Extends header p s ph w = header_round-Extends p s ph w
  round_in-Extends request_payload p s ph w = payload_round-Extends p s ph w
  round_in-Extends stream_route p s ph w = stream_round-Extends p s ph w
  round_in-Extends request_budget p s ph w = absurd (subst (λ k. PhaseReady k s) ph w.frame_part)
  round_in-Extends stream_budget p s ph w = absurd (subst (λ k. PhaseReady k s) ph w.frame_part)
