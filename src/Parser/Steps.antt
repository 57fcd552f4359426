-- ===== src/Parser/Steps.antt =====
-- The bytes that a round of the parser uses up.
use easy_uds.Prelude.{
  Result, ok, err, ℕ, ◌+◌, ◌≡◌, subst, arith, inl, inr, Bool, true, false, [], ◌++◌, ◌==◌, length,
  length-append, length-take, length-drop, drop, take, min, Bool-cases,
}
use easy_uds.Options.{ServerOptions}
use easy_uds.Protocol.{decode_header, header_size}
use easy_uds.Output.{Bytes}
use easy_uds.Output.Stream.{drop-all}
use easy_uds.Frames.{
  ParsePhase, header, request_budget, request_payload, stream_budget, stream_route, Host, Parser,
}
use easy_uds.Parser.{
  header_need, payload_need, route_need, header_fill, payload_fill, stream_fill, header_filled,
  payload_filled, stream_filled, stream_frame, stream_dispatched, dispatch_request, header_round,
  payload_round, stream_round, round_in,
}
use easy_uds.Parser.Ready.{
  PhaseReady, IsReading, Progresses, Ready-Progresses, decoded_header-Ready, dispatched-Ready,
}

module _ {W : Type 0} (host : Host W) (options : ServerOptions) where
  header_round-Progresses :
      (now : ℕ) (pending : Bytes) (s : Parser W)
      → s.phase ≡ header
      → IsReading s
      → Progresses pending
          (header_round host options now pending s).0
          (header_round host options now pending s).1
  unfolding header_round header_fill header_filled
  header_round-Progresses now pending s p w =
      let need = header_need s in
      let t = header_fill options now pending s in
      let h = w.header_part in
      let a = length-append s.header_bytes (take need pending) in
      let b = length-take need pending in
      let c = length-drop need pending in
      elim (Bool-cases (length (s.header_bytes ++ take need pending) == header_size)) [
        | inl whole ↦ rw whole (
            Ready-Progresses pending (drop need pending) _ (ground arith) (
              decoded_header-Ready host options now (record t { header_bytes = [] })
                (decode_header t.header_bytes) (omega arith) p))
        | inr part ↦ rw part (
          record { header_part = ground arith; frame_part = rw p tt },
          drop-all need pending (ground arith),
        )
      ]

  payload_round-Progresses :
      (pending : Bytes) (s : Parser W)
      → s.phase ≡ request_payload
      → IsReading s
      → Progresses pending
          (payload_round host options pending s).0
          (payload_round host options pending s).1
  unfolding payload_round dispatch_request payload_fill payload_filled
  payload_round-Progresses pending s p w =
      let taken = min (length pending) (payload_need s) in
      let d = dispatch_request host options (payload_fill pending s) in
      let c = length-drop taken pending in
      let h = subst (λ ph. PhaseReady ph s) p w.frame_part in
      elim (Bool-cases (s.payload_received + taken == s.payload_total)) [
        | inl whole ↦ rw whole (
            Ready-Progresses pending (drop taken pending) _ (ground arith)
              (dispatched-Ready host options d.0 d.1 w.header_part))
        | inr part ↦ rw part (
          record { header_part = w.header_part; frame_part = rw p (ground arith) },
          drop-all taken pending (ground arith),
        )
      ]

  stream_dispatched-Progresses :
      (pending later : Bytes) (s : Parser W) (r : Result Bool × W)
      → Progresses pending (stream_dispatched s later r).0 (stream_dispatched s later r).1
  stream_dispatched-Progresses pending later s (ok true, w) = tt
  stream_dispatched-Progresses pending later s (ok false, w) = tt
  stream_dispatched-Progresses pending later s (err e, w) = tt

  stream_round-Progresses :
      (pending : Bytes) (s : Parser W)
      → s.phase ≡ stream_route
      → IsReading s
      → Progresses pending
          (stream_round host options pending s).0
          (stream_round host options pending s).1
  unfolding stream_round stream_fill stream_filled
  stream_round-Progresses pending s p w =
      let need = route_need s in
      let t = stream_fill pending s in
      let h = subst (λ ph. PhaseReady ph s) p w.frame_part in
      let a = length-append s.route_buffer (take need pending) in
      let b = length-take need pending in
      elim (Bool-cases (length (s.route_buffer ++ take need pending) == s.arg1)) [
        | inl whole ↦ rw whole (
            stream_dispatched-Progresses pending (drop need pending) t
              (host.hand_over_stream (stream_frame t (drop need pending)) s.world))
        | inr part ↦ rw part (
          record { header_part = w.header_part; frame_part = rw p (ground arith) },
          drop-all need pending (ground arith),
        )
      ]

  pub round_in-Progresses :
      (phase : ParsePhase) (now : ℕ) (pending : Bytes) (s : Parser W)
      → s.phase ≡ phase
      → IsReading s
      → Progresses pending
          (round_in host options phase now pending s).0
          (round_in host options phase now pending s).1
  round_in-Progresses header now pending s p w = header_round-Progresses now pending s p w
  round_in-Progresses request_payload now pending s p w = payload_round-Progresses pending s p w
  round_in-Progresses stream_route now pending s p w = stream_round-Progresses pending s p w
  round_in-Progresses request_budget now pending s p w =
      absurd (subst (λ ph. PhaseReady ph s) p w.frame_part)
  round_in-Progresses stream_budget now pending s p w =
      absurd (subst (λ ph. PhaseReady ph s) p w.frame_part)
