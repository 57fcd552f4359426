-- ===== src/Parser/Requests.antt =====
-- The requests of a client, in the parser of the server.
use easy_uds.Prelude.{
  ℕ, ◌-◌, ◌≡◌, ◌⊎◌, suc, refl, sym, ◌∙◌, ap, subst, arith, inr, List, [], ◌∷◌, ◌++◌, Option, none,
  some, length, length-append,
}
use easy_uds.Options.{ServerOptions}
use easy_uds.Output.{Bytes, gathered}
use easy_uds.Frames.{Host, Parser, goes_on, starved, stopped, throws, Round, start_clock}
use easy_uds.Parser.{
  dispatch_request, header_fill, header_filled, header_round, parse, parse_pending,
}
use easy_uds.Parser.OneRequest.{after_request, one_request}
use easy_uds.Parser.Clients.{
  Sending, wire, wire_all, IsSendable, AllSendable, said_bytes, length-encode_header, IsOpen,
  served, between_frames,
}
use easy_uds.Parser.Ends.{parse-fuel}
use easy_uds.Parser.Deliveries.{deliver, joined, SameEnd, RunEnds-IsEndRun, deliver-SameEnd}

module _ {W : Type 0} (host : Host W) (options : ServerOptions) (now version : ℕ) where
  next_request :
      IsOpen host
      → (r : Sending) (s : Parser W) (later : Bytes) → IsSendable options r
      → (version ≡ 2) ⊎ (version ≡ 3)
      → (s.wire_version ≡ 0) ⊎ (s.wire_version ≡ version)
      → parse_pending host options now (wire version r ++ later) (between_frames s)
        ≡ parse_pending host options now later
            (between_frames (after_request host options now version r s))
  unfolding parse_pending
  next_request opened r s later w known v =
      let sized = length-encode_header r.request_id (length r.route) (length r.body) version in
      let sum = length-append (wire version r) later in
      let sum' = length-append (said_bytes version r) (gathered (r.route ∷ r.body ∷ [])) in
      let n = length (wire version r ++ later) - 1 in
      let fuel : suc (length (wire version r ++ later)) ≡ suc (suc n) = omega arith in
      ap (λ k. parse host options k now (wire version r ++ later) (between_frames s)) fuel
      ∙ one_request host options now version opened r s later n w known v
      ∙ parse-fuel host options n (suc (length later)) now later
          (between_frames (after_request host options now version r s)) (omega arith) (omega arith)
          (record { header_part = omega arith; frame_part = tt })

  no_request :
      (s : Parser W)
      → parse_pending host options now [] (between_frames s) ≡ some (starved (between_frames s), [])
  unfolding parse_pending parse header_round header_fill header_filled start_clock
  no_request s = refl

  all_requests :
      IsOpen host
      → (rs : List Sending) (s : Parser W) → AllSendable options rs
      → (version ≡ 2) ⊎ (version ≡ 3)
      → (s.wire_version ≡ 0) ⊎ (s.wire_version ≡ version)
      → (t : Parser W) × (parse_pending host options now (wire_all version rs) (between_frames s)
          ≡ some (starved (between_frames t), []))
        × (t.world ≡ served host options now version rs s.world)
  unfolding dispatch_request
  all_requests opened [] s w known v = (s, no_request s, refl)
  all_requests opened (r ∷ rs) s w known v =
      let (t, e, same) =
        all_requests opened rs (after_request host options now version r s) w.1 known (inr refl) in
      (t, next_request opened r s (wire_all version rs) w.0 known v ∙ e, same)

  SameEnd-starved :
      (o : Option (Round W)) (t : Parser W)
      → SameEnd host options now o (some (starved t, []))
      → o ≡ some (starved t, [])
  SameEnd-starved none t h = absurd h
  SameEnd-starved (some (goes_on s, rest)) t h = absurd h
  SameEnd-starved (some (starved s, rest)) t h = sym h
  SameEnd-starved (some (stopped s, rest)) t (q, h) =
      absurd (RunEnds-IsEndRun host options now q (stopped s, rest) (some (starved t, [])) tt h)
  SameEnd-starved (some (throws e s, rest)) t (q, h) =
      absurd (RunEnds-IsEndRun host options now q (throws e s, rest) (some (starved t, [])) tt h)

  -- A parser between two frames reads what a client writes: if the bytes of any requests that fit the
  -- limits come in any deliveries, where the host grants each reservation and takes each request without
  -- an exception or a pause, then the
  -- parser hands over exactly these requests, in their order, each with its id, route and body, and
  -- is between two frames again with nothing left over.
  pub deliver-wire_all :
      IsOpen host
      → (rs : List Sending) (s : Parser W) (first : Bytes) (later : List Bytes)
      → AllSendable options rs
      → (version ≡ 2) ⊎ (version ≡ 3)
      → (s.wire_version ≡ 0) ⊎ (s.wire_version ≡ version)
      → joined host options now first later ≡ wire_all version rs
      → (t : Parser W) × (deliver host options now first later (between_frames s)
          ≡ some (starved (between_frames t), []))
        × (t.world ≡ served host options now version rs s.world)
  deliver-wire_all opened rs s first later w known v e =
      let (t, parsed, same) = all_requests opened rs s w known v in
      let ends =
        deliver-SameEnd host options now first later (between_frames s)
          (record { header_part = omega arith; frame_part = tt }) in
      (
        t,
        SameEnd-starved (deliver host options now first later (between_frames s)) (between_frames t)
            (subst
              (λ o.
                SameEnd host options now (deliver host options now first later (between_frames s))
                  o)
              (ap (λ b. parse_pending host options now b (between_frames s)) e ∙ parsed) ends),
        same,
      )
