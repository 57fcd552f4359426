-- ===== src/Streams/Limit.antt =====
-- The size of a stream.
use easy_uds.Prelude.{
  ℕ, ◌+◌, ◌≡◌, ◌⊎◌, ◌≤◌, ◌<◌, refl, sym, ◌∙◌, subst, arith, inl, inr, true, List, [], ◌∷◌, ◌==◌,
  min, length, Bool-cases, Result, ok, err, checks, ◌>>=◌, checks-pass, pass-checks,
  checks->>-eq-ok, >>=-eq-ok,
}
use easy_uds.FlowControl.{size_modulus}
use easy_uds.Protocol.{header_size, DecodedHeader, decode_header, stream_request_end}
use easy_uds.Output.{Bytes}
use easy_uds.Streams.{
  ByteSource, IncomingStream, opened, is_type, end_checks, chunk_checks, chunk_begun, frame_begun,
  StreamRead, gave, payload_read, read_payload, after_frame, after_header, read_stream,
}

-- What was handed out and what is left of the frame make up the size so far, which is within the
-- limit and does not wrap.
pub record IsWithin (handed : ℕ) (s : IncomingStream) : Type 0 where
  pub accounted : handed + s.frame_remaining ≡ s.total_size
  pub limited : (s.max_size ≡ 0) ⊎ (s.total_size ≤ s.max_size)
  pub total_fits : s.total_size < size_modulus

abbrev pub given : Result Bytes → ℕ
given (ok bytes) = length bytes
given (err e) = 0

chunk_begun-IsWithin :
    (handed : ℕ) (d : DecodedHeader) (s : IncomingStream)
    → checks (chunk_checks d s) ≡ ok tt
    → s.frame_remaining ≡ 0
    → IsWithin handed s
    → IsWithin handed (chunk_begun d s)
chunk_begun-IsWithin handed d s pass empty h =
    let p = checks-pass (chunk_checks d s) pass in
    let whole = h.accounted in
    let fits = h.total_fits in
    record {
      accounted = omega arith;
      limited = elim (Bool-cases (s.max_size == 0)) [
        | inl unlimited ↦ inl (ground arith)
        | inr limited ↦ inr (let lim = h.limited in ground arith)
      ];
      total_fits = ground arith;
    }

frame_begun-IsWithin :
    (handed : ℕ) (d : DecodedHeader) (s t : IncomingStream)
    → frame_begun s d ≡ ok t
    → s.frame_remaining ≡ 0
    → IsWithin handed s
    → IsWithin handed t × (t.max_size ≡ s.max_size)
frame_begun-IsWithin handed d s t e empty h = elim (Bool-cases (is_type d stream_request_end)) [
  | inl last ↦
      let (p, same) = checks->>-eq-ok (end_checks d s) (record s { ended = true }) (rw last at e) in
      subst (λ x. IsWithin handed x × (x.max_size ≡ s.max_size)) same
        (record { accounted = h.accounted; limited = h.limited; total_fits = h.total_fits }, refl)
  | inr chunk ↦
      let (p, same) = checks->>-eq-ok (chunk_checks d s) (chunk_begun d s) (rw chunk at e) in
      subst (λ x. IsWithin handed x × (x.max_size ≡ s.max_size)) same
        (chunk_begun-IsWithin handed d s (pass-checks (chunk_checks d s) p) empty h, refl)
]

module _ {S : Type 0} (source : ByteSource S) where
  abbrev HandsWithin : ℕ → IncomingStream → StreamRead S → Type 0
  HandsWithin handed s r =
      IsWithin (handed + given r.answer) r.stream × (r.stream.max_size ≡ s.max_size)

  payload_read-IsWithin :
      (handed size : ℕ) (s : IncomingStream) (r : Result Bytes × S)
      → ((bytes : Bytes) → r.0 ≡ ok bytes → length bytes ≡ size)
      → size ≤ s.frame_remaining
      → IsWithin handed s
      → HandsWithin handed s (payload_read source s size r)
  payload_read-IsWithin handed size s (ok bytes, src) exact le h =
      let n = exact bytes refl in
      let whole = h.accounted in
      (record { accounted = omega arith; limited = h.limited; total_fits = h.total_fits }, refl)
  payload_read-IsWithin handed size s (err e, src) exact le h =
      let whole = h.accounted in
      (record { accounted = omega arith; limited = h.limited; total_fits = h.total_fits }, refl)

  gave-IsWithin :
      (handed : ℕ) (s : IncomingStream) (src : S) (r : Result Bytes)
      → given r ≡ 0
      → IsWithin handed s
      → HandsWithin handed s (gave source s src r)
  gave-IsWithin handed s src r e h =
      let whole = h.accounted in
      (record { accounted = omega arith; limited = h.limited; total_fits = h.total_fits }, refl)

  read_payload-IsWithin :
      (handed capacity : ℕ) (s : IncomingStream) (src : S)
      → IsWithin handed s
      → HandsWithin handed s (read_payload source capacity s src)
  read_payload-IsWithin handed capacity s src h =
      let size = min capacity s.frame_remaining in
      payload_read-IsWithin handed size s (source.read size src)
        (λ bytes e. source.read-exact size src bytes e) (omega arith) h

  after_frame-IsWithin :
      (handed capacity : ℕ) (s : IncomingStream) (src : S) (r : Result IncomingStream)
      → ((t : IncomingStream) → r ≡ ok t → IsWithin handed t × (t.max_size ≡ s.max_size))
      → IsWithin handed s
      → HandsWithin handed s (after_frame source capacity s src r)
  after_frame-IsWithin handed capacity s src (err e) k h = gave-IsWithin handed s src (err e) refl h
  after_frame-IsWithin handed capacity s src (ok t) k h =
      let (w, same) = k t refl in
      let moved : (x : StreamRead S) → HandsWithin handed t x → HandsWithin handed s x =
        λ x y. (y.0, y.1 ∙ same) in
      elim (Bool-cases t.ended) [
        | inl last ↦
            simp last
              (moved (gave source t src (ok [])) (gave-IsWithin handed t src (ok []) refl w))
        | inr more ↦ simp more (
            moved (read_payload source capacity t src)
              (read_payload-IsWithin handed capacity t src w))
      ]

  after_header-IsWithin :
      (handed capacity : ℕ) (s : IncomingStream) (r : Result Bytes × S)
      → s.frame_remaining ≡ 0
      → IsWithin handed s
      → HandsWithin handed s (after_header source capacity s r)
  after_header-IsWithin handed capacity s (err e, src) empty h =
      gave-IsWithin handed s src (err e) refl h
  after_header-IsWithin handed capacity s (ok b, src) empty h =
      after_frame-IsWithin handed capacity s src (decode_header b >>= frame_begun s)
        (λ t e.
          let (d, decoded, begun) = >>=-eq-ok (decode_header b) (frame_begun s) e in
          frame_begun-IsWithin handed d s t begun empty h)
        h

  read_stream-IsWithin :
      (handed capacity : ℕ) (s : IncomingStream) (src : S)
      → IsWithin handed s
      → HandsWithin handed s (read_stream source capacity s src)
  unfolding read_stream
  read_stream-IsWithin handed capacity s src h = elim (Bool-cases s.ended) [
    | inl last ↦ simp last (gave-IsWithin handed s src (ok []) refl h)
    | inr more ↦ elim (Bool-cases (s.frame_remaining == 0)) [
      | inl empty ↦
          simp (more, empty)
            (after_header-IsWithin handed capacity s (source.read header_size src) (ground arith) h)
      | inr inside ↦ simp (more, inside) (read_payload-IsWithin handed capacity s src h)
    ]
  ]

  -- All the bytes that some reads hand out, one after the other.
  abbrev pub read_all : List ℕ → IncomingStream → S → ℕ
  read_all [] s src = 0
  read_all (capacity ∷ later) s src =
      let r = read_stream source capacity s src in given r.answer + read_all later r.stream r.source

  reads-Limited :
      (capacities : List ℕ) (handed : ℕ) (s : IncomingStream) (src : S)
      → IsWithin handed s
      → (s.max_size ≡ 0) ⊎ (handed + read_all capacities s src ≤ s.max_size)
  reads-Limited [] handed s src h =
      let whole = h.accounted in
      elim h.limited [ inl unlimited ↦ inl unlimited | inr within ↦ inr (omega arith) ]
  reads-Limited (capacity ∷ later) handed s src h =
      let r = read_stream source capacity s src in
      let (w, same) = read_stream-IsWithin handed capacity s src h in
      elim (reads-Limited later (handed + given r.answer) r.stream r.source w) [
        | inl unlimited ↦ inl (sym same ∙ unlimited)
        | inr within ↦ inr (omega arith)
      ]

  -- From its start, however often a handler reads a stream and with whatever capacities, and also after
  -- exceptions: either the stream has no limit, or all that is handed out is within `max_stream_size`.
  pub read_all-Limited :
      (capacities : List ℕ) (max_size request_id : ℕ) (src : S)
      → (max_size ≡ 0) ⊎ (read_all capacities (opened max_size request_id) src ≤ max_size)
  read_all-Limited capacities max_size request_id src =
      elim (reads-Limited capacities 0 (opened max_size request_id) src (record {
        accounted = omega arith;
        limited = inr (omega arith);
        total_fits = omega arith;
      })) [ inl unlimited ↦ inl unlimited | inr within ↦ inr (omega arith) ]
