-- ===== src/Parser/ReadAhead.antt =====
-- How far the parser reads ahead.
use easy_uds.Prelude.{
  ℕ, ◌+◌, ◌-◌, ◌≡◌, ◌≤◌, ◌⊎◌, max, refl, sym, ◌∙◌, ap, subst, arith, inl, inr, Bool, false, not,
  ◌&&◌, ◌||◌, List, [], ◌∷◌, ◌++◌, Option, ◌==◌, ltb, min, length, length-append, length-take, drop,
  take, take-append-drop, Bool-cases,
}
use easy_uds.Options.{ServerOptions}
use easy_uds.Output.{Bytes}
use easy_uds.Output.Stream.{append_assoc}
use easy_uds.Frames.{
  ParsePhase, header, request_budget, request_payload, stream_budget, stream_route, Host, Parser,
}
use easy_uds.Parser.{strict_budget, header_need, payload_need, route_need}
use easy_uds.Parser.Ready.{IsReading, PhaseReady}
use easy_uds.Parser.Socket.{
  reactor_read_batch_size, reactor_read_scratch_size, Answer, gives, interrupted, would_block,
  failed, refused, ReadEnd, ready, closing, threw, ReadAhead, ended, keep_fd, bounded, request_size,
  closed, gained, on_answer, read_loop,
}

module _ {W : Type 0} where
  -- What the frame at hand still needs.
  abbrev pub frame_need : ParsePhase → Parser W → ℕ
  frame_need header s = header_need s
  frame_need request_payload s = payload_need s
  frame_need stream_route s = route_need s
  frame_need _ s = reactor_read_batch_size

  -- No byte is lost, and the bounds on the bytes that are read ahead: of the batch, and of the frame
  -- if `strict` holds.
  abbrev pub ReadsWithin : Bool → ℕ → Bytes → Bytes → Parser W → ReadAhead W → Type 0
  ReadsWithin strict read_ahead pending socket s r =
      (r.pending ++ r.socket ≡ pending ++ socket)
      × (length r.pending ≤ length pending + (reactor_read_batch_size - read_ahead))
      × ((strict ≡ false) ⊎ (length r.pending ≤ max (length pending) (frame_need s.phase s)))

  ended-ReadsWithin :
      (strict : Bool) (read_ahead : ℕ) (pending socket rest : Bytes) (s t : Parser W) (x : ReadEnd)
      → rest ≡ socket
      → ReadsWithin strict read_ahead pending socket s (ended x pending rest t)
  ended-ReadsWithin strict read_ahead pending socket rest s t x e =
      (ap (λ b. pending ++ b) e, omega arith, inr (omega arith))

  bounded-frame_need :
      (phase : ParsePhase) (size : ℕ) (pending : Bytes) (s : Parser W)
      → PhaseReady phase s
      → (bounded phase size pending s ≤ size)
        × (length pending + bounded phase size pending s
            ≤ max (length pending) (frame_need phase s))
  bounded-frame_need header size pending s h = (omega arith, omega arith)
  bounded-frame_need request_payload size pending s h = (omega arith, omega arith)
  bounded-frame_need stream_route size pending s h = (omega arith, omega arith)
  bounded-frame_need request_budget size pending s h = absurd h
  bounded-frame_need stream_budget size pending s h = absurd h

module _ {W : Type 0} (host : Host W) (options : ServerOptions) where
  abbrev strict : Bool
  strict = strict_budget host options

  -- The size of a call, within the batch, and within the frame if the budget is strict.
  request_size-bounds :
      (read_ahead : ℕ) (pending : Bytes) (s : Parser W)
      → (strict ≡ false) ⊎ PhaseReady s.phase s
      → (request_size host options read_ahead pending s ≤ reactor_read_batch_size - read_ahead)
        × ((strict ≡ false)
            ⊎ (length pending + request_size host options read_ahead pending s
                ≤ max (length pending) (frame_need s.phase s)))
  request_size-bounds read_ahead pending s h = elim h [
    | inl loose ↦ rw loose (omega arith, inl refl)
    | inr ready' ↦
        let size = min reactor_read_scratch_size (reactor_read_batch_size - read_ahead) in
        let (a, b) = bounded-frame_need s.phase size pending s ready' in
        elim (Bool-cases strict) [
          | inl tight ↦ rw tight (omega arith, inr b)
          | inr loose ↦ rw loose (omega arith, inl refl)
        ]
  ]

  gained-ReadsWithin :
      (bytes : Bytes) (fd : Option ℕ) (read_ahead : ℕ) (pending rest socket : Bytes) (s : Parser W)
      (further : Bytes → Parser W → ReadAhead W)
      → bytes ++ rest ≡ socket
      → length bytes ≤ reactor_read_batch_size - read_ahead
      → (strict ≡ false)
        ⊎ (length pending + length bytes ≤ max (length pending) (frame_need s.phase s))
      → ((t : Parser W)
          → strict ≡ false
          → ReadsWithin strict
              (read_ahead + length bytes)
              (pending ++ bytes)
              rest
              t
              (further (pending ++ bytes) t))
      → ReadsWithin strict read_ahead pending socket s
          (gained host options bytes fd pending rest s further)
  gained-ReadsWithin [] fd read_ahead pending rest socket s further e small tight k =
      ended-ReadsWithin strict read_ahead pending socket rest s (closed host options s) closing e
  gained-ReadsWithin (b ∷ bytes) fd read_ahead pending rest socket s further e small tight k =
      let sum = length-append pending (b ∷ bytes) in
      let whole = append_assoc pending (b ∷ bytes) rest ∙ ap (λ r. pending ++ r) e in
      elim (Bool-cases strict) [
        | inl tighter ↦
            rw tighter
              (whole, omega arith, elim tight [ inl loose ↦ cc | inr within ↦ inr (omega arith) ])
        | inr loose ↦
            let h = k (keep_fd fd (record s { world = host.mark_io_progress s.world })) loose in
            rw loose (h.0 ∙ whole, omega (arith, h.1), inl refl)
      ]

  on_answer-ReadsWithin :
      (a : Answer) (size read_ahead : ℕ) (pending socket : Bytes) (s : Parser W)
      (further : ℕ → Bytes → Bytes → Parser W → ReadAhead W)
      → size ≤ reactor_read_batch_size - read_ahead
      → (strict ≡ false) ⊎ (length pending + size ≤ max (length pending) (frame_need s.phase s))
      → ((n : ℕ) (pending' socket' : Bytes) (t : Parser W)
          → strict ≡ false
          → ReadsWithin strict (read_ahead + n) pending' socket' t (further n pending' socket' t))
      → ReadsWithin strict read_ahead pending socket s (further 0 pending socket s)
      → ReadsWithin strict read_ahead pending socket s
          (on_answer host options a size pending socket s further)
  on_answer-ReadsWithin (gives k fd) size read_ahead pending socket s further small tight next
        again =
      let n = min k size in
      let sized = length-take n socket in
      gained-ReadsWithin (take n socket) fd read_ahead pending (drop n socket) socket s _
        (take-append-drop n socket) (omega arith)
        (elim tight [ inl loose ↦ inl loose | inr within ↦ inr (omega arith) ])
        (λ t loose.
          next (length (take n socket)) (pending ++ take n socket) (drop n socket) t loose)
  on_answer-ReadsWithin interrupted size read_ahead pending socket s further small tight next
        again =
      again
  on_answer-ReadsWithin would_block size read_ahead pending socket s further small tight next
        again =
      ended-ReadsWithin strict read_ahead pending socket socket s s ready refl
  on_answer-ReadsWithin failed size read_ahead pending socket s further small tight next again =
      ended-ReadsWithin strict read_ahead pending socket socket s (closed host options s) closing
        refl
  on_answer-ReadsWithin (refused e) size read_ahead pending socket s further small tight next
        again =
      ended-ReadsWithin strict read_ahead pending socket socket s s (threw e) refl

  loop-ReadsWithin :
      (script : List Answer) (read_ahead : ℕ) (pending socket : Bytes) (s : Parser W)
      → (strict ≡ false) ⊎ PhaseReady s.phase s
      → ReadsWithin strict read_ahead pending socket s
          (read_loop host options script read_ahead pending socket s)
  unfolding read_loop
  loop-ReadsWithin [] read_ahead pending socket s h =
      ended-ReadsWithin strict read_ahead pending socket socket s s ready refl
  loop-ReadsWithin (a ∷ script) read_ahead pending socket s h =
      let size = request_size host options read_ahead pending s in
      let (small, tight) = request_size-bounds read_ahead pending s h in
      elim (Bool-cases (not (ltb read_ahead reactor_read_batch_size) || strict && size == 0)) [
        | inl stop ↦
            rw stop (ended-ReadsWithin strict read_ahead pending socket socket s s ready refl)
        | inr go ↦ rw go (
            on_answer-ReadsWithin a size read_ahead pending socket s
              (λ n pending' socket' s'.
                read_loop host options script (read_ahead + n) pending' socket' s')
              small tight
              (λ n pending' socket' t loose.
                loop-ReadsWithin script (read_ahead + n) pending' socket' t (inl loose))
              (let same : read_ahead + 0 ≡ read_ahead = omega arith in
                subst
                  (λ k.
                    ReadsWithin strict read_ahead pending socket s
                      (read_loop host options script k pending socket s))
                  (sym same) (loop-ReadsWithin script read_ahead pending socket s h)))
      ]

  -- Between two rounds of the parser, reading ahead loses no byte: what is pending and what the socket
  -- still has are what they were. It takes at most a batch. Under a strict budget it reads no further
  -- than the header, the payload or the route at hand, or takes nothing.
  pub read_loop-ReadsWithin :
      (script : List Answer) (pending socket : Bytes) (s : Parser W)
      → IsReading s
      → ReadsWithin strict 0 pending socket s (read_loop host options script 0 pending socket s)
  read_loop-ReadsWithin script pending socket s w =
      loop-ReadsWithin script 0 pending socket s (inr w.frame_part)
