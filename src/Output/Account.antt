-- ===== src/Output/Account.antt =====
-- A write of a response: the stream of bytes and the counters after it.
use easy_uds.Prelude.{
  ℕ, ◌+◌, ◌-◌, ◌≡◌, ◌≤◌, ◌<◌, ◌⊎◌, zero, suc, refl, sym, ◌∙◌, ap, arith, inl, inr, Bool, true,
  false, ◌&&◌, List, [], ◌∷◌, ◌++◌, ◌==◌, ltb, leb, length, drop, take, take-append-drop,
  length-append, Bool-cases, Exception, Result, ok, err,
}
use easy_uds.Options.{ServerOptions}
use easy_uds.FlowControl.{size_modulus}
use easy_uds.Output.{
  Bytes, OutgoingFrame, Output, Answer, took, interrupted, would_block, failed,
  reserve_global_output, send_frame_once, frame_size, queue_overflow, Written, close_output,
  queue_frame, after_send, is_idle, write_frame,
}
use easy_uds.Output.Stream.{
  append_assoc, append-nil, drop-all, drop-drop, frame_bytes, pending, Unfinished,
  length-frame_bytes, IsQueued, stream,
}
use easy_uds.Output.Flush.{closing-IsQueued, send_frame_once-Took}

pending-snoc :
    (q : List OutgoingFrame) (f : OutgoingFrame)
    → pending (q ++ f ∷ []) ≡ pending q ++ frame_bytes f
pending-snoc [] f = append-nil _
pending-snoc (x ∷ q) f =
    ap (λ r. frame_bytes x ++ r) (pending-snoc q f)
    ∙ sym (append_assoc (frame_bytes x) (pending q) (frame_bytes f))

Unfinished-snoc :
    (q : List OutgoingFrame) (f : OutgoingFrame)
    → Unfinished q
    → f.offset < frame_size f
    → Unfinished (q ++ f ∷ [])
Unfinished-snoc [] f u h = (h, tt)
Unfinished-snoc (x ∷ q) f u h = (u.0, Unfinished-snoc q f u.1 h)

-- The queue and the counters as they were.
abbrev pub Kept : Output → Output → Type 0
Kept o t =
    (t.output_queue ≡ o.output_queue)
    × (t.queued_output_bytes ≡ o.queued_output_bytes)
    × (t.total_queued_output_bytes ≡ o.total_queued_output_bytes)

-- Nothing queued, and the total is less by just what was queued.
abbrev pub Cleared : Output → Output → Type 0
Cleared o t =
    (t.output_queue ≡ [])
    × (t.queued_output_bytes ≡ 0)
    × (t.total_queued_output_bytes + o.queued_output_bytes ≡ o.total_queued_output_bytes)

-- After an overflow: cleared where the map of the server still holds the connection.
abbrev pub Overflows : Bool → Output → Output → Type 0
Overflows true o t = Cleared o t
Overflows false o t = Kept o t

-- A frame that joins the queue, or an overflow that closes the connection.
abbrev pub Queues : Bool → OutgoingFrame → Output → Result (Unit {0}) × Output → Type 0
Queues registered f o r =
    ((r.0 ≡ ok tt)
      × IsQueued r.1
      × (stream r.1 ≡ stream o ++ frame_bytes f)
      × (r.1.closing ≡ o.closing))
    ⊎ ((r.0 ≡ err queue_overflow)
        × (r.1.closing ≡ true)
        × IsQueued r.1
        × Overflows registered o r.1
        × (r.1.wire ≡ o.wire))

overflow-Queues :
    (registered : Bool) (f : OutgoingFrame) (o : Output)
    → IsQueued o
    → Queues registered f o
        (err queue_overflow, close_output registered (record o { closing = true }))
unfolding close_output
overflow-Queues false f o q = inr (refl, refl, closing-IsQueued o q, (refl, refl, refl), refl)
overflow-Queues true f o q =
    let within = q.queued_within in
    let size = q.total_size in
    let exact : (close_output true (record o { closing = true })).total_queued_output_bytes
          + o.queued_output_bytes
        ≡ o.total_queued_output_bytes =
      ground arith in
    inr (
      refl,
      refl,
      record {
        unfinished = tt;
        queued_exact = refl;
        queued_within = omega arith;
        total_size = omega (arith, exact);
      },
      (refl, refl, exact),
      refl,
    )

queue_frame-Queues :
    (options : ServerOptions) (registered : Bool) (now : ℕ) (f : OutgoingFrame) (o : Output)
    → IsQueued o
    → f.offset < frame_size f
    → o.total_queued_output_bytes + frame_size f < size_modulus
    → Queues registered f o (queue_frame options registered now f o)
unfolding queue_frame reserve_global_output
queue_frame-Queues options registered now f o q some_left bound =
    elim (Bool-cases (
      leb (frame_size f - f.offset) options.max_output_bytes_per_connection
      && leb o.queued_output_bytes
          (options.max_output_bytes_per_connection - (frame_size f - f.offset))
      && (reserve_global_output options (frame_size f - f.offset) o.total_queued_output_bytes).0)) [
        | inr full ↦ rw full (overflow-Queues registered f o q)
        | inl room ↦
            let size = length-append (pending o.output_queue) (frame_bytes f) in
            let left = length-frame_bytes f in
            let exact = q.queued_exact in
            let within = q.queued_within in
            let snoc = pending-snoc o.output_queue f in
            rw room (
              inl (
                refl,
                record {
                  unfinished = Unfinished-snoc o.output_queue f q.unfinished some_left;
                  queued_exact =
                      ap (λ n. n + (frame_size f - f.offset)) exact
                      ∙ omega (arith, size, left)
                      ∙ ap (λ (b : Bytes). length b) (sym snoc);
                  queued_within = ground arith;
                  total_size = ground arith;
                },
                ap (λ b. o.wire ++ b) snoc
                    ∙ sym (append_assoc o.wire (pending o.output_queue) (frame_bytes f)),
                refl,
              ))
      ]

-- What a writer of a new frame finds: it is at the end of the stream; or the call throws and the
-- connection is closing, with at most a first part of the frame taken, and the rest of the output as
-- the overflow or the failed send leaves it.
abbrev pub Writes : Bool → Exception → OutgoingFrame → Output → Written → Type 0
Writes registered send_failed f o w =
    ((w.result ≡ ok tt)
      × IsQueued w.output
      × (stream w.output ≡ stream o ++ frame_bytes f)
      × (w.output.closing ≡ o.closing))
    ⊎ ((w.output.closing ≡ true)
        × IsQueued w.output
        × ((k : ℕ) × (w.output.wire ≡ o.wire ++ take k (frame_bytes f)))
        × (((w.result ≡ err queue_overflow) × Overflows registered o w.output)
            ⊎ ((w.result ≡ err send_failed) × Kept o w.output)))

queued-Writes :
    (registered : Bool) (send_failed : Exception) (f : OutgoingFrame) (o : Output)
    (r : Result (Unit {0}) × Output) (rest : List Answer)
    → Queues registered f o r
    → Writes registered send_failed f o (record { result = r.0; output = r.1; rest = rest })
queued-Writes registered send_failed f o r rest (inl (a, b, c, d)) = inl (a, b, c, d)
queued-Writes registered send_failed f o r rest (inr (a, b, c, d, e)) =
    inr (b, c, (0, e ∙ sym (append-nil o.wire)), inl (a, d))

idle-nil : (q : List OutgoingFrame) → is_idle q ≡ true → q ≡ []
idle-nil [] e = refl
idle-nil (f ∷ q) e = cc

-- The stream of a connection with an empty queue, once the first bytes of a frame are on the wire.
first_part :
    (f : OutgoingFrame) (o : Output) (n : ℕ) (bytes : Bytes)
    → o.output_queue ≡ []
    → bytes ≡ take n (frame_bytes f)
    → (o.wire ++ bytes) ++ drop n (frame_bytes f) ≡ stream o ++ frame_bytes f
first_part f o n bytes none_before taken =
    append_assoc o.wire bytes _
    ∙ ap (λ t. o.wire ++ (t ++ drop n (frame_bytes f))) taken
    ∙ ap (λ t. o.wire ++ t) (take-append-drop n (frame_bytes f))
    ∙ ap (λ t. t ++ frame_bytes f)
        (sym (append-nil o.wire) ∙ ap (λ q. o.wire ++ pending q) (sym none_before))

-- The rest of a frame that joins a queue that was empty, after the socket took the first bytes.
on_wire-Overflows :
    (registered : Bool) (o : Output) (wire : Bytes) (now : ℕ) (t : Output)
    → Overflows registered (record o { wire = wire; last_output_progress = now }) t
    → Overflows registered o t
on_wire-Overflows true o wire now t h = h
on_wire-Overflows false o wire now t h = h

rest-Writes :
    (registered : Bool) (send_failed : Exception) (f g : OutgoingFrame) (o : Output) (n now : ℕ)
    (bytes : Bytes) (r : Result (Unit {0}) × Output) (rest : List Answer)
    → frame_bytes g ≡ drop n (frame_bytes f)
    → o.output_queue ≡ []
    → bytes ≡ take n (frame_bytes f)
    → Queues registered g (record o { wire = o.wire ++ bytes; last_output_progress = now }) r
    → Writes registered send_failed f o (record { result = r.0; output = r.1; rest = rest })
rest-Writes registered send_failed f g o n now bytes r rest left none_before taken
      (inl (a, b, c, d)) =
    inl (
      a,
      b,
      c
          ∙ ap (λ t. t ++ frame_bytes g)
              (ap (λ q. (o.wire ++ bytes) ++ pending q) none_before ∙ append-nil (o.wire ++ bytes))
          ∙ ap (λ t. (o.wire ++ bytes) ++ t) left
          ∙ first_part f o n bytes none_before taken,
      d,
    )
rest-Writes registered send_failed f g o n now bytes r rest left none_before taken
      (inr (a, b, c, d, e)) =
    inr (
      b,
      c,
      (n, e ∙ ap (λ t. o.wire ++ t) taken),
      inl (a, on_wire-Overflows registered o (o.wire ++ bytes) now r.1 d),
    )

on_wire-IsQueued :
    (o : Output) (wire : Bytes) (now : ℕ)
    → IsQueued o
    → IsQueued (record o { wire = wire; last_output_progress = now })
on_wire-IsQueued o wire now q = record {
  unfinished = q.unfinished;
  queued_exact = q.queued_exact;
  queued_within = q.queued_within;
  total_size = q.total_size;
}

module _ (options : ServerOptions) (registered : Bool) (now : ℕ) (send_failed : Exception)
    (f : OutgoingFrame) (o : Output) (q : IsQueued o) (fresh : f.offset ≡ 0)
    (nonempty : 0 < frame_size f)
    (bound : o.total_queued_output_bytes + frame_size f < size_modulus)
    (none_before : o.output_queue ≡ []) where
  after_send-Writes :
      (a : Answer) (rest : List Answer) (taken : Bytes)
      → ((n : ℕ) → a ≡ took n → (taken ≡ take n (frame_bytes f)) × (n ≤ length (frame_bytes f)))
      → Writes registered send_failed f o (
          after_send options registered now send_failed f o
            (record { answer = a; rest = rest; taken = taken }))
  unfolding after_send
  after_send-Writes failed rest taken t =
      inr (refl, closing-IsQueued o q, (0, sym (append-nil o.wire)), inr (refl, (refl, refl, refl)))
  after_send-Writes interrupted rest taken t =
      queued-Writes registered send_failed f o _ rest
        (queue_frame-Queues options registered now f o q (omega arith) bound)
  after_send-Writes would_block rest taken t =
      queued-Writes registered send_failed f o _ rest
        (queue_frame-Queues options registered now f o q (omega arith) bound)
  after_send-Writes (took zero) rest taken t =
      rest-Writes registered send_failed f f o 0 o.last_output_progress taken _ rest refl
        none_before (t 0 refl).0
        (queue_frame-Queues options registered now f (record o { wire = o.wire ++ taken })
          (on_wire-IsQueued o (o.wire ++ taken) o.last_output_progress q) (omega arith) bound)
  after_send-Writes (took (suc n)) rest taken t =
      let g = record f { offset = suc n } in
      let at_front : f.offset + suc n ≡ suc n = omega arith in
      let left =
        drop-drop f.offset (suc n) (f.header ++ f.body)
        ∙ ap (λ k. drop k (f.header ++ f.body)) at_front in
      let size = length-frame_bytes f in
      let positive : ltb 0 (suc n) ≡ true = ground arith in
      let within = (t (suc n) refl).1 in
      elim (Bool-cases (suc n == frame_size f)) [
        | inl whole ↦
            rw (positive, whole)
              (inl (
                refl,
                on_wire-IsQueued o (o.wire ++ taken) now q,
                ap (λ x. (o.wire ++ taken) ++ x)
                      (ap pending none_before
                        ∙ sym (drop-all (suc n) (frame_bytes f) (ground arith)))
                    ∙ first_part f o (suc n) taken none_before (t (suc n) refl).0,
                refl,
              ))
        | inr part ↦
            rw (positive, part)
              (rest-Writes registered send_failed f g o (suc n) now taken _ rest (sym left)
                none_before (t (suc n) refl).0
                (queue_frame-Queues options registered now g
                  (record o { wire = o.wire ++ taken; last_output_progress = now })
                  (on_wire-IsQueued o (o.wire ++ taken) now q) (ground arith) bound))
      ]

-- A new frame, sound counters, room for the frame below 2 ^ 64: the writer's frame joins the stream
-- of bytes at its end, in part or as a whole already on the wire, and the counters are sound. Or the
-- call throws, marks the connection as closing, with at most a first part of the frame on the wire
-- and sound counters: after a failed send the queue and the counters are as they were, and after an
-- overflow of a registered connection nothing is queued and the total is less by what was.
pub write_frame-Writes :
    (options : ServerOptions) (registered : Bool) (now : ℕ) (send_failed : Exception)
    (f : OutgoingFrame) (o : Output) (script : List Answer)
    → IsQueued o
    → f.offset ≡ 0
    → 0 < frame_size f
    → o.total_queued_output_bytes + frame_size f < size_modulus
    → Writes registered send_failed f o (write_frame options registered now send_failed f o script)
unfolding write_frame
write_frame-Writes options registered now send_failed f o script q fresh nonempty bound =
    elim (Bool-cases (is_idle o.output_queue)) [
      | inr waits ↦ rw waits (
          queued-Writes registered send_failed f o _ script
            (queue_frame-Queues options registered now f o q (omega arith) bound))
      | inl idle ↦
          let sent = send_frame_once script f in
          rw idle (
            after_send-Writes options registered now send_failed f o q fresh nonempty bound
              (idle-nil o.output_queue idle) sent.answer sent.rest sent.taken
              (λ n e. let t = send_frame_once-Took script f n e in (t.taken_first, t.within)))
    ]
