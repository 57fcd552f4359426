-- ===== src/Output/Flush.antt =====
-- The flush of a connection's output.
use easy_uds.Prelude.{
  ℕ, ◌+◌, ◌≡◌, ◌<◌, ◌⊎◌, zero, suc, refl, sym, ◌∙◌, subst, arith, inl, inr, Bool, true, false, List,
  [], ◌∷◌, Option, some, ltb, length, Bool-cases,
}
use easy_uds.Output.{
  OutgoingFrame, Output, Answer, took, interrupted, would_block, failed, remaining_parts, gathered,
  send_frame_once, max_flush_bytes, is_idle,
}
use easy_uds.Output.Calls.{sent_of_front, is_expired, flush_loop}
use easy_uds.Output.Calls.{
  Refresh, refreshed, refused, control_failed, end_flush, flush_connection_output,
}
use easy_uds.Output.Stream.{
  frame_bytes, remaining_parts-gathered, Took, send_parts-Took, IsQueued, stream,
  sent_of_front-IsQueued,
}

pub Answer-cases :
    (a : Answer)
    → ((n : ℕ) × (a ≡ took (suc n)))
      ⊎ (a ≡ would_block)
      ⊎ ((a ≡ took zero) ⊎ (a ≡ interrupted) ⊎ (a ≡ failed))
Answer-cases (took zero) = inr (inr (inl refl))
Answer-cases (took (suc n)) = inl (n, refl)
Answer-cases interrupted = inr (inr (inr (inl refl)))
Answer-cases would_block = inr (inl refl)
Answer-cases failed = inr (inr (inr (inr refl)))

-- A flush that returned, with the same stream of bytes taken and waiting, and sound counters.
abbrev pub Flushes : Option (Bool × Output) → Output → Type 0
Flushes r o =
    (b : Bool) × (t : Output) × (r ≡ some (b, t))
    × IsQueued t
    × (stream t ≡ stream o)
    × (b ≡ false → t.closing ≡ true)

pub closing-IsQueued : (o : Output) → IsQueued o → IsQueued (record o { closing = true })
closing-IsQueued o q = record {
  unfinished = q.unfinished;
  queued_exact = q.queued_exact;
  queued_within = q.queued_within;
  total_size = q.total_size;
}

closed-Flushes : (o : Output) → IsQueued o → Flushes (some (false, record o { closing = true })) o
closed-Flushes o q =
    (false, record o { closing = true }, refl, closing-IsQueued o q, refl, λ e. refl)

from-Flushes : {r r' : Option (Bool × Output)} (o : Output) → r ≡ r' → Flushes r' o → Flushes r o
from-Flushes {r} {r'} o e f = subst (λ x. Flushes x o) (sym e) f

pub send_frame_once-Took :
    (script : List Answer) (frame : OutgoingFrame) (n : ℕ)
    → (send_frame_once script frame).answer ≡ took n
    → Took script (frame_bytes frame) n (send_frame_once script frame)
unfolding send_frame_once
send_frame_once-Took script frame n h =
    subst (λ b. Took script b n (send_frame_once script frame)) (remaining_parts-gathered frame)
      (send_parts-Took script (gathered (remaining_parts frame)) n h)

flush_loop-took :
    (fuel : ℕ) (clock : ℕ → ℕ) (flushed : ℕ) (o : Output) (script : List Answer)
    (frame : OutgoingFrame) (later : List OutgoingFrame) (n : ℕ)
    → o.output_queue ≡ frame ∷ later
    → ltb flushed max_flush_bytes ≡ true
    → is_expired (clock (length script)) frame ≡ false
    → (send_frame_once script frame).answer ≡ took (suc n)
    → flush_loop (suc fuel) clock flushed o script
      ≡ flush_loop fuel clock
          (flushed + suc n)
          (sent_of_front
            (clock (length script))
            frame
            later
            (suc n)
            (send_frame_once script frame)
            o)
          (send_frame_once script frame).rest
unfolding flush_loop
flush_loop-took fuel clock flushed o script frame later n e more timely a = ground arith

flush_round :
    (fuel : ℕ) (clock : ℕ → ℕ) (flushed : ℕ) (o : Output) (script : List Answer)
    → ((flushed : ℕ) (o : Output) (script : List Answer)
        → length script < fuel
        → IsQueued o
        → Flushes (flush_loop fuel clock flushed o script) o)
    → length script < suc fuel
    → IsQueued o
    → (queue : List OutgoingFrame) → o.output_queue ≡ queue
    → Flushes (flush_loop (suc fuel) clock flushed o script) o
unfolding flush_loop
flush_round fuel clock flushed o script again h q [] e =
    from-Flushes o (ground arith) (true, o, refl, q, refl, λ x. absurd (ground arith))
flush_round fuel clock flushed o script again h q (frame ∷ later) e =
    elim (Bool-cases (ltb flushed max_flush_bytes)) [
      | inr full ↦
          from-Flushes o (ground arith) (true, o, refl, q, refl, λ x. absurd (ground arith))
      | inl more ↦ elim (Bool-cases (is_expired (clock (length script)) frame)) [
        | inl late ↦ from-Flushes o (ground arith) (closed-Flushes o q)
        | inr timely ↦ elim (Answer-cases (send_frame_once script frame).answer) [
          | inl (n, a) ↦
              let now = clock (length script) in
              let sent = send_frame_once script frame in
              let t = send_frame_once-Took script frame (suc n) a in
              let (sound, same) =
                sent_of_front-IsQueued now frame later (suc n) sent o e t.taken_first t.within q in
              let (b, u, r, v, w, x) =
                again (flushed + suc n) (sent_of_front now frame later (suc n) sent o) sent.rest
                  (omega (arith, t.answered)) sound in
              (
                b,
                u,
                flush_loop-took fuel clock flushed o script frame later n e more timely a ∙ r,
                v,
                w ∙ same,
                x,
              )
          | inr (inl a) ↦
              from-Flushes o (ground arith) (true, o, refl, q, refl, λ x. absurd (ground arith))
          | inr (inr (inl a)) ↦ from-Flushes o (ground arith) (closed-Flushes o q)
          | inr (inr (inr (inl a))) ↦ from-Flushes o (ground arith) (closed-Flushes o q)
          | inr (inr (inr (inr a))) ↦ from-Flushes o (ground arith) (closed-Flushes o q)
        ]
      ]
    ]

flush_loop-Flushes :
    (fuel : ℕ) (clock : ℕ → ℕ) (flushed : ℕ) (o : Output) (script : List Answer)
    → length script < fuel
    → IsQueued o
    → Flushes (flush_loop fuel clock flushed o script) o
flush_loop-Flushes zero clock flushed o script h q = absurd (omega arith)
flush_loop-Flushes (suc fuel) clock flushed o script h q =
    flush_round fuel clock flushed o script (flush_loop-Flushes fuel clock) h q o.output_queue refl

idle-nil : (q : List OutgoingFrame) → is_idle q ≡ true → q ≡ []
idle-nil [] e = refl
idle-nil (f ∷ q) e = cc

-- What the end of a flush may return, with the queue, the stream and the counters as the loop left
-- them.
abbrev pub Ends : Refresh → Output → Bool × Output → Type 0
Ends answer t r =
    IsQueued r.1
    × (stream r.1 ≡ stream t)
    × ((r.0 ≡ true) ⊎ (r.1.closing ≡ true) ⊎ ((r.1.output_queue ≡ []) × (answer ≡ refused)))

end_flush-Ends : (answer : Refresh) (t : Output) → IsQueued t → Ends answer t (end_flush answer t)
unfolding end_flush
end_flush-Ends refreshed t q = elim (Bool-cases (is_idle t.output_queue)) [
  | inl e ↦ rw e (q, refl, inl refl)
  | inr e ↦ rw e (q, refl, inl refl)
]
end_flush-Ends control_failed t q = elim (Bool-cases (is_idle t.output_queue)) [
  | inl e ↦ rw e (closing-IsQueued t q, refl, inl refl)
  | inr e ↦ rw e (q, refl, inl refl)
]
end_flush-Ends refused t q = elim (Bool-cases (is_idle t.output_queue)) [
  | inl e ↦ rw e (q, refl, inr (inr (idle-nil t.output_queue e, refl)))
  | inr e ↦ rw e (q, refl, inl refl)
]

-- With sound counters and no frame sent whole in the queue, a flush returns, whatever the socket
-- answers and the clock shows. The bytes that the socket took and those that still wait are the
-- same stream as before, the counters are sound again, and a `false` without a closing connection
-- comes only from a queue that is empty and a connection that is not one to refresh.
pub flush_connection_output-stream :
    (clock : ℕ → ℕ) (answer : Refresh) (o : Output) (script : List Answer)
    → IsQueued o
    → (b : Bool) × (t : Output) × (flush_connection_output clock answer o script ≡ some (b, t))
      × IsQueued t
      × (stream t ≡ stream o)
      × ((b ≡ true) ⊎ (t.closing ≡ true) ⊎ ((t.output_queue ≡ []) × (answer ≡ refused)))
unfolding flush_connection_output
flush_connection_output-stream clock answer o script q =
    let (b, t, r, v, w, x) =
      flush_loop-Flushes (length script + 1) clock 0 o script (omega arith) q in
    elim (Bool-cases b) [
      | inl yes_more ↦
          let (sound, same, end) = end_flush-Ends answer t v in
          (
            (end_flush answer t).0,
            (end_flush answer t).1,
            ground (arith, r, yes_more),
            sound,
            same ∙ w,
            end,
          )
      | inr broken ↦ (false, t, ground (arith, r, broken), v, w, inr (inl (x broken)))
    ]
