-- ===== src/Output/Stream.antt =====
-- The stream of the bytes of a connection: those that the socket took, and those that wait.
use easy_uds.Prelude.{
  ℕ, ◌+◌, ◌-◌, ◌≡◌, ◌≤◌, ◌<◌, zero, suc, refl, sym, ◌∙◌, ap, subst, arith, inl, inr, true, false,
  List, [], ◌∷◌, ◌++◌, ◌==◌, ltb, min, if◌then◌else◌, length, drop, take, take-append-drop,
  length-append, length-drop, length-take, Bool-cases,
}
use easy_uds.FlowControl.{size_modulus}
use easy_uds.Output.{
  Bytes, OutgoingFrame, Output, Answer, took, interrupted, would_block, failed, is_empty_body,
  remaining_parts, gathered, Sent, send_parts, frame_size,
}
use easy_uds.Output.Calls.{advance, sent_of_front}

pub append_assoc : (xs ys zs : Bytes) → (xs ++ ys) ++ zs ≡ xs ++ (ys ++ zs)
append_assoc [] ys zs = refl
append_assoc (x ∷ xs) ys zs = ap (λ r. x ∷ r) (append_assoc xs ys zs)

pub append-nil : (xs : Bytes) → xs ++ [] ≡ xs
append-nil [] = refl
append-nil (x ∷ xs) = ap (λ r. x ∷ r) (append-nil xs)

pub drop-append_lt : (n : ℕ) (xs ys : Bytes) → n ≤ length xs → drop n (xs ++ ys) ≡ drop n xs ++ ys
drop-append_lt zero xs ys h = refl
drop-append_lt (suc n) [] ys h = absurd (omega arith)
drop-append_lt (suc n) (x ∷ xs) ys h = drop-append_lt n xs ys (omega arith)

pub drop-append_ge :
    (n : ℕ) (xs ys : Bytes) → length xs ≤ n → drop n (xs ++ ys) ≡ drop (n - length xs) ys
drop-append_ge n [] ys h = ap (λ k. drop k ys) (omega arith)
drop-append_ge zero (x ∷ xs) ys h = absurd (omega arith)
drop-append_ge (suc n) (x ∷ xs) ys h =
    drop-append_ge n xs ys (omega arith) ∙ ap (λ k. drop k ys) (omega arith)

abbrev no_bytes : Bytes
no_bytes = []

drop-nil : (n : ℕ) → drop n (no_bytes) ≡ []
drop-nil zero = refl
drop-nil (suc n) = refl

pub drop-drop : (n m : ℕ) (xs : Bytes) → drop m (drop n xs) ≡ drop (n + m) xs
drop-drop zero m xs = ap (λ k. drop k xs) (omega arith)
drop-drop (suc n) m [] = drop-nil m ∙ sym (drop-nil (suc n + m))
drop-drop (suc n) m (x ∷ xs) =
    let moved : suc (n + m) ≡ suc n + m = omega arith in
    drop-drop n m xs ∙ ap (λ k. drop k (x ∷ xs)) moved

take-nil : (n : ℕ) → take n no_bytes ≡ []
take-nil zero = refl
take-nil (suc n) = refl

pub take-min : (k : ℕ) (xs : Bytes) → take k xs ≡ take (min k (length xs)) xs
take-min zero xs =
    let none_taken : zero ≡ min zero (length xs) = omega arith in ap (λ n. take n xs) none_taken
take-min (suc k) [] = sym (take-nil (min (suc k) 0))
take-min (suc k) (x ∷ xs) =
    let moved : suc (min k (length xs)) ≡ min (suc k) (length (x ∷ xs)) = omega arith in
    ap (λ r. x ∷ r) (take-min k xs) ∙ ap (λ n. take n (x ∷ xs)) moved

pub drop-all : (n : ℕ) (xs : Bytes) → length xs ≤ n → drop n xs ≡ []
drop-all n [] h = drop-nil n
drop-all zero (x ∷ xs) h = absurd (omega arith)
drop-all (suc n) (x ∷ xs) h = drop-all n xs (omega arith)

-- What is left of a frame, and of a queue.
abbrev pub frame_bytes : OutgoingFrame → Bytes
frame_bytes frame = drop frame.offset (frame.header ++ frame.body)

abbrev pub pending : List OutgoingFrame → Bytes
pending [] = []
pending (frame ∷ frames) = frame_bytes frame ++ pending frames

gathered_inside :
    (frame : OutgoingFrame)
    → ltb frame.offset (length frame.header) ≡ true
    → gathered (remaining_parts frame) ≡ drop frame.offset frame.header ++ frame.body
unfolding remaining_parts
gathered_inside frame h = rw h (body_cases frame.body)
  where
    body_cases :
        (b : Bytes)
        → gathered (
            if is_empty_body b
            then drop frame.offset frame.header ∷ []
            else drop frame.offset frame.header ∷ b ∷ [])
          ≡ drop frame.offset frame.header ++ b
    body_cases [] = refl
    body_cases (x ∷ b) = ap (λ r. drop frame.offset frame.header ++ r) (append-nil (x ∷ b))

gathered_past :
    (frame : OutgoingFrame)
    → ltb frame.offset (length frame.header) ≡ false
    → gathered (remaining_parts frame) ≡ drop (frame.offset - length frame.header) frame.body
unfolding remaining_parts
gathered_past frame h = rw h (append-nil _)

-- The parts that a send is handed are what is left of the frame.
pub remaining_parts-gathered :
    (frame : OutgoingFrame) → gathered (remaining_parts frame) ≡ frame_bytes frame
unfolding remaining_parts
remaining_parts-gathered frame = elim (Bool-cases (ltb frame.offset (length frame.header))) [
  | inl inside ↦
      let h = drop-append_lt frame.offset frame.header frame.body (ground arith) in
      gathered_inside frame inside ∙ sym h
  | inr past ↦
      let h = drop-append_ge frame.offset frame.header frame.body (ground arith) in
      gathered_past frame past ∙ sym h
]

-- A send that took bytes took the first ones, no more than it was handed, and used up an answer.
pub record Took (script : List Answer) (bytes : Bytes) (n : ℕ) (s : Sent) : Type 0 where
  pub taken_first : s.taken ≡ take n bytes
  pub within : n ≤ length bytes
  pub answered : length s.rest < length script

pub send_parts-Took :
    (script : List Answer) (bytes : Bytes) (n : ℕ)
    → (send_parts script bytes).answer ≡ took n
    → Took script bytes n (send_parts script bytes)
send_parts-Took [] bytes n h = cc
send_parts-Took (interrupted ∷ script) bytes n h =
    let t = send_parts-Took script bytes n h in
    record { taken_first = t.taken_first; within = t.within; answered = omega (arith, t.answered) }
send_parts-Took (would_block ∷ script) bytes n h = cc
send_parts-Took (failed ∷ script) bytes n h = cc
send_parts-Took (took k ∷ script) bytes n h =
    let same : min k (length bytes) ≡ n = cc in
    record {
      taken_first = take-min k bytes ∙ ap (λ m. take m bytes) same;
      within = omega arith;
      answered = omega arith;
    }

-- No frame in the queue is sent whole.
abbrev pub Unfinished : List OutgoingFrame → Type 0
Unfinished [] = Unit {0}
Unfinished (frame ∷ frames) = (frame.offset < frame_size frame) × Unfinished frames

-- The queue's counters: the connection's is what is pending, and the server's holds it.
pub record IsQueued (o : Output) : Type 0 where
  pub unfinished : Unfinished o.output_queue
  pub queued_exact : o.queued_output_bytes ≡ length (pending o.output_queue)
  pub queued_within : o.queued_output_bytes ≤ o.total_queued_output_bytes
  pub total_size : o.total_queued_output_bytes < size_modulus

-- All that the socket took and all that waits.
abbrev pub stream : Output → Bytes
stream o = o.wire ++ pending o.output_queue

pub length-frame_bytes :
    (frame : OutgoingFrame) → length (frame_bytes frame) ≡ frame_size frame - frame.offset
length-frame_bytes frame =
    length-drop frame.offset (frame.header ++ frame.body)
    ∙ ap (λ n. n - frame.offset) (length-append frame.header frame.body)

advance-pending :
    (frame : OutgoingFrame) (later : List OutgoingFrame) (n : ℕ)
    → n ≤ length (frame_bytes frame)
    → frame.offset < frame_size frame
    → take n (frame_bytes frame) ++ pending (advance frame n later) ≡ pending (frame ∷ later)
advance-pending frame later n h unfinished =
    let bytes = frame_bytes frame in
    let split = take-append-drop n bytes in
    let all = length-frame_bytes frame in
    elim (Bool-cases (frame.offset + n == frame_size frame)) [
      | inl done ↦
          let none_left = drop-all n bytes (ground arith) in
          rw done (
            ap (λ r. r ++ pending later)
              (sym (append-nil (take n bytes))
                ∙ ap (λ r. take n bytes ++ r) (sym none_left)
                ∙ split))
      | inr more ↦
          let moved = drop-drop frame.offset n (frame.header ++ frame.body) in
          rw more (
            ap (λ r. take n bytes ++ (r ++ pending later)) (sym moved)
            ∙ sym (append_assoc (take n bytes) (drop n bytes) (pending later))
            ∙ ap (λ r. r ++ pending later) split)
    ]

advance-Unfinished :
    (frame : OutgoingFrame) (later : List OutgoingFrame) (n : ℕ)
    → n ≤ length (frame_bytes frame)
    → Unfinished (frame ∷ later)
    → Unfinished (advance frame n later)
advance-Unfinished frame later n h u =
    let all = length-frame_bytes frame in
    let here = u.0 in
    elim (Bool-cases (frame.offset + n == frame_size frame)) [
      | inl done ↦ rw done u.1
      | inr more ↦ rw more (ground arith, u.1)
    ]

pub sent_of_front-IsQueued :
    (now : ℕ) (frame : OutgoingFrame) (later : List OutgoingFrame) (n : ℕ) (s : Sent) (o : Output)
    → o.output_queue ≡ frame ∷ later
    → s.taken ≡ take n (frame_bytes frame)
    → n ≤ length (frame_bytes frame)
    → IsQueued o
    → IsQueued (sent_of_front now frame later n s o)
      × (stream (sent_of_front now frame later n s o) ≡ stream o)
sent_of_front-IsQueued now frame later n s o shape taken within q =
    let here = subst Unfinished shape q.unfinished in
    let same = advance-pending frame later n within here.0 in
    let front = ap pending shape in
    let lengths = ap (λ (b : Bytes). length b) same in
    let first = length-append (take n (frame_bytes frame)) (pending (advance frame n later)) in
    let size = length-take n (frame_bytes frame) in
    let all = ap (λ (b : Bytes). length b) front in
    let whole = length-append (frame_bytes frame) (pending later) in
    let exact = q.queued_exact in
    let total = q.queued_within in
    let bound = q.total_size in
    (
      record {
        unfinished = advance-Unfinished frame later n within here;
        queued_exact = omega arith;
        queued_within = omega arith;
        total_size = omega arith;
      },
      append_assoc o.wire s.taken _
          ∙ ap (λ r. o.wire ++ r)
              (ap (λ t. t ++ pending (advance frame n later)) taken ∙ same ∙ sym front),
    )
