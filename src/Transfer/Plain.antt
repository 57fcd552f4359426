-- ===== src/Transfer/Plain.antt =====
-- The plain write against the vectored one.
use easy_uds.Prelude.{
  ℕ, ◌≡◌, zero, suc, refl, sym, ◌∙◌, ap, arith, inl, inr, true, List, [], ◌∷◌, ◌++◌, leb, min,
  length, drop, take, Bool-cases,
}
use easy_uds.Deadlines.{check_absolute_deadline}
use easy_uds.Output.{Bytes}
use easy_uds.Output.Stream.{append-nil, drop-all}
use easy_uds.Transfer.{
  Reply, moved, interrupted, waited, broken, done, Transfer, stop, after, answered, in_time,
  send_timed_out, skip_empty, consume, no_parts, write_loop, write_iovecs_exact, write_exact,
}

write_loop-nil :
    (clock : ℕ → ℕ) (deadline attach : ℕ) (script : List Reply) (parts : List Bytes)
    → no_parts (skip_empty parts) ≡ true
    → write_loop clock deadline attach script parts ≡ stop done
unfolding write_loop
write_loop-nil clock deadline attach [] parts h = rw h
write_loop-nil clock deadline attach (reply ∷ script) parts h = rw h

write_exact-nil :
    (clock : ℕ → ℕ) (deadline : ℕ) (script : List Reply)
    → write_exact clock deadline script [] ≡ stop done
unfolding write_exact
write_exact-nil clock deadline [] = refl
write_exact-nil clock deadline (reply ∷ script) = refl

-- The one part that is left of one, whether the loop drops it at its end or not.
write_loop-consume :
    (clock : ℕ → ℕ) (deadline k : ℕ) (script : List Reply) (bytes : Bytes)
    → write_loop clock deadline 0 script (consume k (bytes ∷ []))
      ≡ write_loop clock deadline 0 script (drop k bytes ∷ [])
unfolding consume skip_empty
write_loop-consume clock deadline k script bytes = elim (Bool-cases (leb (length bytes) k)) [
  | inr within ↦ rw within
  | inl over ↦
      let none_left = drop-all k bytes (ground arith) in
      rw (over, none_left)
        (write_loop-nil clock deadline 0 script [] refl
          ∙ sym (write_loop-nil clock deadline 0 script ([] ∷ []) refl))
]

answered_same :
    (left left' : Bytes) (f g : ℕ → Transfer) (s s' : Transfer) (reply : Reply)
    → left ≡ left'
    → ((n : ℕ) → f n ≡ g n)
    → s ≡ s'
    → answered left 0 f s reply ≡ answered left' 0 g s' reply
answered_same left left' f g s s' (moved zero) e h k = refl
answered_same left left' f g s s' (moved (suc n)) e h k =
    ap (λ b. after (take (suc n) b) 0 (f (min (suc n) (length b)))) e
    ∙ ap (λ t. after (take (suc n) left') 0 t) (h (min (suc n) (length left')))
answered_same left left' f g s s' interrupted e h k = k
answered_same left left' f g s s' waited e h k = k
answered_same left left' f g s s' (broken x) e h k = refl

-- A plain write does what the vectored one does with the one part: the same end and the same bytes
-- sent, for all answers.
pub write_exact-write_iovecs_exact :
    (clock : ℕ → ℕ) (deadline : ℕ) (script : List Reply) (bytes : Bytes)
    → write_exact clock deadline script bytes
      ≡ write_iovecs_exact clock deadline script (bytes ∷ [])
unfolding write_exact write_iovecs_exact write_loop skip_empty
write_exact-write_iovecs_exact clock deadline [] [] = refl
write_exact-write_iovecs_exact clock deadline [] (x ∷ bytes) = refl
write_exact-write_iovecs_exact clock deadline (reply ∷ script) [] = refl
write_exact-write_iovecs_exact clock deadline (reply ∷ script) (x ∷ bytes) =
    ap
      (λ t.
        in_time (check_absolute_deadline (clock (length (reply ∷ script))) deadline send_timed_out)
          t)
      (answered_same (x ∷ bytes) ((x ∷ bytes) ++ [])
        (λ n. write_exact clock deadline script (drop n (x ∷ bytes)))
        (λ n. write_loop clock deadline 0 script (consume n ((x ∷ bytes) ∷ [])))
        (write_exact clock deadline script (x ∷ bytes))
        (write_loop clock deadline 0 script ((x ∷ bytes) ∷ [])) reply (sym (append-nil (x ∷ bytes)))
        (λ n.
          write_exact-write_iovecs_exact clock deadline script (drop n (x ∷ bytes))
          ∙ sym (write_loop-consume clock deadline n script (x ∷ bytes)))
        (write_exact-write_iovecs_exact clock deadline script (x ∷ bytes)))
