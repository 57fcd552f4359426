-- ===== src/Transfer/Write.antt =====
-- The bytes that a vectored write sends, and the descriptor.
use easy_uds.Prelude.{
  ℕ, ◌-◌, ◌≡◌, ◌≢◌, ◌<◌, ◌⊎◌, zero, suc, refl, sym, ◌∙◌, ap, subst, arith, inl, inr, true, false,
  List, [], ◌∷◌, ◌++◌, leb, min, length, drop, take, take-append-drop, Bool-cases, dec_lt, Result,
  ok, err,
}
use easy_uds.Output.{Bytes, gathered}
use easy_uds.Output.Stream.{append_assoc, drop-all, drop-append_lt, drop-append_ge}
use easy_uds.Transfer.{
  Reply, moved, interrupted, waited, broken, Status, done, waiting, threw, Transfer, stop, after,
  answered, in_time, broken_pipe_error, skip_empty, consume, no_parts, write_loop,
  write_iovecs_exact_with_fd,
}

pub skip_empty-gathered : (parts : List Bytes) → gathered (skip_empty parts) ≡ gathered parts
unfolding skip_empty
skip_empty-gathered [] = refl
skip_empty-gathered ([] ∷ parts) = skip_empty-gathered parts
skip_empty-gathered ((x ∷ part) ∷ parts) = refl

pub consume-gathered :
    (n : ℕ) (parts : List Bytes) → gathered (consume n parts) ≡ drop n (gathered parts)
unfolding consume
consume-gathered zero [] = refl
consume-gathered (suc n) [] = refl
consume-gathered n (part ∷ parts) = elim (Bool-cases (leb (length part) n)) [
  | inl over ↦ rw over (
      consume-gathered (n - length part) parts
      ∙ sym (drop-append_ge n part (gathered parts) (ground arith)))
  | inr within ↦ rw within (sym (drop-append_lt n part (gathered parts) (ground arith)))
]

no_parts-nil : (parts : List Bytes) → no_parts parts ≡ true → gathered parts ≡ []
no_parts-nil [] h = refl
no_parts-nil (x ∷ parts) h = cc

-- A write of some bytes: all of them went out in order and it is done, or a first part did and the
-- rest is left; a descriptor went with one send that took bytes at most, and it did go if any byte did.
abbrev pub Transfers : ℕ → Bytes → Transfer → Type 0
Transfers attach bytes t =
    (((t.status ≡ done) × (t.sent ≡ bytes))
      ⊎ ((left : Bytes) × (t.status ≢ done) × (t.sent ++ left ≡ bytes)))
    × (((t.sent ≡ []) × (t.descriptors ≡ 0)) ⊎ ((0 < length t.sent) × (t.descriptors ≡ attach)))

stopped-Transfers :
    (attach : ℕ) (bytes : Bytes) (s : Status) → s ≢ done → Transfers attach bytes (stop s)
stopped-Transfers attach bytes s h = (inr (bytes, h, refl), inl (refl, refl))

in_time-Transfers :
    (attach : ℕ) (bytes : Bytes) (r : Result (Unit {0})) (t : Transfer)
    → Transfers attach bytes t
    → Transfers attach bytes (in_time r t)
in_time-Transfers attach bytes (ok u) t h = h
in_time-Transfers attach bytes (err e) t h = stopped-Transfers attach bytes (threw e) (λ x. cc)

-- A send that took bytes, before the rest of a write.
after-Transfers :
    (attach n : ℕ) (bytes : Bytes) (t : Transfer)
    → 0 < length bytes
    → Transfers 0 (drop (suc n) bytes) t
    → Transfers attach bytes (after (take (suc n) bytes) attach t)
after-Transfers attach n [] t some_bytes h = absurd (omega arith)
after-Transfers attach n (x ∷ bytes) t some_bytes (sent, carried) =
    let whole = take-append-drop n bytes in
    let none_more : t.descriptors ≡ 0 = elim carried [ inl (a, b) ↦ b | inr (a, b) ↦ b ] in
    (
      elim sent [
        | inl (d, all) ↦ inl (d, ap (λ r. x ∷ r) (ap (λ r. take n bytes ++ r) all ∙ whole))
        | inr (left, d, part) ↦ inr (
          left,
          d,
          ap (λ r. x ∷ r)
              (append_assoc (take n bytes) t.sent left ∙ ap (λ r. take n bytes ++ r) part ∙ whole),
        )
      ],
      inr (omega arith, omega arith),
    )

pub some-parts :
    (parts : List Bytes)
    → no_parts (skip_empty parts) ≡ false
    → 0 < length (gathered (skip_empty parts))
unfolding skip_empty
some-parts [] h = cc
some-parts ([] ∷ parts) h = some-parts parts h
some-parts ((x ∷ part) ∷ parts) h = omega arith

done-Transfers : (attach : ℕ) (bytes : Bytes) → bytes ≡ [] → Transfers attach bytes (stop done)
done-Transfers attach bytes h = (inl (refl, sym h), inl (refl, refl))

drop-min : (n : ℕ) (xs : Bytes) → drop n xs ≡ drop (min n (length xs)) xs
drop-min n xs = elim (dec_lt n (length xs)) [
  | yes inside ↦ let same : n ≡ min n (length xs) = omega arith in ap (λ k. drop k xs) same
  | no past ↦ drop-all n xs (omega arith) ∙ sym (drop-all (min n (length xs)) xs (omega arith))
]

-- One round of the loop, for what the two ways on come to.
round :
    (attach : ℕ) (script : List Reply) (parts : List Bytes) (further : ℕ → Transfer)
    (same : Transfer)
    → 0 < length (gathered (skip_empty parts))
    → ((n : ℕ) → Transfers 0 (gathered (consume n (skip_empty parts))) (further n))
    → Transfers attach (gathered parts) same
    → (reply : Reply)
    → Transfers attach
        (gathered parts)
        (answered (gathered (skip_empty parts)) attach further same reply)
round attach script parts further same some_left f h (moved zero) =
    stopped-Transfers attach _ (threw broken_pipe_error) (λ x. cc)
round attach script parts further same some_left f h (moved (suc n)) =
    let bytes = gathered (skip_empty parts) in
    let k = min (suc n) (length bytes) in
    let rest : Transfers 0 (drop (suc n) bytes) (further k) =
      subst (λ b. Transfers 0 b (further k))
        (consume-gathered k (skip_empty parts) ∙ sym (drop-min (suc n) bytes)) (f k) in
    subst (λ b. Transfers attach b (after (take (suc n) bytes) attach (further k)))
      (skip_empty-gathered parts) (after-Transfers attach n bytes (further k) some_left rest)
round attach script parts further same some_left f h interrupted = h
round attach script parts further same some_left f h waited = h
round attach script parts further same some_left f h (broken e) =
    stopped-Transfers attach _ (threw e) (λ x. cc)

pub write_loop-Transfers :
    (clock : ℕ → ℕ) (deadline attach : ℕ) (script : List Reply) (parts : List Bytes)
    → Transfers attach (gathered parts) (write_loop clock deadline attach script parts)
unfolding write_loop
write_loop-Transfers clock deadline attach [] parts =
    elim (Bool-cases (no_parts (skip_empty parts))) [
      | inl none_left ↦
          rw none_left
            (done-Transfers attach _ (sym (skip_empty-gathered parts) ∙ no_parts-nil _ none_left))
      | inr some_left ↦
          rw some_left
            (in_time-Transfers attach _ _ _ (stopped-Transfers attach _ waiting (λ x. cc)))
    ]
write_loop-Transfers clock deadline attach (reply ∷ script) parts =
    elim (Bool-cases (no_parts (skip_empty parts))) [
      | inl none_left ↦
          rw none_left
            (done-Transfers attach _ (sym (skip_empty-gathered parts) ∙ no_parts-nil _ none_left))
      | inr some_left ↦
          let left = skip_empty parts in
          rw some_left (
            in_time-Transfers attach _ _ _ (
              round attach script parts (λ n. write_loop clock deadline 0 script (consume n left))
                (write_loop clock deadline attach script left) (some-parts parts some_left)
                (λ n. write_loop-Transfers clock deadline 0 script (consume n left))
                (subst (λ b. Transfers attach b (write_loop clock deadline attach script left))
                  (skip_empty-gathered parts)
                  (write_loop-Transfers clock deadline attach script left))
                reply))
    ]

-- Whatever the socket answers, a vectored write with a descriptor sends all the bytes of its parts
-- in order when it is done, and otherwise a first part of them. The descriptor goes with exactly one
-- of the sends that took bytes, if any did.
pub write_iovecs_exact_with_fd-Transfers :
    (clock : ℕ → ℕ) (deadline : ℕ) (script : List Reply) (parts : List Bytes)
    → Transfers 1 (gathered parts) (write_iovecs_exact_with_fd clock deadline script parts)
unfolding write_iovecs_exact_with_fd
write_iovecs_exact_with_fd-Transfers clock deadline script parts =
    write_loop-Transfers clock deadline 1 script parts
