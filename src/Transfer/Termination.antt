-- ===== src/Transfer/Termination.antt =====
-- The end of a vectored write.
use easy_uds.Prelude.{
  ℕ, ◌+◌, ◌≡◌, ◌≤◌, ◌<◌, zero, suc, refl, ◌∙◌, ap, arith, inl, inr, List, [], ◌∷◌, min, length,
  length-drop, Bool-cases, Exception, Result, ok, err,
}
use easy_uds.Deadlines.{max_time, check_absolute_deadline}
use easy_uds.Output.{Bytes, gathered}
use easy_uds.Transfer.{
  Reply, moved, interrupted, waited, broken, done, Transfer, answered, in_time, send_timed_out,
  skip_empty, consume, no_parts, write_loop, write_iovecs_exact,
}
use easy_uds.Transfer.Write.{
  consume-gathered, write_loop-Transfers, skip_empty-gathered, some-parts,
}

-- Answers that neither fail nor end the connection.
abbrev pub IsWilling : List Reply → Type 0
IsWilling [] = Unit {0}
IsWilling (moved zero ∷ script) = ⊥
IsWilling (moved (suc n) ∷ script) = IsWilling script
IsWilling (interrupted ∷ script) = IsWilling script
IsWilling (waited ∷ script) = IsWilling script
IsWilling (broken e ∷ script) = ⊥

abbrev pub takers : List Reply → ℕ
takers [] = 0
takers (moved n ∷ script) = 1 + takers script
takers (reply ∷ script) = takers script

in_time-ok : {r : Result (Unit {0})} (t : Transfer) → r ≡ ok tt → in_time r t ≡ t
in_time-ok {r = ok u} t e = refl
in_time-ok {r = err x} t e = cc

no_deadline : (now : ℕ) (e : Exception) → check_absolute_deadline now max_time e ≡ ok tt
unfolding check_absolute_deadline
no_deadline now e = ground arith

shorter :
    (n : ℕ) (parts : List Bytes)
    → 0 < length (gathered (skip_empty parts))
    → length (
          gathered
            (consume (min (suc n) (length (gathered (skip_empty parts)))) (skip_empty parts)))
        + 1
      ≤ length (gathered parts)
shorter n parts h =
    let k = min (suc n) (length (gathered (skip_empty parts))) in
    let a = ap (λ (b : Bytes). length b) (consume-gathered k (skip_empty parts)) in
    let b = length-drop k (gathered (skip_empty parts)) in
    let c = ap (λ (b : Bytes). length b) (skip_empty-gathered parts) in omega (arith, a, b, c)

done_round :
    (attach : ℕ) (reply : Reply) (script : List Reply) (parts : List Bytes)
    → IsWilling (reply ∷ script)
    → length (gathered parts) ≤ takers (reply ∷ script)
    → 0 < length (gathered (skip_empty parts))
    → (further : ℕ → Transfer) (same : Transfer)
    → ((n : ℕ)
        → IsWilling script
        → length (gathered (consume n (skip_empty parts))) ≤ takers script
        → (further n).status ≡ done)
    → (IsWilling script → length (gathered parts) ≤ takers script → same.status ≡ done)
    → (answered (gathered (skip_empty parts)) attach further same reply).status ≡ done
done_round attach (moved zero) script parts w h s further same f g = absurd w
done_round attach (moved (suc n)) script parts w h s further same f g =
    f (min (suc n) (length (gathered (skip_empty parts)))) w
      (let t = shorter n parts s in omega arith)
done_round attach interrupted script parts w h s further same f g = g w h
done_round attach waited script parts w h s further same f g = g w h
done_round attach (broken e) script parts w h s further same f g = absurd w

write_loop-done :
    (clock : ℕ → ℕ) (attach : ℕ) (script : List Reply) (parts : List Bytes)
    → IsWilling script
    → length (gathered parts) ≤ takers script
    → (write_loop clock max_time attach script parts).status ≡ done
unfolding write_loop
write_loop-done clock attach [] parts w h = elim (Bool-cases (no_parts (skip_empty parts))) [
  | inl none_left ↦ rw none_left
  | inr some_left ↦
      let s = some-parts parts some_left in
      let c = ap (λ (b : Bytes). length b) (skip_empty-gathered parts) in absurd (omega arith)
]
write_loop-done clock attach (reply ∷ script) parts w h =
    elim (Bool-cases (no_parts (skip_empty parts))) [
      | inl none_left ↦ rw none_left
      | inr some_left ↦
          let left = skip_empty parts in
          let same = ap (λ (b : Bytes). length b) (skip_empty-gathered parts) in
          let further : ℕ → Transfer = λ n. write_loop clock max_time 0 script (consume n left) in
          let again : Transfer = write_loop clock max_time attach script left in
          let here : Transfer = answered (gathered left) attach further again reply in
          rw some_left (
            ap (λ (t : Transfer). t.status)
              (in_time-ok here (no_deadline (clock (length (reply ∷ script))) send_timed_out))
            ∙ done_round attach reply script parts w h (some-parts parts some_left) further again
                (λ n w' h'. write_loop-done clock 0 script (consume n left) w' h')
                (λ w' h'. write_loop-done clock attach script left w' (omega (arith, same))))
    ]

-- With no deadline, and answers none of which fails and as many of which take bytes as there are
-- bytes, a vectored write is done: it does not wait for ever, and sends all the bytes.
pub write_iovecs_exact-done :
    (clock : ℕ → ℕ) (script : List Reply) (parts : List Bytes)
    → IsWilling script
    → length (gathered parts) ≤ takers script
    → ((write_iovecs_exact clock max_time script parts).status ≡ done)
      × ((write_iovecs_exact clock max_time script parts).sent ≡ gathered parts)
unfolding write_iovecs_exact
write_iovecs_exact-done clock script parts w h =
    let d = write_loop-done clock 0 script parts w h in
    (
      d,
      elim (write_loop-Transfers clock max_time 0 script parts).0 [
        | inl (e, all) ↦ all
        | inr (left, e, part) ↦ absurd (e d)
      ],
    )
