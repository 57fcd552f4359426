-- ===== src/Reads/Buffered.antt =====
-- The reads of so many bytes: `BufferedReader::read` and `read_direct` of transport/io.hpp.
use easy_uds.Prelude.{
  ℕ, ◌+◌, ◌-◌, ◌*◌, ◌≡◌, ◌≤◌, ◌<◌, ◌≢◌, zero, suc, refl, sym, ◌∙◌, ap, subst, arith, inl, inr, true,
  List, [], ◌∷◌, ◌++◌, leb, ltb, min, length, length-append, drop, take, take-append-drop,
  length-take, Bool-cases, Option, none, some,
}
use easy_uds.Deadlines.{max_time}
use easy_uds.Output.{Bytes}
use easy_uds.Output.Stream.{append_assoc}
use easy_uds.Reads.{
  Arrival, Reading, complete, stalled, threw, Received, receive, Read, after, onward, read_direct,
  read_ahead_capacity, read_loop, read,
}
use easy_uds.Reads.Receive.{flat, IsFlowing, Receives, receive-Receives}

-- A read of `size` bytes where `there` is all that there is: the bytes before and after it, the size of a
-- read that ends well, and when it does.
pub record Obtains (size deadline : ℕ) (script : List Arrival) (there : Bytes) (r : Read)
    : Type 0 where
  pub conserved : r.bytes ++ (r.buffer ++ flat r.rest) ≡ there
  pub exact : r.reading ≡ complete → length r.bytes ≡ size
  pub flows : IsFlowing script → IsFlowing r.rest
  pub delivers : deadline ≡ max_time → IsFlowing script → size ≤ length there → r.reading ≡ complete

-- A read that ran out of fuel has no outcome.
abbrev pub Outcome : ℕ → ℕ → List Arrival → Bytes → Option Read → Type 0
Outcome size deadline script there none = ⊥
Outcome size deadline script there (some r) = Obtains size deadline script there r

pub Outcome-whole :
    (deadline : ℕ) (buffer : Bytes) (script : List Arrival)
    → Outcome 0 deadline script
        (buffer ++ flat script)
        (some (record { reading = complete; bytes = []; buffer = buffer; rest = script }))
Outcome-whole deadline buffer script = record {
  conserved = refl;
  exact = λ h. refl;
  flows = λ f. f;
  delivers = λ d f p. refl;
}

-- The bytes that come first, and those of the rest of the read.
pub Outcome-after :
    (size deadline : ℕ) (script script' : List Arrival) (first there : Bytes) (o : Option Read)
    → length first ≤ size
    → (IsFlowing script → IsFlowing script')
    → Outcome (size - length first) deadline script' there o
    → Outcome size deadline script (first ++ there) (after first o)
Outcome-after size deadline script script' first there none h f o = o
Outcome-after size deadline script script' first there (some r) h f o = record {
  conserved =
      append_assoc first r.bytes (r.buffer ++ flat r.rest) ∙ ap (λ b. first ++ b) o.conserved;
  exact = λ e. let sum = length-append first r.bytes in let rest = o.exact e in omega arith;
  flows = λ w. o.flows (f w);
  delivers = λ d w p. let sum = length-append first there in o.delivers d (f w) (omega arith);
}

-- A receive, where what comes after it has the outcome.
Outcome-onward :
    (size capacity deadline : ℕ) (script : List Arrival) (r : Received)
    (next : Bytes → List Arrival → Option Read)
    → 0 < size
    → Receives capacity deadline script r
    → ((r.reading ≡ complete) → Outcome size deadline script (flat script) (next r.bytes r.rest))
    → Outcome size deadline script (flat script) (onward r next)
Outcome-onward size capacity deadline script r next positive h k = by_reading r.reading refl
  where
    ended :
        (x : Reading)
        → r.reading ≡ x
        → x ≢ complete
        → Obtains size deadline script
            (flat script)
            (record { reading = x; bytes = []; buffer = []; rest = r.rest })
    ended x e other = record {
      conserved = elim h.brings_none [
        | inl c ↦ absurd (other (sym e ∙ c))
        | inr n ↦ ap (λ b. b ++ flat r.rest) (sym n) ∙ h.conserved
      ];
      exact = λ w. absurd (other w);
      flows = h.flows;
      delivers = λ d f p. sym e ∙ h.delivers d f (omega arith);
    }

    by_reading :
        (x : Reading) → r.reading ≡ x → Outcome size deadline script (flat script) (onward r next)
    by_reading complete e = rw e (k e)
    by_reading stalled e = rw e (ended stalled e (λ w. cc))
    by_reading (threw x) e = rw e (ended (threw x) e (λ w. cc))

Outcome-moved :
    (size deadline : ℕ) (script script' : List Arrival) (there there' : Bytes) (o : Option Read)
    → there ≡ there'
    → (IsFlowing script → IsFlowing script')
    → Outcome size deadline script' there o
    → Outcome size deadline script there' o
Outcome-moved size deadline script script' there there' none e f o = o
Outcome-moved size deadline script script' there there' (some r) e f o = record {
  conserved = o.conserved ∙ e;
  exact = o.exact;
  flows = λ w. o.flows (f w);
  delivers = λ d w p. o.delivers d (f w) (subst (λ (b : Bytes). size ≤ length b) (sym e) p);
}

pub read_direct-Outcome :
    (fuel : ℕ) (clock : ℕ → ℕ) (deadline size : ℕ) (script : List Arrival)
    → size ≤ fuel
    → Outcome size deadline script (flat script) (read_direct fuel clock deadline size script)
unfolding read_direct
read_direct-Outcome fuel clock deadline zero script h = Outcome-whole deadline [] script
read_direct-Outcome zero clock deadline (suc size) script h = absurd (omega arith)
read_direct-Outcome (suc fuel) clock deadline (suc size) script h =
    let r = receive clock deadline (suc size) script in
    let got = receive-Receives clock deadline size script in
    Outcome-onward (suc size) (suc size) deadline script r
      (λ bytes rest. after bytes (read_direct fuel clock deadline (suc size - length bytes) rest))
      (omega arith) got
      (λ e.
        let brought = got.brings e in
        let o = read_direct fuel clock deadline (suc size - length r.bytes) r.rest in
        subst (λ b. Outcome (suc size) deadline script b (after r.bytes o)) got.conserved
          (Outcome-after (suc size) deadline script r.rest r.bytes (flat r.rest) o got.within
            got.flows
            (read_direct-Outcome fuel clock deadline (suc size - length r.bytes) r.rest
              (omega arith))))

pub read_loop-Outcome :
    (fuel : ℕ) (clock : ℕ → ℕ) (deadline size : ℕ) (buffer : Bytes) (script : List Arrival)
    → 2 * size ≤ fuel + min 1 (length buffer)
    → Outcome size deadline script
        (buffer ++ flat script)
        (read_loop fuel clock deadline size buffer script)
unfolding read_loop
read_loop-Outcome fuel clock deadline zero buffer script h = Outcome-whole deadline buffer script
read_loop-Outcome zero clock deadline (suc missing) buffer script h = absurd (omega arith)
read_loop-Outcome (suc fuel) clock deadline (suc missing) [] script h =
    elim (Bool-cases (leb read_ahead_capacity (suc missing))) [
      | inl direct ↦
          rw direct
            (read_direct-Outcome (suc missing) clock deadline (suc missing) script (omega arith))
      | inr ahead ↦ rw ahead (
          let r = receive clock deadline read_ahead_capacity script in
          let got = receive-Receives clock deadline 4095 script in
          Outcome-onward (suc missing) read_ahead_capacity deadline script r
            (λ bytes rest. read_loop fuel clock deadline (suc missing) bytes rest) (omega arith) got
            (λ e.
              let brought = got.brings e in
              Outcome-moved (suc missing) deadline script r.rest (r.bytes ++ flat r.rest)
                (flat script) _ got.conserved got.flows
                (read_loop-Outcome fuel clock deadline (suc missing) r.bytes r.rest (omega arith))))
    ]
read_loop-Outcome (suc fuel) clock deadline (suc missing) (b ∷ buffer) script h =
    let took = min (suc missing) (length (b ∷ buffer)) in
    let size = length-take took (b ∷ buffer) in
    let there = append_assoc (take took (b ∷ buffer)) (drop took (b ∷ buffer)) (flat script) in
    let split = take-append-drop took (b ∷ buffer) in
    let filled : ltb 0 (length (b ∷ buffer)) ≡ true = ground arith in
    rw filled (
      Outcome-moved (suc missing) deadline script script _ _ _
        (sym there ∙ ap (λ r. r ++ flat script) split) (λ f. f)
        (Outcome-after (suc missing) deadline script script (take took (b ∷ buffer))
          (drop took (b ∷ buffer) ++ flat script) _ (omega arith) (λ f. f)
          (let same : suc missing - length (take took (b ∷ buffer)) ≡ suc missing - took =
              omega arith in
            subst
              (λ n. Outcome n deadline script (drop took (b ∷ buffer) ++ flat script) (
                read_loop fuel clock deadline (suc missing - took) (drop took (b ∷ buffer)) script))
              (sym same)
              (read_loop-Outcome fuel clock deadline (suc missing - took) (drop took (b ∷ buffer))
                script (omega arith)))))

pub read-Outcome :
    (clock : ℕ → ℕ) (deadline size : ℕ) (buffer : Bytes) (script : List Arrival)
    → Outcome size deadline script (buffer ++ flat script) (read clock deadline size buffer script)
unfolding read
read-Outcome clock deadline size buffer script =
    read_loop-Outcome (2 * size) clock deadline size buffer script (omega arith)
