-- ===== src/Reads/Source.antt =====
-- The reads of a stream exchange: `StreamByteSource::read` of reactor/stream_io.hpp.
use easy_uds.Prelude.{
  ℕ, ◌-◌, ◌≡◌, ◌≤◌, zero, suc, refl, sym, ◌∙◌, ap, subst, arith, inl, inr, List, [], ◌++◌, leb, min,
  length, drop, take, take-append-drop, length-take, Bool-cases, Option, none, some,
}
use easy_uds.Output.{Bytes}
use easy_uds.Output.Stream.{append_assoc, append-nil, drop-all}
use easy_uds.Reads.{
  Arrival, Reading, complete, stalled, threw, Received, receive, Read, after, onward, read_direct,
  rebuffered, read_source,
}
use easy_uds.Reads.Receive.{flat}
use easy_uds.Reads.Buffered.{Outcome, Outcome-after, read_direct-Outcome}

abbrev KeepsNone : Option Read → Type 0
KeepsNone none = Unit {0}
KeepsNone (some r) = r.buffer ≡ []

KeepsNone-after : (first : Bytes) (o : Option Read) → KeepsNone o → KeepsNone (after first o)
KeepsNone-after first none h = h
KeepsNone-after first (some r) h = h

KeepsNone-onward :
    (r : Received) (next : Bytes → List Arrival → Option Read)
    → KeepsNone (next r.bytes r.rest)
    → KeepsNone (onward r next)
KeepsNone-onward r next h = by_reading r.reading refl
  where
    by_reading : (x : Reading) → r.reading ≡ x → KeepsNone (onward r next)
    by_reading complete e = rw e h
    by_reading stalled e = rw e refl
    by_reading (threw x) e = rw e refl

-- A direct read leaves nothing in a buffer.
read_direct-KeepsNone :
    (fuel : ℕ) (clock : ℕ → ℕ) (deadline size : ℕ) (script : List Arrival)
    → KeepsNone (read_direct fuel clock deadline size script)
unfolding read_direct
read_direct-KeepsNone fuel clock deadline zero script = refl
read_direct-KeepsNone zero clock deadline (suc size) script = tt
read_direct-KeepsNone (suc fuel) clock deadline (suc size) script =
    let r = receive clock deadline (suc size) script in
    let o = read_direct fuel clock deadline (suc size - length r.bytes) r.rest in
    KeepsNone-onward r
      (λ bytes rest. after bytes (read_direct fuel clock deadline (suc size - length bytes) rest))
      (KeepsNone-after r.bytes o
        (read_direct-KeepsNone fuel clock deadline (suc size - length r.bytes) r.rest))

-- The buffered bytes are a prefix of what there is, or all that was buffered.
with_buffer :
    (size deadline : ℕ) (script : List Arrival) (buffered : Bytes) (o : Option Read)
    → length buffered ≤ size
    → KeepsNone o
    → Outcome size deadline script (buffered ++ flat script) o
    → Outcome size deadline script
        (buffered ++ flat script)
        (rebuffered (drop (min size (length buffered)) buffered) o)
with_buffer size deadline script buffered none h k o = o
with_buffer size deadline script buffered (some r) h k o =
    let none_left = drop-all (min size (length buffered)) buffered (omega arith) in
    record {
      conserved = ap (λ b. r.bytes ++ (b ++ flat r.rest)) (none_left ∙ sym k) ∙ o.conserved;
      exact = o.exact;
      flows = o.flows;
      delivers = o.delivers;
    }

take-all : (n : ℕ) (xs : Bytes) → length xs ≤ n → take n xs ≡ xs
take-all n xs h =
    sym (append-nil (take n xs))
    ∙ ap (λ r. take n xs ++ r) (sym (drop-all n xs h))
    ∙ take-append-drop n xs

pub read_source-Outcome :
    (clock : ℕ → ℕ) (deadline size : ℕ) (buffered : Bytes) (script : List Arrival)
    → Outcome size deadline script
        (buffered ++ flat script)
        (read_source clock deadline size buffered script)
unfolding read_source read_direct
read_source-Outcome clock deadline size buffered script =
    let took = min size (length buffered) in
    let first = length-take took buffered in
    elim (Bool-cases (leb (length buffered) size)) [
      | inl all ↦
          let whole = take-all took buffered (ground arith) in
          let o = read_direct (size - took) clock deadline (size - took) script in
          with_buffer size deadline script buffered (after (take took buffered) o) (ground arith)
            (KeepsNone-after (take took buffered) o
              (read_direct-KeepsNone (size - took) clock deadline (size - took) script))
            (subst
              (λ (b : Bytes).
                Outcome size deadline script (b ++ flat script) (after (take took buffered) o))
              whole
              (Outcome-after size deadline script script (take took buffered) (flat script) o
                (omega arith) (λ f. f)
                (subst (λ n. Outcome n deadline script (flat script) o)
                  (ap (λ n. size - n) (sym (first ∙ min_twice size (length buffered))))
                  (read_direct-Outcome (size - took) clock deadline (size - took) script
                    (omega arith)))))
      | inr more ↦
          let same : took ≡ size = ground arith in
          let rest_zero : size - size ≡ 0 = omega arith in
          rw (same, rest_zero)
            (record {
              conserved =
                  append_assoc (take size buffered) [] (drop size buffered ++ flat script)
                  ∙ sym (append_assoc (take size buffered) (drop size buffered) (flat script))
                  ∙ ap (λ r. r ++ flat script) (take-append-drop size buffered);
              exact = λ e.
                  let one = ap (λ (b : Bytes). length b) (append-nil (take size buffered)) in
                  let sized = length-take size buffered in omega arith;
              flows = λ f. f;
              delivers = λ d f p. refl;
            })
    ]
  where
    min_twice : (a b : ℕ) → min (min a b) b ≡ min a b
    min_twice a b = omega arith
