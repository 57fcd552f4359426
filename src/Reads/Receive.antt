-- ===== src/Reads/Receive.antt =====
-- One receive: `BufferedReader::receive` of transport/io.hpp.
use easy_uds.Prelude.{
  ℕ, ◌≡◌, ◌≤◌, ◌<◌, ◌⊎◌, ◌≢◌, suc, refl, sym, ◌∙◌, ap, subst, arith, inl, inr, List, [], ◌∷◌, ◌++◌,
  leb, length, drop, take, take-append-drop, length-take, length-drop, Bool-cases, Exception,
  Result, ok, err,
}
use easy_uds.Deadlines.{max_time, check_absolute_deadline}
use easy_uds.Output.{Bytes}
use easy_uds.Output.Stream.{append_assoc, append-nil, drop-all}
use easy_uds.Reads.{
  Arrival, bytes_came, call_interrupted, wait_returned, call_failed, complete, stalled, threw,
  Received, no_bytes, on_time, arrival, receive, receive_timed_out, peer_closed,
}

-- The bytes that are still to come.
abbrev pub flat : List Arrival → Bytes
flat [] = []
flat (bytes_came bytes ∷ script) = bytes ++ flat script
flat (a ∷ script) = flat script

-- Arrivals that neither fail nor end the connection.
abbrev pub IsFlowing : List Arrival → Type 0
IsFlowing [] = Unit {0}
IsFlowing (bytes_came [] ∷ script) = ⊥
IsFlowing (bytes_came (b ∷ bytes) ∷ script) = IsFlowing script
IsFlowing (call_interrupted ∷ script) = IsFlowing script
IsFlowing (wait_returned ∷ script) = IsFlowing script
IsFlowing (call_failed e ∷ script) = ⊥

-- No byte is lost, and a receive that ends well brings one.
pub record Receives (capacity deadline : ℕ) (script : List Arrival) (r : Received) : Type 0 where
  pub conserved : r.bytes ++ flat r.rest ≡ flat script
  pub within : length r.bytes ≤ capacity
  pub brings : r.reading ≡ complete → 0 < length r.bytes
  pub brings_none : (r.reading ≡ complete) ⊎ (r.bytes ≡ [])
  pub flows : IsFlowing script → IsFlowing r.rest
  pub delivers :
      deadline ≡ max_time → IsFlowing script → 0 < length (flat script) → r.reading ≡ complete

brings_nothing :
    (capacity deadline : ℕ) (script script' : List Arrival) (e : Exception)
    → flat script' ≡ flat script
    → (IsFlowing script → IsFlowing script')
    → ((deadline ≡ max_time) → IsFlowing script → 0 < length (flat script) → ⊥)
    → Receives capacity deadline script (no_bytes (threw e) script')
brings_nothing capacity deadline script script' e same flows not_yet = record {
  conserved = same;
  within = omega arith;
  brings = λ h. cc;
  brings_none = inr refl;
  flows = flows;
  delivers = λ d f p. absurd (not_yet d f p);
}

came :
    (c deadline : ℕ) (b : ℕ) (bytes : Bytes) (script : List Arrival) (again : Received)
    → Receives
        (suc c)
        deadline
        (bytes_came (b ∷ bytes) ∷ script)
        (arrival (suc c) script again (bytes_came (b ∷ bytes)))
came c deadline b bytes script again =
    let split = take-append-drop c bytes in
    let size = length-take c bytes in
    let left = length-drop c bytes in
    elim (Bool-cases (leb (length (b ∷ bytes)) (suc c))) [
      | inl fits ↦
          let none_left = drop-all c bytes (ground arith) in
          rw fits (record {
            conserved =
                ap (λ r. b ∷ (r ++ flat script))
                  (sym (append-nil (take c bytes))
                    ∙ ap (λ r. take c bytes ++ r) (sym none_left)
                    ∙ split);
            within = omega arith;
            brings = λ h. omega arith;
            brings_none = inl refl;
            flows = λ f. f;
            delivers = λ d f p. refl;
          })
      | inr over ↦ rw over (record {
        conserved =
            sym (append_assoc (b ∷ take c bytes) (drop c bytes) (flat script))
            ∙ ap (λ r. b ∷ (r ++ flat script)) split;
        within = omega arith;
        brings = λ h. omega arith;
        brings_none = inl refl;
        flows = still_flowing (drop c bytes) script (ground arith);
        delivers = λ d f p. refl;
      })
    ]
  where
    still_flowing :
        (left : Bytes) (script : List Arrival)
        → 0 < length left
        → IsFlowing script
        → IsFlowing (bytes_came left ∷ script)
    still_flowing [] script h f = absurd (omega arith)
    still_flowing (x ∷ left) script h f = f

-- The same, past an answer that brings nothing.
past :
    (capacity deadline : ℕ) (a : Arrival) (script : List Arrival) (r : Received)
    → flat (a ∷ script) ≡ flat script
    → (IsFlowing (a ∷ script) → IsFlowing script)
    → Receives capacity deadline script r
    → Receives capacity deadline (a ∷ script) r
past capacity deadline a script r same flowing h = record {
  conserved = h.conserved ∙ sym same;
  within = h.within;
  brings = h.brings;
  brings_none = h.brings_none;
  flows = λ f. h.flows (flowing f);
  delivers = λ d f p. h.delivers d (flowing f) (subst (λ (b : Bytes). 0 < length b) same p);
}

arrival-Receives :
    (c deadline : ℕ) (a : Arrival) (script : List Arrival) (again : Received)
    → Receives (suc c) deadline script again
    → Receives (suc c) deadline (a ∷ script) (arrival (suc c) script again a)
arrival-Receives c deadline (bytes_came []) script again h =
    brings_nothing (suc c) deadline (bytes_came [] ∷ script) script peer_closed refl (λ f. absurd f)
      (λ d f p. f)
arrival-Receives c deadline (bytes_came (b ∷ bytes)) script again h =
    came c deadline b bytes script again
arrival-Receives c deadline call_interrupted script again h =
    past (suc c) deadline call_interrupted script again refl (λ f. f) h
arrival-Receives c deadline wait_returned script again h =
    past (suc c) deadline wait_returned script again refl (λ f. f) h
arrival-Receives c deadline (call_failed e) script again h =
    brings_nothing (suc c) deadline (call_failed e ∷ script) script e refl (λ f. absurd f)
      (λ d f p. f)

no_deadline : (now : ℕ) (e x : Exception) → check_absolute_deadline now max_time e ≢ err x
unfolding check_absolute_deadline
no_deadline now e x = ground arith

on_time-Receives :
    (capacity deadline now : ℕ) (script : List Arrival) (r : Received) (checked : Result (Unit {0}))
    → check_absolute_deadline now deadline receive_timed_out ≡ checked
    → Receives capacity deadline script r
    → Receives capacity deadline script (on_time checked script r)
on_time-Receives capacity deadline now script r (ok u) e h = h
on_time-Receives capacity deadline now script r (err x) e h =
    brings_nothing capacity deadline script script x refl (λ f. f)
      (λ d f p.
        no_deadline now receive_timed_out x
          (ap (λ k. check_absolute_deadline now k receive_timed_out) (sym d) ∙ e))

pub receive-Receives :
    (clock : ℕ → ℕ) (deadline c : ℕ) (script : List Arrival)
    → Receives (suc c) deadline script (receive clock deadline (suc c) script)
unfolding receive
receive-Receives clock deadline c [] =
    on_time-Receives (suc c) deadline (clock 0) [] (no_bytes stalled [])
      (check_absolute_deadline (clock 0) deadline receive_timed_out) refl
      (record {
        conserved = refl;
        within = omega arith;
        brings = λ h. cc;
        brings_none = inr refl;
        flows = λ f. f;
        delivers = λ d f p. absurd (omega arith);
      })
receive-Receives clock deadline c (a ∷ script) =
    on_time-Receives (suc c) deadline (clock (length (a ∷ script))) (a ∷ script) _
      (check_absolute_deadline (clock (length (a ∷ script))) deadline receive_timed_out) refl
      (arrival-Receives c deadline a script _ (receive-Receives clock deadline c script))
