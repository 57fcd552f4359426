-- ===== src/Reads/Whole.antt =====
-- Both readers, against all the bytes that there are.
use easy_uds.Prelude.{
  ℕ, ◌≡◌, ◌≢◌, ◌⊎◌, ◌≤◌, refl, sym, ap, inl, inr, List, [], ◌∷◌, ◌++◌, length, drop, take, Option,
  none, some,
}
use easy_uds.Deadlines.{max_time}
use easy_uds.Output.{Bytes}
use easy_uds.Reads.{Arrival, Reading, complete, stalled, threw, Read, read, read_source}
use easy_uds.Reads.Receive.{flat, IsFlowing}
use easy_uds.Reads.Buffered.{Outcome, read-Outcome}
use easy_uds.Reads.Source.{read_source-Outcome}

-- The read came to an end; what it handed out, what is buffered and what is still to come are what
-- was there; and it did not end well or handed out so many bytes.
abbrev pub Obtained : ℕ → Bytes → Option Read → Type 0
Obtained size there o =
    (r : Read) × (o ≡ some r)
    × (r.bytes ++ (r.buffer ++ flat r.rest) ≡ there)
    × ((r.reading ≢ complete) ⊎ (length r.bytes ≡ size))

-- The read ended well: it handed out the first so many bytes and left the others.
abbrev pub Delivered : ℕ → Bytes → Option Read → Type 0
Delivered size there o =
    (r : Read) × (o ≡ some r)
    × (r.reading ≡ complete)
    × (r.bytes ≡ take size there)
    × (r.buffer ++ flat r.rest ≡ drop size there)

ended : (x : Reading) → (x ≡ complete) ⊎ (x ≢ complete)
ended complete = inl refl
ended stalled = inr (λ e. cc)
ended (threw e) = inr (λ e. cc)

Outcome-Obtained :
    (size deadline : ℕ) (script : List Arrival) (there : Bytes) (o : Option Read)
    → Outcome size deadline script there o
    → Obtained size there o
Outcome-Obtained size deadline script there none h = absurd h
Outcome-Obtained size deadline script there (some r) h =
    (r, refl, h.conserved, elim (ended r.reading) [ inl e ↦ inr (h.exact e) | inr e ↦ inl e ])

take-length-append :
    (xs ys : Bytes) → (take (length xs) (xs ++ ys) ≡ xs) × (drop (length xs) (xs ++ ys) ≡ ys)
take-length-append [] ys = (refl, refl)
take-length-append (x ∷ xs) ys =
    (ap (λ r. x ∷ r) (take-length-append xs ys).0, (take-length-append xs ys).1)

Outcome-Delivered :
    (size : ℕ) (script : List Arrival) (there : Bytes) (o : Option Read)
    → IsFlowing script
    → size ≤ length there
    → Outcome size max_time script there o
    → Delivered size there o
Outcome-Delivered size script there none f p h = absurd h
Outcome-Delivered size script there (some r) f p h =
    let e = h.delivers refl f p in
    let (first, later) = take-length-append r.bytes (r.buffer ++ flat r.rest) in
    let whole = h.conserved in
    let sized = h.exact e in
    (r, refl, e, rw (← sized, ← whole) (sym first), rw (← sized, ← whole) (sym later))

-- Whatever the socket answers, both reads end within their fuel and lose no byte: what is handed
-- out, then what is buffered, then what is still to come is what was there. A read that ends well
-- has handed out exactly the bytes it was asked for.
pub read-Obtained :
    (clock : ℕ → ℕ) (deadline size : ℕ) (buffer : Bytes) (script : List Arrival)
    → Obtained size (buffer ++ flat script) (read clock deadline size buffer script)
      × Obtained size (buffer ++ flat script) (read_source clock deadline size buffer script)
read-Obtained clock deadline size buffer script = (
  Outcome-Obtained size deadline script _ _ (read-Outcome clock deadline size buffer script),
  Outcome-Obtained size deadline script _ _ (read_source-Outcome clock deadline size buffer script),
)

-- Without a deadline, where neither the calls nor the peer fail and so many bytes are there, both
-- reads end well: they hand out the first bytes, the same for both, and leave exactly the others.
pub read-Delivered :
    (clock : ℕ → ℕ) (size : ℕ) (buffer : Bytes) (script : List Arrival)
    → IsFlowing script
    → size ≤ length (buffer ++ flat script)
    → Delivered size (buffer ++ flat script) (read clock max_time size buffer script)
      × Delivered size (buffer ++ flat script) (read_source clock max_time size buffer script)
read-Delivered clock size buffer script f p = (
  Outcome-Delivered size script _ _ f p (read-Outcome clock max_time size buffer script),
  Outcome-Delivered size script _ _ f p (read_source-Outcome clock max_time size buffer script),
)
