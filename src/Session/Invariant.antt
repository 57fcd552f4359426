-- ===== src/Session/Invariant.antt =====
-- What the slots of a session say.
use easy_uds.Prelude.{
  ℕ, ◌≡◌, ◌≢◌, ◌⊎◌, ◌≤◌, refl, inl, inr, true, false, List, [], ◌∷◌, none, some, ◌==◌, Bool-cases,
  Exception,
}
use easy_uds.Output.{Response}
use easy_uds.Session.{Slot, Stage, leaving, Call, shard_for, find_call, update_call, erase_call}
use easy_uds.Session.Steps.{Heard, Said}

-- An open slot says nothing; a done one has a response that was heard for its id, or an error.
abbrev pub Settled : Heard → ℕ → Slot → Type 0
Settled heard id slot =
    ((slot.done ≡ false) × (slot.error ≡ none))
    ⊎ ((slot.done ≡ true)
        × (slot.error ≡ none)
        × (r : Response) × (slot.response ≡ some r)
        × Said heard id r)
    ⊎ ((slot.done ≡ true) × (e : Exception) × (slot.error ≡ some e))

-- A caller that leaves without an exception of its own found its slot done.
abbrev pub LeavesDone : Stage → Slot → Type 0
LeavesDone (leaving false false) slot = slot.done ≡ true
LeavesDone _ slot = Unit {0}

-- `swept` is the number of shards that the `catch` block has walked.
pub record IsSound (heard : Heard) (swept : ℕ) (c : Call) : Type 0 where
  pub nonzero : c.request_id ≢ 0
  pub settled : Settled heard c.request_id c.slot
  pub swept_done : (swept ≤ shard_for c.request_id) ⊎ (c.slot.done ≡ true)
  pub leaves_done : LeavesDone c.stage c.slot

abbrev pub AllSound : Heard → ℕ → List Call → Type 0
AllSound heard swept [] = Unit {0}
AllSound heard swept (c ∷ cs) = IsSound heard swept c × AllSound heard swept cs

abbrev pub Distinct : List Call → Type 0
Distinct [] = Unit {0}
Distinct (c ∷ cs) = (find_call c.request_id cs ≡ none) × Distinct cs

Settled-more :
    (heard : Heard) (x : ℕ × Response) (id : ℕ) (slot : Slot)
    → Settled heard id slot
    → Settled (x ∷ heard) id slot
Settled-more heard x id slot h = elim h [
  | inl a ↦ inl a
  | inr b ↦ elim b [ inl (d, n, r, e, s) ↦ inr (inl (d, n, r, e, inr s)) | inr c ↦ inr (inr c) ]
]

pub AllSound-more :
    (heard : Heard) (x : ℕ × Response) (swept : ℕ) (cs : List Call)
    → AllSound heard swept cs
    → AllSound (x ∷ heard) swept cs
AllSound-more heard x swept [] h = tt
AllSound-more heard x swept (c ∷ cs) (h, k) = (
  record {
    nonzero = h.nonzero;
    settled = Settled-more heard x c.request_id c.slot h.settled;
    swept_done = h.swept_done;
    leaves_done = h.leaves_done;
  },
  AllSound-more heard x swept cs k,
)

pub AllSound-update_call :
    (heard : Heard) (swept id : ℕ) (f : Call → Call) (cs : List Call)
    → ((c : Call) → find_call id cs ≡ some c → IsSound heard swept c → IsSound heard swept (f c))
    → AllSound heard swept cs
    → AllSound heard swept (update_call id f cs)
AllSound-update_call heard swept id f [] k h = tt
AllSound-update_call heard swept id f (c ∷ cs) k (h, hs) = elim (Bool-cases (c.request_id == id)) [
  | inl here ↦ rw here (k c (rw here refl) h, hs)
  | inr there ↦
      rw there (h, AllSound-update_call heard swept id f cs (λ d e g. k d (rw there e) g) hs)
]

pub AllSound-erase_call :
    (heard : Heard) (swept id : ℕ) (cs : List Call)
    → AllSound heard swept cs
    → AllSound heard swept (erase_call id cs)
AllSound-erase_call heard swept id [] h = tt
AllSound-erase_call heard swept id (c ∷ cs) (h, hs) = elim (Bool-cases (c.request_id == id)) [
  | inl here ↦ rw here hs
  | inr there ↦ rw there (h, AllSound-erase_call heard swept id cs hs)
]

find-update_call :
    (k id : ℕ) (f : Call → Call) (cs : List Call)
    → ((c : Call) → (f c).request_id ≡ c.request_id)
    → find_call k cs ≡ none
    → find_call k (update_call id f cs) ≡ none
find-update_call k id f [] same h = refl
find-update_call k id f (c ∷ cs) same h = elim (Bool-cases (c.request_id == k)) [
  | inl found ↦ let bad = rw found at h in cc
  | inr missed ↦
      let h' = rw missed at h in
      elim (Bool-cases (c.request_id == id)) [
        | inl here ↦ rw (here, same c, missed) h'
        | inr there ↦ rw (there, missed) (find-update_call k id f cs same h')
      ]
]

pub Distinct-update_call :
    (id : ℕ) (f : Call → Call) (cs : List Call)
    → ((c : Call) → (f c).request_id ≡ c.request_id)
    → Distinct cs
    → Distinct (update_call id f cs)
Distinct-update_call id f [] same h = tt
Distinct-update_call id f (c ∷ cs) same (h, hs) = elim (Bool-cases (c.request_id == id)) [
  | inl here ↦ rw (here, same c) (h, hs)
  | inr there ↦
      rw there (find-update_call c.request_id id f cs same h, Distinct-update_call id f cs same hs)
]

find-erase_call :
    (k id : ℕ) (cs : List Call) → find_call k cs ≡ none → find_call k (erase_call id cs) ≡ none
find-erase_call k id [] h = refl
find-erase_call k id (c ∷ cs) h = elim (Bool-cases (c.request_id == k)) [
  | inl found ↦ let bad = rw found at h in cc
  | inr missed ↦
      let h' = rw missed at h in
      elim (Bool-cases (c.request_id == id)) [
        | inl here ↦ rw here h'
        | inr there ↦ rw (there, missed) (find-erase_call k id cs h')
      ]
]

pub Distinct-erase_call : (id : ℕ) (cs : List Call) → Distinct cs → Distinct (erase_call id cs)
Distinct-erase_call id [] h = tt
Distinct-erase_call id (c ∷ cs) (h, hs) = elim (Bool-cases (c.request_id == id)) [
  | inl here ↦ rw here hs
  | inr there ↦ rw there (find-erase_call c.request_id id cs h, Distinct-erase_call id cs hs)
]
