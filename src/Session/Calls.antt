-- ===== src/Session/Calls.antt =====
-- The rounds of the callers and of the `catch` block, on the calls of a session.
use easy_uds.Prelude.{
  ℕ, ◌+◌, ◌≡◌, refl, sym, subst, arith, inl, inr, Bool, true, false, not, ◌&&◌, List, [], ◌∷◌, none,
  ◌==◌, if◌then◌else◌, Bool-cases, Exception,
}
use easy_uds.Output.{Response}
use easy_uds.Session.{
  Slot, Stage, sending, awaiting, cancelling, send_failed, leaving, Call, next_stage, shard_for,
  find_call, caller_round, answered, failed_in, fail_all,
}
use easy_uds.Session.Steps.{Heard, Said}
use easy_uds.Session.Invariant.{Settled, LeavesDone, IsSound, AllSound, Distinct}

next_stage-LeavesDone :
    (written cancel expired : Bool) (slot : Slot) (stage : Stage)
    → LeavesDone stage slot
    → LeavesDone (next_stage written cancel expired slot stage) slot
next_stage-LeavesDone true cancel expired slot sending h = tt
next_stage-LeavesDone false cancel expired slot sending h = tt
next_stage-LeavesDone written cancel expired slot awaiting h = elim (Bool-cases slot.done) [
  | inl done ↦ rw done refl
  | inr waits ↦ rw waits (by_wish cancel expired)
]
  where
    by_wish :
        (c e : Bool)
        → LeavesDone
            (if c then cancelling else if e then leaving false true else awaiting)
            (record slot { done = false })
    by_wish true e = tt
    by_wish false true = tt
    by_wish false false = tt
next_stage-LeavesDone written cancel expired slot cancelling h = elim (Bool-cases slot.done) [
  | inl done ↦ rw done tt
  | inr waits ↦ rw waits (by_time expired)
]
  where
    by_time :
        (e : Bool)
        → LeavesDone (if e then leaving true true else cancelling) (record slot { done = false })
    by_time true = tt
    by_time false = tt
next_stage-LeavesDone written cancel expired slot send_failed h = tt
next_stage-LeavesDone written cancel expired slot (leaving own late) h = h

pub caller_round-IsSound :
    (heard : Heard) (swept : ℕ) (written cancel expired : Bool) (c : Call)
    → IsSound heard swept c
    → IsSound heard swept (caller_round written cancel expired c)
caller_round-IsSound heard swept written cancel expired c h = record {
  nonzero = h.nonzero;
  settled = h.settled;
  swept_done = h.swept_done;
  leaves_done = next_stage-LeavesDone written cancel expired c.slot c.stage h.leaves_done;
}

-- A call that is answered, with a response that was heard.
LeavesDone-done : (stage : Stage) (slot : Slot) → slot.done ≡ true → LeavesDone stage slot
LeavesDone-done (leaving false false) slot h = h
LeavesDone-done (leaving false true) slot h = tt
LeavesDone-done (leaving true own) slot h = tt
LeavesDone-done sending slot h = tt
LeavesDone-done awaiting slot h = tt
LeavesDone-done cancelling slot h = tt
LeavesDone-done send_failed slot h = tt

open_slot :
    (heard : Heard) (id : ℕ) (slot : Slot)
    → Settled heard id slot
    → slot.done ≡ false
    → slot.error ≡ none
open_slot heard id slot h d = elim h [
  | inl (e, n) ↦ n
  | inr rest ↦ elim rest [ inl (e, n, r, x, said) ↦ n | inr (e, x, n) ↦ cc ]
]

pub answered-IsSound :
    (heard : Heard) (swept id : ℕ) (r : Response) (c : Call)
    → c.request_id ≡ id
    → c.slot.done ≡ false
    → Said heard id r
    → IsSound heard swept c
    → IsSound heard swept (answered r c)
answered-IsSound heard swept id r c same waits said h = record {
  nonzero = h.nonzero;
  settled = inr (
      inl (
        refl,
        open_slot heard c.request_id c.slot h.settled waits,
        r,
        refl,
        subst (λ k. Said heard k r) (sym same) said,
      ));
  swept_done = inr refl;
  leaves_done = LeavesDone-done c.stage _ refl;
}

failed_in-IsSound :
    (heard : Heard) (shard : ℕ) (e : Exception) (c : Call)
    → IsSound heard shard c
    → IsSound heard (shard + 1) (failed_in shard e c)
failed_in-IsSound heard shard e c h =
    elim (Bool-cases (shard_for c.request_id == shard && not c.slot.done)) [
      | inl hit ↦ rw hit (record {
        nonzero = h.nonzero;
        settled = inr (inr (refl, e, refl));
        swept_done = inr refl;
        leaves_done = LeavesDone-done c.stage _ refl;
      })
      | inr miss ↦ rw miss (record {
        nonzero = h.nonzero;
        settled = h.settled;
        swept_done = elim h.swept_done [
          | inr done ↦ inr done
          | inl later ↦ elim (Bool-cases c.slot.done) [
            | inl done ↦ inr done
            | inr waits ↦ inl (ground arith)
          ]
        ];
        leaves_done = h.leaves_done;
      })
    ]

pub fail_all-AllSound :
    (heard : Heard) (shard : ℕ) (e : Exception) (cs : List Call)
    → AllSound heard shard cs
    → AllSound heard (shard + 1) (fail_all shard e cs)
fail_all-AllSound heard shard e [] h = tt
fail_all-AllSound heard shard e (c ∷ cs) (h, hs) =
    (failed_in-IsSound heard shard e c h, fail_all-AllSound heard shard e cs hs)

failed_in_id :
    (shard : ℕ) (e : Exception) (c : Call) → (failed_in shard e c).request_id ≡ c.request_id
failed_in_id shard e c = elim (Bool-cases (shard_for c.request_id == shard && not c.slot.done)) [
  | inl hit ↦ rw hit refl
  | inr miss ↦ rw miss refl
]

find-fail_all :
    (k shard : ℕ) (e : Exception) (cs : List Call)
    → find_call k cs ≡ none
    → find_call k (fail_all shard e cs) ≡ none
find-fail_all k shard e [] h = refl
find-fail_all k shard e (c ∷ cs) h = elim (Bool-cases (c.request_id == k)) [
  | inl found ↦ let bad = rw found at h in cc
  | inr missed ↦ rw (failed_in_id shard e c, missed) (find-fail_all k shard e cs (rw missed at h))
]

pub Distinct-fail_all :
    (shard : ℕ) (e : Exception) (cs : List Call) → Distinct cs → Distinct (fail_all shard e cs)
Distinct-fail_all shard e [] h = tt
Distinct-fail_all shard e (c ∷ cs) (h, hs) = (
  rw (failed_in_id shard e c) (find-fail_all c.request_id shard e cs h),
  Distinct-fail_all shard e cs hs,
)
