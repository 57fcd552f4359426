-- ===== src/Session/Waiters.antt =====
-- The callers of a session in the states that it reaches.
use easy_uds.Prelude.{
  ℕ, ◌≡◌, ◌≢◌, ◌⊎◌, refl, subst, arith, inl, inr, Bool, true, false, List, [], ◌∷◌, some, ◌==◌,
  Bool-cases, Exception, ok, err,
}
use easy_uds.Output.{Response}
use easy_uds.Session.{
  leaving, Call, stopped, Session, shard_count, find_call, try_register, registered, outcome,
}
use easy_uds.Session.Steps.{Heard, Said, Reaches, start, step}
use easy_uds.Session.Invariant.{Settled, LeavesDone, IsSound, AllSound, Distinct}
use easy_uds.Session.Sections.{swept_by, IsSession, IsSession-Step}

Reaches-IsSession : (heard : Heard) (s : Session) → Reaches heard s → IsSession heard s
Reaches-IsSession heard s start = record { sound = tt; distinct = tt; whole_or_broken = inl refl }
Reaches-IsSession heard s (step before more r s' reached one) =
    IsSession-Step before more r s' one (Reaches-IsSession before r reached)

find-IsSound :
    (heard : Heard) (swept id : ℕ) (cs : List Call) (c : Call)
    → AllSound heard swept cs
    → find_call id cs ≡ some c
    → IsSound heard swept c
find-IsSound heard swept id [] c h e = cc
find-IsSound heard swept id (d ∷ cs) c (h, hs) e = elim (Bool-cases (d.request_id == id)) [
  | inl here ↦
      let found : some d ≡ some c = rw here at e in
      let same : d ≡ c = cc in subst (λ x. IsSound heard swept x) same h
  | inr there ↦ find-IsSound heard swept id cs c hs (rw there at e)
]

abbrev pub AllNonzero : List Call → Type 0
AllNonzero [] = Unit {0}
AllNonzero (c ∷ cs) = (c.request_id ≢ 0) × AllNonzero cs

AllSound-AllNonzero :
    (heard : Heard) (swept : ℕ) (cs : List Call) → AllSound heard swept cs → AllNonzero cs
AllSound-AllNonzero heard swept [] h = tt
AllSound-AllNonzero heard swept (c ∷ cs) (h, hs) =
    (h.nonzero, AllSound-AllNonzero heard swept cs hs)

abbrev pub AllDone : List Call → Type 0
AllDone [] = Unit {0}
AllDone (c ∷ cs) = (c.slot.done ≡ true) × AllDone cs

AllSound-AllDone : (heard : Heard) (cs : List Call) → AllSound heard shard_count cs → AllDone cs
AllSound-AllDone heard [] h = tt
AllSound-AllDone heard (c ∷ cs) (h, hs) = (
  elim h.swept_done [ inl out ↦ absurd (omega arith) | inr done ↦ done ],
  AllSound-AllDone heard cs hs,
)

-- In every state that a session reaches, whatever its callers and its reader do in between, no two
-- calls in flight have the same request id, and none has the id 0.
pub in_flight-Distinct :
    (heard : Heard) (s : Session) → Reaches heard s → Distinct s.calls × AllNonzero s.calls
in_flight-Distinct heard s r =
    let h = Reaches-IsSession heard s r in
    (h.distinct, AllSound-AllNonzero heard (swept_by s.reader) s.calls h.sound)

-- No caller waits for a reader that is gone: in every reachable state where the reader has stopped,
-- each call in flight has its slot done, and no further call gets in.
pub stopped-AllDone :
    (heard : Heard) (s : Session) (id : ℕ)
    → Reaches heard s
    → s.reader ≡ stopped
    → AllDone s.calls × ((try_register id s).0 ≢ registered)
unfolding try_register
stopped-AllDone heard s id r gone =
    let h = Reaches-IsSession heard s r in
    let broken : s.broken ≡ true = elim h.whole_or_broken [ inl e ↦ cc | inr e ↦ e ] in
    (
      AllSound-AllDone heard s.calls
          (subst (λ x. AllSound heard (swept_by x) s.calls) gone h.sound),
      λ e. elim (Bool-cases (id == 0)) [
        | inl zero' ↦ let bad = rw zero' at e in cc
        | inr nz ↦ let bad = rw (nz, broken) at e in cc
      ],
    )

-- A caller that has left its waits throws, or it returns a response, and then one that came over the
-- connection with the id of its own request.
pub outcome-own :
    (heard : Heard) (s : Session) (id : ℕ) (c : Call) (own late : Bool)
    → Reaches heard s
    → find_call id s.calls ≡ some c
    → c.stage ≡ leaving own late
    → ((e : Exception) × (outcome own late c.slot ≡ err e))
      ⊎ ((r : Response) × (outcome own late c.slot ≡ ok (some r)) × Said heard c.request_id r)
unfolding outcome
outcome-own heard s id c own late r there at' =
    let h =
      find-IsSound heard (swept_by s.reader) id s.calls c (Reaches-IsSession heard s r).sound
        there in
    by_wish own late (subst (λ x. LeavesDone x c.slot) at' h.leaves_done) h.settled
  where
    by_wish :
        (own' late' : Bool)
        → LeavesDone (leaving own' late') c.slot
        → Settled heard c.request_id c.slot
        → ((e : Exception) × (outcome own' late' c.slot ≡ err e))
          ⊎ ((r : Response) × (outcome own' late' c.slot ≡ ok (some r)) × Said heard c.request_id r)
    by_wish own' true d st = inl (_, refl)
    by_wish true false d st = inl (_, refl)
    by_wish false false d st = elim st [
      | inl (waits, n) ↦ cc
      | inr rest ↦ elim rest [
        | inl (done, n, r', e, said) ↦ inr (r', rw (n, e) refl, said)
        | inr (done, x, e) ↦ inl (x, rw e refl)
      ]
    ]
