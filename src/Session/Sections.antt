-- ===== src/Session/Sections.antt =====
-- The sections of the threads of a session, and the invariant that each of them keeps.
use easy_uds.Prelude.{
  ℕ, ◌+◌, ◌≡◌, ◌≢◌, ◌⊎◌, ◌≤◌, refl, sym, ◌∙◌, ap, subst, arith, inl, inr, true, false, List, [],
  ◌∷◌, ◌++◌, none, some, ◌==◌, Bool-cases, Option-cases, Exception,
}
use easy_uds.Output.{Response}
use easy_uds.Session.{
  sending, Call, Reader, reading, failing, stopped, Session, shard_count, shard_for, empty_slot,
  find_call, update_call, caller_round, answered, fail_all, fetch_id, try_register, caller_moves,
  leave, fail_reader, deliver, fail_shard, unexpected, duplicate,
}
use easy_uds.Session.Steps.{
  Heard, Step, fetches, registers, moves, breaks, leaves, delivers, reader_fails, sweeps,
}
use easy_uds.Session.Calls.{
  caller_round-IsSound, answered-IsSound, fail_all-AllSound, Distinct-fail_all,
}
use easy_uds.Session.Invariant.{
  AllSound, Distinct, AllSound-more, AllSound-update_call, AllSound-erase_call,
  Distinct-update_call, Distinct-erase_call,
}

-- The shards that the `catch` block has walked.
abbrev pub swept_by : Reader → ℕ
swept_by reading = 0
swept_by (failing e shard) = shard
swept_by stopped = shard_count

pub record IsSession (heard : Heard) (s : Session) : Type 0 where
  pub sound : AllSound heard (swept_by s.reader) s.calls
  pub distinct : Distinct s.calls
  pub whole_or_broken : (s.reader ≡ reading) ⊎ (s.broken ≡ true)

-- A state whose calls alone differ.
with_calls :
    (heard : Heard) (s : Session) (cs : List Call)
    → AllSound heard (swept_by s.reader) cs
    → Distinct cs
    → IsSession heard s
    → IsSession heard (record s { calls = cs })
with_calls heard s cs a d h = record {
  sound = a;
  distinct = d;
  whole_or_broken = h.whole_or_broken;
}

added-IsSession :
    (heard : Heard) (id : ℕ) (s : Session)
    → id ≢ 0
    → s.broken ≡ false
    → find_call id s.calls ≡ none
    → IsSession heard s
    → IsSession heard (record s {
      calls = record { request_id = id; stage = sending; slot = empty_slot } ∷ s.calls;
    })
added-IsSession heard id s nz whole missing h =
    let idle : s.reader ≡ reading = elim h.whole_or_broken [ inl e ↦ e | inr e ↦ cc ] in
    with_calls heard s _
      (
        record {
          nonzero = nz;
          settled = inl (refl, refl);
          swept_done = inl (subst (λ r. swept_by r ≤ shard_for id) (sym idle) (omega arith));
          leaves_done = tt;
        },
        h.sound,
      )
      (missing, h.distinct) h

try_register-IsSession :
    (heard : Heard) (id : ℕ) (s : Session)
    → IsSession heard s
    → IsSession heard (try_register id s).1
unfolding try_register
try_register-IsSession heard id s h = elim (Bool-cases (id == 0)) [
  | inl zero' ↦ simp zero' h
  | inr nz ↦ elim (Bool-cases s.broken) [
    | inl gone ↦ simp (nz, gone) h
    | inr whole ↦ elim (Option-cases (find_call id s.calls)) [
      | inl missing ↦
          simp (nz, whole, missing)
            (subst
              (λ b. IsSession heard (record s {
                broken = b;
                calls = record { request_id = id; stage = sending; slot = empty_slot } ∷ s.calls;
              }))
              whole (added-IsSession heard id s (ground arith) whole missing h))
      | inr (c, there) ↦ simp (nz, whole, there) h
    ]
  ]
]

fail_reader-IsSession :
    (heard : Heard) (e : Exception) (s : Session)
    → s.reader ≡ reading
    → IsSession heard s
    → IsSession heard (fail_reader e s)
fail_reader-IsSession heard e s reads h = record {
  sound = subst (λ r. AllSound heard (swept_by r) s.calls) reads h.sound;
  distinct = h.distinct;
  whole_or_broken = inr refl;
}

find_call_id : (id : ℕ) (cs : List Call) (c : Call) → find_call id cs ≡ some c → c.request_id ≡ id
find_call_id id [] c h = cc
find_call_id id (d ∷ cs) c h = elim (Bool-cases (d.request_id == id)) [
  | inl here ↦
      let same = rw here at h in
      let found : d ≡ c = cc in ap (λ (x : Call). x.request_id) (sym found) ∙ ground arith
  | inr there ↦ find_call_id id cs c (rw there at h)
]

deliver-IsSession :
    (heard : Heard) (id : ℕ) (r : Response) (s : Session)
    → s.reader ≡ reading
    → IsSession heard s
    → IsSession ((id, r) ∷ heard) (deliver id r s)
unfolding deliver
deliver-IsSession heard id r s reads h =
    let more : IsSession ((id, r) ∷ heard) s = record {
      sound = AllSound-more heard (id, r) (swept_by s.reader) s.calls h.sound;
      distinct = h.distinct;
      whole_or_broken = h.whole_or_broken;
    } in
    elim (Option-cases (find_call id s.calls)) [
      | inl missing ↦
          rw (missing, deliver) (fail_reader-IsSession ((id, r) ∷ heard) unexpected s reads more)
      | inr (c, there) ↦ elim (Bool-cases c.slot.done) [
        | inl done ↦
            rw (there, done, deliver)
              (fail_reader-IsSession ((id, r) ∷ heard) duplicate s reads more)
        | inr waits ↦
            rw (there, waits, deliver)
              (with_calls ((id, r) ∷ heard) s (update_call id (answered r) s.calls)
                (AllSound-update_call ((id, r) ∷ heard) (swept_by s.reader) id (answered r) s.calls
                  (λ d e sound.
                    let same : c ≡ d = cc in
                    answered-IsSound ((id, r) ∷ heard) (swept_by s.reader) id r d
                      (find_call_id id s.calls d e)
                      (ap (λ (x : Call). x.slot.done) (sym same) ∙ waits) (inl refl) sound)
                  more.sound)
                (Distinct-update_call id (answered r) s.calls (λ d. refl) more.distinct) more)
      ]
    ]

fail_shard-IsSession :
    (heard : Heard) (e : Exception) (shard : ℕ) (s : Session)
    → s.reader ≡ failing e shard
    → IsSession heard s
    → IsSession heard (fail_shard e shard s)
unfolding fail_shard
fail_shard-IsSession heard e shard s fails h =
    let sound =
      fail_all-AllSound heard shard e s.calls
        (subst (λ r. AllSound heard (swept_by r) s.calls) fails h.sound) in
    let gone : s.broken ≡ true = elim h.whole_or_broken [ inl x ↦ cc | inr x ↦ x ] in
    record {
      sound = elim (Bool-cases (shard + 1 == shard_count)) [
        | inl last ↦
            let all : shard + 1 ≡ shard_count = ground arith in
            rw last (subst (λ n. AllSound heard n (fail_all shard e s.calls)) all sound)
        | inr more ↦ rw more sound
      ];
      distinct = Distinct-fail_all shard e s.calls h.distinct;
      whole_or_broken = inr gone;
    }

pub IsSession-Step :
    (heard more : Heard) (s t : Session)
    → Step s more t
    → IsSession heard s
    → IsSession (more ++ heard) t
unfolding fetch_id caller_moves leave
IsSession-Step heard more s t fetches h = record {
  sound = h.sound;
  distinct = h.distinct;
  whole_or_broken = h.whole_or_broken;
}
IsSession-Step heard more s t (registers id) h = try_register-IsSession heard id s h
IsSession-Step heard more s t (moves id w c e) h =
    with_calls heard s _
      (AllSound-update_call heard (swept_by s.reader) id (caller_round w c e) s.calls
        (λ d f sound. caller_round-IsSound heard (swept_by s.reader) w c e d sound) h.sound)
      (Distinct-update_call id (caller_round w c e) s.calls (λ d. refl) h.distinct) h
IsSession-Step heard more s t breaks h = record {
  sound = h.sound;
  distinct = h.distinct;
  whole_or_broken = inr refl;
}
IsSession-Step heard more s t (leaves id) h =
    with_calls heard s _ (AllSound-erase_call heard (swept_by s.reader) id s.calls h.sound)
      (Distinct-erase_call id s.calls h.distinct) h
IsSession-Step heard more s t (delivers id r reads) h = deliver-IsSession heard id r s reads h
IsSession-Step heard more s t (reader_fails e reads) h = fail_reader-IsSession heard e s reads h
IsSession-Step heard more s t (sweeps e shard fails) h =
    fail_shard-IsSession heard e shard s fails h
