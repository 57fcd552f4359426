-- ===== src/Scheduler/Queues.antt =====
-- The queue of each domain inside the one deque, and what the operations' loops do to it.
use easy_uds.Prelude.{
  ◌+◌, ◌≡◌, ◌≢◌, inl, inr, refl, ◌∙◌, ap, arith, true, false, List, [], ◌∷◌, ◌++◌, Option, none,
  some, if◌then◌else◌, Bool-cases, Option-cases, subst, length,
}
use easy_uds.Routes.{Route, route_eq, route_eq_refl}
use easy_uds.Scheduler.{
  SerializedJob, serialized_job_domain, serialized_domain_active, Scheduler, is_superseded,
}
use easy_uds.Scheduler.Operations.{kept, superseded, find_runnable}
use easy_uds.Scheduler.Activities.{route_cases, not_same}

unfoldable pub domain_queue : Route → List SerializedJob → List SerializedJob
domain_queue d [] = []
domain_queue d (job ∷ jobs) =
    let rest = domain_queue d jobs in
    if route_eq (serialized_job_domain job) d then job ∷ rest else rest

pub domain_queue-snoc :
    (d : Route) (jobs : List SerializedJob) (job : SerializedJob)
    → domain_queue d (jobs ++ job ∷ []) ≡ (
        if route_eq (serialized_job_domain job) d
        then domain_queue d jobs ++ job ∷ []
        else domain_queue d jobs)
unfolding domain_queue
domain_queue-snoc d [] job = refl
domain_queue-snoc d (x ∷ jobs) job =
    let ih = domain_queue-snoc d jobs job in
    elim (Bool-cases (route_eq (serialized_job_domain job) d)) [
      | inl t ↦ ground arith
      | inr f ↦ ground arith
    ]

-- The removal of superseded jobs acts on the queue of each domain by itself.
pub domain_queue-kept :
    (d : Route) (job : SerializedJob) (jobs : List SerializedJob)
    → domain_queue d (kept job jobs) ≡ kept job (domain_queue d jobs)
unfolding domain_queue kept
domain_queue-kept d job [] = refl
domain_queue-kept d job (x ∷ jobs) =
    let ih = domain_queue-kept d job jobs in
    elim (Bool-cases (is_superseded job x)) [ inl t ↦ ground arith | inr f ↦ ground arith ]

-- A superseded job has the domain of the new one.
superseded_domain :
    (job x : SerializedJob)
    → is_superseded job x ≡ true
    → route_eq (serialized_job_domain x) (serialized_job_domain job) ≡ true
unfolding is_superseded
superseded_domain job x h = ground arith

pub length-superseded :
    (job : SerializedJob) (jobs : List SerializedJob)
    → length (domain_queue (serialized_job_domain job) jobs)
      ≡ length (domain_queue (serialized_job_domain job) (kept job jobs))
        + length (superseded job jobs)
unfolding domain_queue kept superseded
length-superseded job [] = refl
length-superseded job (x ∷ jobs) =
    let ih = length-superseded job jobs in
    elim (Bool-cases (is_superseded job x)) [
      | inl t ↦ let same = superseded_domain job x t in ground arith
      | inr f ↦ ground arith
    ]

-- The other domains keep their queues.
pub domain_queue-kept_other :
    (d : Route) (job : SerializedJob) (jobs : List SerializedJob)
    → route_eq (serialized_job_domain job) d ≡ false
    → domain_queue d (kept job jobs) ≡ domain_queue d jobs
unfolding domain_queue kept is_superseded
domain_queue-kept_other d job [] h = refl
domain_queue-kept_other d job (x ∷ jobs) h =
    let ih = domain_queue-kept_other d job jobs h in
    elim (route_cases (serialized_job_domain x) (serialized_job_domain job)) [
      | inl (t, same) ↦
          let off : route_eq (serialized_job_domain x) d ≡ false =
            ap (λ r. route_eq r d) same ∙ h in
          ground arith
      | inr (f, other) ↦ ground arith
    ]

-- The job that a worker takes heads the queue of its domain, which had no job running; the other
-- queues stay.
pub record Takes (s : Scheduler) (jobs : List SerializedJob) (job : SerializedJob)
    (rest : List SerializedJob) : Type 0 where
  pub was_free : serialized_domain_active (serialized_job_domain job) s ≡ false
  pub head :
      domain_queue (serialized_job_domain job) jobs
      ≡ job ∷ domain_queue (serialized_job_domain job) rest
  pub others :
      (d : Route)
      → route_eq (serialized_job_domain job) d ≡ false
      → domain_queue d jobs ≡ domain_queue d rest

first-Takes :
    (s : Scheduler) (x : SerializedJob) (jobs : List SerializedJob)
    → serialized_domain_active (serialized_job_domain x) s ≡ false
    → Takes s (x ∷ jobs) x jobs
unfolding domain_queue
first-Takes s x jobs free = record {
  was_free = free;
  head = rw (route_eq_refl (serialized_job_domain x));
  others = λ d f. rw f;
}

later-Takes :
    (s : Scheduler) (x : SerializedJob) (jobs : List SerializedJob) (y : SerializedJob)
    (rest : List SerializedJob)
    → serialized_domain_active (serialized_job_domain x) s ≡ true
    → Takes s jobs y rest
    → Takes s (x ∷ jobs) y (x ∷ rest)
unfolding domain_queue
later-Takes s x jobs y rest taken t =
    let differ : serialized_job_domain x ≢ serialized_job_domain y = λ same.
      let bad = ap (λ r. serialized_domain_active r s) same in let free = t.was_free in cc in
    let f = not_same _ _ differ in
    record {
      was_free = t.was_free;
      head = rw f t.head;
      others = λ d g. let tail = t.others d g in ground arith;
    }

moved-Takes :
    {s : Scheduler} {jobs : List SerializedJob} {x y : SerializedJob} {xs ys : List SerializedJob}
    → ◌≡◌ {A = Option (SerializedJob × List SerializedJob)} (some (x, xs)) (some (y, ys))
    → Takes s jobs x xs
    → Takes s jobs y ys
moved-Takes {s} {jobs} {x} {y} {xs} {ys} h t =
    let a : x ≡ y = cc in
    let b : xs ≡ ys = cc in subst (λ j. Takes s jobs j ys) a (subst (λ r. Takes s jobs x r) b t)

pub find_runnable-Takes :
    (s : Scheduler) (jobs : List SerializedJob) (job : SerializedJob) (rest : List SerializedJob)
    → find_runnable s jobs ≡ some (job, rest)
    → Takes s jobs job rest
unfolding find_runnable domain_queue
find_runnable-Takes s [] job rest h = cc
find_runnable-Takes s (x ∷ jobs) job rest h =
    elim (Bool-cases (serialized_domain_active (serialized_job_domain x) s)) [
      | inr free ↦
          let found : ◌≡◌ {A = Option (SerializedJob × List SerializedJob)} (some (x, jobs))
              (some (job, rest)) =
            rw (find_runnable, free) at h in
          moved-Takes found (first-Takes s x jobs free)
      | inl taken ↦ elim (Option-cases (find_runnable s jobs)) [
        | inl e ↦ let bad = rw (find_runnable, taken, e) at h in cc
        | inr ((y, others), e) ↦
            let found : ◌≡◌ {A = Option (SerializedJob × List SerializedJob)} (some (y, x ∷ others))
                (some (job, rest)) =
              rw (find_runnable, taken, e) at h in
            moved-Takes found
              (later-Takes s x jobs y others taken (find_runnable-Takes s jobs y others e))
      ]
    ]

-- Where the search finds no job, every waiting job's domain runs one.
pub find_runnable-none :
    (s : Scheduler) (jobs : List SerializedJob)
    → find_runnable s jobs ≡ none
    → (d : Route) → domain_queue d jobs ≢ []
    → serialized_domain_active d s ≡ true
unfolding find_runnable domain_queue
find_runnable-none s [] h d some_job = absurd (some_job refl)
find_runnable-none s (x ∷ jobs) h d some_job =
    elim (Bool-cases (serialized_domain_active (serialized_job_domain x) s)) [
      | inr free ↦ let bad = rw (find_runnable, free) at h in cc
      | inl taken ↦ elim (Option-cases (find_runnable s jobs)) [
        | inr ((y, others), e) ↦ let bad = rw (find_runnable, taken, e) at h in cc
        | inl e ↦ elim (route_cases (serialized_job_domain x) d) [
          | inl (t, same) ↦ subst (λ r. serialized_domain_active r s ≡ true) same taken
          | inr (f, other) ↦ find_runnable-none s jobs e d (rw (domain_queue, f) at some_job)
        ]
      ]
    ]
