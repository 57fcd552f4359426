-- ===== src/Scheduler/Steps.antt =====
-- The scheduler under every interleaving of its critical sections, from its start.
use easy_uds.Prelude.{
  ℕ, ◌+◌, ◌≡◌, ◌≤◌, ◌<◌, inl, inr, refl, sym, ◌∙◌, ap, subst, arith, true, false, not, ◌&&◌, List,
  [], ◌∷◌, ◌++◌, Option, some, Bool-cases, Option-cases, length, min,
}
use easy_uds.Registry.{bit}
use easy_uds.Scheduler.{
  SerializedJob, serialized_job_domain, idle, Scheduler, activity_of, put_activity,
  find_serialized_domain_activity, find_named, serialized_domain_activity, serialized_domain_busy,
  desired_serialized_worker_count, is_reject_if_busy,
}
use easy_uds.Scheduler.Operations.{
  push_job, replace_jobs, admit_job, admit, find_runnable, start_job, take_serialized_job, end_job,
}
use easy_uds.Scheduler.Queues.{domain_queue, Takes, find_runnable-Takes}
use easy_uds.Scheduler.Invariant.{IsConsistent}
use easy_uds.Scheduler.Admission.{is_halted, prepared, admit-halted, admit-open, admit-IsConsistent}
use easy_uds.Scheduler.Decisions.{serialized_domain_busy-activity}

-- A server that runs, with no job yet.
abbrev pub fresh : ℕ → Scheduler
fresh concurrency = record {
  pending_serialized = [];
  default_activity = idle;
  named_activity = [];
  active_serialized_domain_count = 0;
  busy_serialized_domain_count = 0;
  serialized_worker_count = 0;
  max_serialized_concurrency = concurrency;
  is_running = true;
  serialized_stopping = false;
  running_jobs = [];
}

-- One section of some thread. A worker takes a job when it has none.
pub data Step (s : Scheduler) : Scheduler → Type 0 where
  enqueue : (job : SerializedJob) → Step s (admit job s).scheduler
  take_job :
      (job : SerializedJob) (t : Scheduler)
      → length s.running_jobs < s.serialized_worker_count
      → take_serialized_job s ≡ some (job, t)
      → Step s t
  finish :
      (before : List SerializedJob) (job : SerializedJob) (after : List SerializedJob)
      → s.running_jobs ≡ before ++ job ∷ after
      → Step s (end_job job (before ++ after) s)
  shut_down : Step s (record s { is_running = false })
  stop_serialized : Step s (record s { serialized_stopping = true })

pub data Reaches (concurrency : ℕ) : Scheduler → Type 0 where
  start : Reaches concurrency (fresh concurrency)
  step : (s t : Scheduler) → Reaches concurrency s → Step s t → Reaches concurrency t

pub take-start :
    (s : Scheduler) (job : SerializedJob) (t : Scheduler)
    → take_serialized_job s ≡ some (job, t)
    → (rest : List SerializedJob) × Takes s s.pending_serialized job rest
      × (t ≡ start_job job rest s)
unfolding take_serialized_job
take-start s job t h = elim (Option-cases (find_runnable s s.pending_serialized)) [
  | inl e ↦ let bad = rw (take_serialized_job, e) at h in cc
  | inr ((y, rest), e) ↦
      let same : ◌≡◌ {A = Option (SerializedJob × Scheduler)} (some (y, start_job y rest s))
          (some (job, t)) =
        rw (take_serialized_job, e) at h in
      let j : y ≡ job = cc in
      (
        rest,
        subst (λ x. Takes s s.pending_serialized x rest) j
            (find_runnable-Takes s s.pending_serialized y rest e),
        ground arith,
      )
]

pub fresh-IsConsistent : (n : ℕ) → IsConsistent (fresh n)
unfolding activity_of find_serialized_domain_activity find_named domain_queue
fresh-IsConsistent n = record {
  queued_exact = λ d. ground arith;
  active_exact = λ d. ground arith;
  active_count = refl;
  busy_count = refl;
}

-- The invariant: what the counters mean, that active domains and running jobs are as many, and that
-- there are as many workers as the busy domains need, up to the limit, and as the running jobs have.
pub record IsSound (s : Scheduler) : Type 0 where
  pub consistent : IsConsistent s
  pub running_count : s.active_serialized_domain_count ≡ length s.running_jobs
  pub enough_workers :
      min s.busy_serialized_domain_count s.max_serialized_concurrency ≤ s.serialized_worker_count
  pub few_workers : s.serialized_worker_count ≤ s.max_serialized_concurrency
  pub workers_run : length s.running_jobs ≤ s.serialized_worker_count

-- `admit` moves no running job and makes the workers that a further busy domain needs.
record Keeps (s t : Scheduler) : Type 0 where
  running_same : t.running_jobs ≡ s.running_jobs
  active_same : t.active_serialized_domain_count ≡ s.active_serialized_domain_count
  limit_same : t.max_serialized_concurrency ≡ s.max_serialized_concurrency
  workers_grow : s.serialized_worker_count ≤ t.serialized_worker_count
  workers_limited : t.serialized_worker_count ≤ s.max_serialized_concurrency
  workers_cover :
      min t.busy_serialized_domain_count s.max_serialized_concurrency ≤ t.serialized_worker_count

prepared-activity :
    (job : SerializedJob) (s : Scheduler)
    → activity_of (serialized_job_domain job) (prepared job s)
      ≡ activity_of
          (serialized_job_domain job)
          (serialized_domain_activity (serialized_job_domain job) s)
unfolding activity_of find_serialized_domain_activity
prepared-activity job s = refl

-- The push makes one more domain busy where the domain was not.
admit_job-busy :
    (job : SerializedJob) (s : Scheduler)
    → (admit_job job (prepared job s)).scheduler.busy_serialized_domain_count
      ≡ s.busy_serialized_domain_count
        + bit (
            not (
              serialized_domain_busy
                (serialized_job_domain job)
                (serialized_domain_activity (serialized_job_domain job) s)))
unfolding admit_job push_job replace_jobs serialized_domain_activity put_activity
admit_job-busy job s =
    let b =
      serialized_domain_busy-activity (serialized_job_domain job)
        (serialized_domain_activity (serialized_job_domain job) s) in
    let a = prepared-activity job s in ground (arith, b, a)

admit_job-workers :
    (job : SerializedJob) (s : Scheduler)
    → (admit_job job (prepared job s)).scheduler.serialized_worker_count
      ≡ (prepared job s).serialized_worker_count
unfolding admit_job push_job replace_jobs put_activity
admit_job-workers job s = ground arith

prepared-workers :
    (job : SerializedJob) (s : Scheduler)
    → s.serialized_worker_count ≤ s.max_serialized_concurrency
    → (s.serialized_worker_count ≤ (prepared job s).serialized_worker_count)
      × ((prepared job s).serialized_worker_count ≤ s.max_serialized_concurrency)
      × (min
            (s.busy_serialized_domain_count
              + bit (
                  not (
                    serialized_domain_busy
                      (serialized_job_domain job)
                      (serialized_domain_activity (serialized_job_domain job) s))))
            s.max_serialized_concurrency
          ≤ (prepared job s).serialized_worker_count)
unfolding serialized_domain_activity put_activity desired_serialized_worker_count
prepared-workers job s h = (omega arith, ground arith, ground arith)

admit_job-Keeps :
    (job : SerializedJob) (s : Scheduler)
    → IsSound s
    → Keeps s (admit_job job (prepared job s)).scheduler
unfolding admit_job push_job replace_jobs serialized_domain_activity put_activity
admit_job-Keeps job s c =
    let (grow, limited, cover) = prepared-workers job s c.few_workers in
    let w = admit_job-workers job s in
    record {
      running_same = ground arith;
      active_same = ground arith;
      limit_same = ground arith;
      workers_grow = rw w grow;
      workers_limited = rw w limited;
      workers_cover = rw (admit_job-busy job s, w) cover;
    }

prepared-Keeps : (job : SerializedJob) (s : Scheduler) → IsSound s → Keeps s (prepared job s)
unfolding serialized_domain_activity put_activity
prepared-Keeps job s c =
    let (grow, limited, cover) = prepared-workers job s c.few_workers in
    record {
      running_same = refl;
      active_same = refl;
      limit_same = refl;
      workers_grow = grow;
      workers_limited = limited;
      workers_cover = omega (arith, cover);
    }

Keeps-IsSound : (s t : Scheduler) → IsSound s → Keeps s t → IsConsistent t → IsSound t
Keeps-IsSound s t c k consistent =
    let running = ap (λ (q : List SerializedJob). length q) k.running_same in
    record {
      consistent = consistent;
      running_count = k.active_same ∙ c.running_count ∙ sym running;
      enough_workers = rw k.limit_same k.workers_cover;
      few_workers = rw k.limit_same k.workers_limited;
      workers_run = omega (arith, running, c.workers_run, k.workers_grow);
    }

pub admit-IsSound :
    (job : SerializedJob) (s : Scheduler) → IsSound s → IsSound (admit job s).scheduler
admit-IsSound job s c =
    let next = admit-IsConsistent job s c.consistent in
    elim (Bool-cases (is_halted s)) [
      | inl h ↦ rw (admit-halted job s h) c
      | inr h ↦
          elim (Bool-cases (
            is_reject_if_busy job.scheduling.policy
            && serialized_domain_busy (serialized_job_domain job) (prepared job s))) [
              | inl b ↦
                  Keeps-IsSound s _ c (rw (admit-open job s h, b) (prepared-Keeps job s c)) next
              | inr b ↦
                  Keeps-IsSound s _ c (rw (admit-open job s h, b) (admit_job-Keeps job s c)) next
            ]
    ]
