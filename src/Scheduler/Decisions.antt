-- ===== src/Scheduler/Decisions.antt =====
-- Which jobs the scheduler turns away, and where an accepted one stands.
use easy_uds.Prelude.{
  ◌+◌, ◌≡◌, ◌<◌, ◌↔◌, ◌⊎◌, inl, inr, refl, arith, true, false, not, ◌||◌, List, [], ◌∷◌, ◌++◌, ◌==◌,
  if◌then◌else◌, Bool-cases, Option-cases, length,
}
use easy_uds.Routes.{Route, route_eq, route_eq_refl}
use easy_uds.Scheduler.{
  SerializedJob, serialized_job_domain, accepted, busy, stopping, Scheduler, activity_of,
  put_activity, find_serialized_domain_activity, serialized_domain_activity, serialized_domain_busy,
  is_latest_wins, is_reject_if_busy,
}
use easy_uds.Scheduler.Operations.{
  kept, superseded, push_job, replace_jobs, Admission, admit_job, refuse, admit,
}
use easy_uds.Scheduler.Queues.{
  domain_queue, domain_queue-snoc, domain_queue-kept, domain_queue-kept_other,
}
use easy_uds.Scheduler.Invariant.{IsConsistent}
use easy_uds.Scheduler.Admission.{
  prepared-IsConsistent, is_halted, prepared, admit-open, admit-halted,
}

-- A job of the domain waits or runs.
abbrev pub HasJobs : Route → Scheduler → Type 0
HasJobs d s =
    0 < length (domain_queue d s.pending_serialized) + length (domain_queue d s.running_jobs)

pub serialized_domain_busy-activity :
    (d : Route) (s : Scheduler)
    → serialized_domain_busy d s ≡ ((activity_of d s).active || not ((activity_of d s).queued == 0))
unfolding serialized_domain_busy activity_of
serialized_domain_busy-activity d s = elim (Option-cases (find_serialized_domain_activity d s)) [
  | inl e ↦ ground arith
  | inr (a, e) ↦ ground arith
]

pub serialized_domain_busy_iff :
    (d : Route) (s : Scheduler) → IsConsistent s → (serialized_domain_busy d s ≡ true) ↔ HasJobs d s
serialized_domain_busy_iff d s c =
    let b = serialized_domain_busy-activity d s in
    let q = c.queued_exact d in let r = c.active_exact d in ((λ h. ground arith), λ h. ground arith)

-- What becomes of the queue of the job's domain: the job is last, after the jobs that a
-- `latest_wins` job leaves.
abbrev pub joined : SerializedJob → List SerializedJob → List SerializedJob
joined job queue =
    (if is_latest_wins job.scheduling.policy then kept job queue else queue) ++ job ∷ []

abbrev pub removed : SerializedJob → Scheduler → List SerializedJob
removed job s =
    if is_latest_wins job.scheduling.policy then superseded job s.pending_serialized else []

pub record Joins (job : SerializedJob) (s : Scheduler) (a : Admission) : Type 0 where
  pub is_accepted : a.admission ≡ accepted
  pub moved_away : a.replaced ≡ removed job s
  pub running_same : a.scheduler.running_jobs ≡ s.running_jobs
  pub queue_own :
      domain_queue (serialized_job_domain job) a.scheduler.pending_serialized
      ≡ joined job (domain_queue (serialized_job_domain job) s.pending_serialized)
  pub queue_other :
      (e : Route)
      → route_eq (serialized_job_domain job) e ≡ false
      → domain_queue e a.scheduler.pending_serialized ≡ domain_queue e s.pending_serialized

pub admit_job-pending :
    (job : SerializedJob) (s : Scheduler)
    → (admit_job job s).scheduler.pending_serialized ≡ joined job s.pending_serialized
unfolding admit_job push_job replace_jobs put_activity
admit_job-pending job s = ground arith

admit_job-running :
    (job : SerializedJob) (s : Scheduler)
    → (admit_job job s).scheduler.running_jobs ≡ s.running_jobs
unfolding admit_job push_job replace_jobs put_activity
admit_job-running job s = ground arith

pub admit_job-decides :
    (job : SerializedJob) (s : Scheduler)
    → ((admit_job job s).admission ≡ accepted) × ((admit_job job s).replaced ≡ removed job s)
unfolding admit_job
admit_job-decides job s = (ground arith, ground arith)

joined-own :
    (job : SerializedJob) (queue : List SerializedJob)
    → domain_queue (serialized_job_domain job) (joined job queue)
      ≡ joined job (domain_queue (serialized_job_domain job) queue)
joined-own job queue =
    let d = serialized_job_domain job in
    let own = route_eq_refl d in
    let a = domain_queue-snoc d queue job in
    let b = domain_queue-snoc d (kept job queue) job in
    let k = domain_queue-kept d job queue in ground arith

joined-other :
    (job : SerializedJob) (queue : List SerializedJob) (e : Route)
    → route_eq (serialized_job_domain job) e ≡ false
    → domain_queue e (joined job queue) ≡ domain_queue e queue
joined-other job queue e f =
    let a = domain_queue-snoc e queue job in
    let b = domain_queue-snoc e (kept job queue) job in
    let k = domain_queue-kept_other e job queue f in ground arith

admit_job-Joins : (job : SerializedJob) (s : Scheduler) → Joins job s (admit_job job s)
admit_job-Joins job s =
    let (is_in, gone) = admit_job-decides job s in
    record {
      is_accepted = is_in;
      moved_away = gone;
      running_same = admit_job-running job s;
      queue_own = rw (admit_job-pending job s) (joined-own job s.pending_serialized);
      queue_other = λ e f. rw (admit_job-pending job s) (joined-other job s.pending_serialized e f);
    }

prepared-Joins :
    (job : SerializedJob) (s : Scheduler) {a : Admission}
    → Joins job (prepared job s) a
    → Joins job s a
unfolding serialized_domain_activity put_activity
prepared-Joins job s j = record {
  is_accepted = j.is_accepted;
  moved_away = j.moved_away;
  running_same = j.running_same;
  queue_own = j.queue_own;
  queue_other = j.queue_other;
}

-- The refusal of a `reject_if_busy` job.
pub record IsRefused (s : Scheduler) (a : Admission) : Type 0 where
  pub is_busy : a.admission ≡ busy
  pub none_moved : a.replaced ≡ []
  pub pending_same : a.scheduler.pending_serialized ≡ s.pending_serialized
  pub running_same : a.scheduler.running_jobs ≡ s.running_jobs

-- From a consistent state, a job is turned away as stopping, with nothing changed, when the server
-- is stopping or not running. Otherwise a `reject_if_busy` job whose domain has a job is refused as
-- busy, with the same jobs waiting and running. Every other job is accepted: its domain's queue
-- ends with it, without the jobs that a `latest_wins` job replaces, which the call returns; the
-- other domains' queues and the running jobs stay.
pub admit-cases :
    (job : SerializedJob) (s : Scheduler)
    → IsConsistent s
    → ((is_halted s ≡ true) × (admit job s ≡ refuse stopping s))
      ⊎ ((is_halted s ≡ false)
          × (is_reject_if_busy job.scheduling.policy ≡ true)
          × HasJobs (serialized_job_domain job) s
          × IsRefused s (admit job s))
      ⊎ ((is_halted s ≡ false)
          × ((is_reject_if_busy job.scheduling.policy ≡ false)
              ⊎ (¬ HasJobs (serialized_job_domain job) s))
          × Joins job s (admit job s))
unfolding serialized_domain_activity put_activity
admit-cases job s c =
    let d = serialized_job_domain job in
    let p = serialized_domain_busy_iff d (prepared job s) (prepared-IsConsistent job s c) in
    elim (Bool-cases (is_halted s)) [
      | inl h ↦ inl (h, admit-halted job s h)
      | inr h ↦ elim (Bool-cases (is_reject_if_busy job.scheduling.policy)) [
        | inr r ↦ inr (
            inr (
              h,
              inl r,
              rw (admit-open job s h, r)
                  (prepared-Joins job s (admit_job-Joins job (prepared job s))),
            ))
        | inl r ↦ elim (Bool-cases (serialized_domain_busy d (prepared job s))) [
          | inl b ↦ inr (
              inl (
                h,
                r,
                p.0 b,
                rw (admit-open job s h, r, b)
                    (record {
                      is_busy = refl;
                      none_moved = refl;
                      pending_same = refl;
                      running_same = refl;
                    }),
              ))
          | inr b ↦ inr (
              inr (
                h,
                inr (λ j. let t = p.1 j in cc),
                rw (admit-open job s h, r, b)
                    (prepared-Joins job s (admit_job-Joins job (prepared job s))),
              ))
        ]
      ]
    ]
