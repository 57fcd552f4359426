-- ===== src/Scheduler/Admission.antt =====
-- What an admission prepares, and the counters over it.
use easy_uds.Prelude.{
  ◌≡◌, inl, inr, refl, arith, Bool, true, false, not, ◌&&◌, ◌||◌, if◌then◌else◌, Bool-cases, min,
  max,
}
use easy_uds.Scheduler.{
  SerializedJob, serialized_job_domain, busy, stopping, Scheduler, activity_of, put_activity,
  find_serialized_domain_activity, serialized_domain_activity, serialized_domain_busy,
  ensure_serialized_worker_count, desired_serialized_worker_count, is_latest_wins,
  is_reject_if_busy,
}
use easy_uds.Scheduler.Operations.{push_job, admit_job, refuse, admit}
use easy_uds.Scheduler.Invariant.{
  IsConsistent, serialized_domain_activity-IsConsistent, push_job-IsConsistent,
  replace_jobs-IsConsistent,
}

abbrev pub is_halted : Scheduler → Bool
is_halted s = s.serialized_stopping || not s.is_running

-- The domain's entry and the worker threads made.
abbrev pub prepared : SerializedJob → Scheduler → Scheduler
prepared job s =
    let domain = serialized_job_domain job in
    let t = serialized_domain_activity domain s in
    record t {
      serialized_worker_count =
          max t.serialized_worker_count
            (min (desired_serialized_worker_count domain t) t.max_serialized_concurrency);
    }

pub admit-halted :
    (job : SerializedJob) (s : Scheduler) → is_halted s ≡ true → admit job s ≡ refuse stopping s
unfolding admit
admit-halted job s h = rw h

pub admit-open :
    (job : SerializedJob) (s : Scheduler)
    → is_halted s ≡ false
    → admit job s ≡ (
        if is_reject_if_busy job.scheduling.policy
          && serialized_domain_busy (serialized_job_domain job) (prepared job s)
        then refuse busy (prepared job s)
        else admit_job job (prepared job s))
unfolding admit serialized_domain_activity put_activity ensure_serialized_worker_count
admit-open job s h = ground arith

pub prepared-IsConsistent :
    (job : SerializedJob) (s : Scheduler) → IsConsistent s → IsConsistent (prepared job s)
unfolding activity_of find_serialized_domain_activity
prepared-IsConsistent job s c =
    let d = serialized_domain_activity-IsConsistent (serialized_job_domain job) s c in
    record {
      queued_exact = d.queued_exact;
      active_exact = d.active_exact;
      active_count = d.active_count;
      busy_count = d.busy_count;
    }

pub admit_job-IsConsistent :
    (job : SerializedJob) (s : Scheduler)
    → IsConsistent s
    → IsConsistent (admit_job job s).scheduler
unfolding admit_job push_job put_activity
admit_job-IsConsistent job s c =
    let p = push_job-IsConsistent job s c in
    elim (Bool-cases (is_latest_wins job.scheduling.policy)) [
      | inl t ↦ rw t (replace_jobs-IsConsistent job s.pending_serialized (push_job job s) refl p)
      | inr f ↦ rw f p
    ]

pub admit-IsConsistent :
    (job : SerializedJob) (s : Scheduler) → IsConsistent s → IsConsistent (admit job s).scheduler
admit-IsConsistent job s c =
    let p = prepared-IsConsistent job s c in
    elim (Bool-cases (is_halted s)) [
      | inl h ↦ rw (admit-halted job s h) c
      | inr h ↦
          elim (Bool-cases (
            is_reject_if_busy job.scheduling.policy
            && serialized_domain_busy (serialized_job_domain job) (prepared job s))) [
              | inl b ↦ rw (admit-open job s h, b) p
              | inr b ↦ rw (admit-open job s h, b) (admit_job-IsConsistent job (prepared job s) p)
            ]
    ]
