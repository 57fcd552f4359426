-- ===== src/Scheduler/Safety.antt =====
-- The reachable states of the scheduler: how many jobs of a domain run, and in which order.
use easy_uds.Prelude.{
  ℕ, ◌+◌, ◌≡◌, ◌≤◌, ◌<◌, refl, sym, ◌∙◌, ap, subst, arith, Bool, true, false, List, [], ◌∷◌, ◌++◌,
  some, length, length-append,
}
use easy_uds.Routes.{Route, route_eq, route_eq_refl}
use easy_uds.Scheduler.{
  SerializedJob, serialized_job_domain, idle, Scheduler, activity_of, put_activity,
  find_serialized_domain_activity, serialized_domain_activity, activate_serialized_domain,
  deactivate_serialized_domain,
}
use easy_uds.Scheduler.Operations.{start_job, take_serialized_job, end_job}
use easy_uds.Scheduler.Activities.{domain_sum-put}
use easy_uds.Scheduler.Queues.{domain_queue, Takes}
use easy_uds.Scheduler.Invariant.{busy_weight, serialized_domain_active-activity}
use easy_uds.Scheduler.Running.{start_job-IsConsistent, length-middle, end_job-IsConsistent}
use easy_uds.Scheduler.Steps.{
  Step, enqueue, take_job, finish, shut_down, stop_serialized, Reaches, start, step, take-start,
  fresh-IsConsistent, IsSound, admit-IsSound,
}

empty-length : (q : List SerializedJob) → length q ≡ 0 → q ≡ []
empty-length [] h = refl
empty-length (x ∷ q) h = absurd (omega arith)

start_job-IsSound :
    (job : SerializedJob) (rest : List SerializedJob) (s : Scheduler)
    → length s.running_jobs < s.serialized_worker_count
    → Takes s s.pending_serialized job rest
    → IsSound s
    → IsSound (start_job job rest s)
unfolding start_job serialized_domain_activity put_activity activate_serialized_domain
start_job-IsSound job rest s idle_worker t c =
    let more = length-append s.running_jobs (job ∷ []) in
    record {
      consistent = start_job-IsConsistent job rest s t c.consistent;
      running_count = omega (arith, c.running_count, more);
      enough_workers = c.enough_workers;
      few_workers = c.few_workers;
      workers_run = omega (arith, more);
    }

end_job-counts :
    (job : SerializedJob) (others : List SerializedJob) (s : Scheduler)
    → (activity_of (serialized_job_domain job) s).active ≡ true
    → 0 < s.active_serialized_domain_count
    → busy_weight (activity_of (serialized_job_domain job) s) ≤ s.busy_serialized_domain_count
    → ((end_job job others s).active_serialized_domain_count + 1 ≡ s.active_serialized_domain_count)
      × ((end_job job others s).busy_serialized_domain_count ≤ s.busy_serialized_domain_count)
      × ((end_job job others s).serialized_worker_count ≡ s.serialized_worker_count)
      × ((end_job job others s).max_serialized_concurrency ≡ s.max_serialized_concurrency)
unfolding end_job deactivate_serialized_domain put_activity
end_job-counts job others s a n b = (ground arith, ground arith, ground arith, ground arith)

end_job-IsSound :
    (before : List SerializedJob) (job : SerializedJob) (after : List SerializedJob) (s : Scheduler)
    → s.running_jobs ≡ before ++ job ∷ after
    → IsSound s
    → IsSound (end_job job (before ++ after) s)
unfolding end_job
end_job-IsSound before job after s shape c =
    let d = serialized_job_domain job in
    let of_domain =
      c.consistent.active_exact d
      ∙ ap (λ q. length (domain_queue d q)) shape
      ∙ length-middle d job before after in
    let own = route_eq_refl d in
    let is_active : (activity_of d s).active ≡ true = ground arith in
    let all : length s.running_jobs ≡ length (before ++ after) + 1 =
      ap (λ (q : List SerializedJob). length q) shape
      ∙ omega (arith, length-append before (job ∷ after), length-append before after) in
    let lowest = domain_sum-put busy_weight d idle s refl in
    let (active, busy, workers, limit) =
      end_job-counts job (before ++ after) s is_active (omega (arith, c.running_count))
        (omega (arith, c.consistent.busy_count)) in
    record {
      consistent = end_job-IsConsistent job before after s shape c.consistent;
      running_count = omega (arith, c.running_count);
      enough_workers = rw (workers, limit) (omega (arith, c.enough_workers));
      few_workers = rw (workers, limit) c.few_workers;
      workers_run = rw workers (omega (arith, c.workers_run));
    }

-- The flags of the shutdown stand in no part of the invariant.
flags-IsSound :
    (s : Scheduler) (r q : Bool)
    → IsSound s
    → IsSound (record s { is_running = r; serialized_stopping = q })
unfolding activity_of find_serialized_domain_activity
flags-IsSound s r q c =
    let k = c.consistent in
    record {
      consistent = record {
        queued_exact = k.queued_exact;
        active_exact = k.active_exact;
        active_count = k.active_count;
        busy_count = k.busy_count;
      };
      running_count = c.running_count;
      enough_workers = c.enough_workers;
      few_workers = c.few_workers;
      workers_run = c.workers_run;
    }

Step-IsSound : (s t : Scheduler) → Step s t → IsSound s → IsSound t
Step-IsSound s t (enqueue job) c = admit-IsSound job s c
Step-IsSound s t (take_job job t' worker taken) c =
    let (rest, takes, same) = take-start s job t' taken in
    subst IsSound (sym same) (start_job-IsSound job rest s worker takes c)
Step-IsSound s t (finish before job after shape) c = end_job-IsSound before job after s shape c
Step-IsSound s t shut_down c = flags-IsSound s false s.serialized_stopping c
Step-IsSound s t stop_serialized c = flags-IsSound s s.is_running true c

-- Every state that the sections of the threads reach, in any order, is sound.
pub Reaches-IsSound : (concurrency : ℕ) (s : Scheduler) → Reaches concurrency s → IsSound s
Reaches-IsSound n s start = record {
  consistent = fresh-IsConsistent n;
  running_count = refl;
  enough_workers = omega arith;
  few_workers = omega arith;
  workers_run = omega arith;
}
Reaches-IsSound n t (step s t' r m) = Step-IsSound s t m (Reaches-IsSound n s r)

-- At no reachable moment do two jobs of one domain run, and at most as many jobs run as the limit on
-- the domains says.
pub one_job_per_domain :
    (concurrency : ℕ) (s : Scheduler)
    → Reaches concurrency s
    → ((d : Route) → length (domain_queue d s.running_jobs) ≤ 1)
      × (length s.running_jobs ≤ s.max_serialized_concurrency)
one_job_per_domain n s r =
    let c = Reaches-IsSound n s r in
    (
      (λ d. let h = c.consistent.active_exact d in ground arith),
      omega (arith, c.workers_run, c.few_workers),
    )

-- A worker of a reachable scheduler takes the first waiting job of the job's domain, which runs no
-- job then; the job joins the running ones, and the queues of the other domains stay.
pub take_serialized_job-order :
    (concurrency : ℕ) (s : Scheduler) (job : SerializedJob) (t : Scheduler)
    → Reaches concurrency s
    → take_serialized_job s ≡ some (job, t)
    → (domain_queue (serialized_job_domain job) s.pending_serialized
        ≡ job ∷ domain_queue (serialized_job_domain job) t.pending_serialized)
      × (domain_queue (serialized_job_domain job) s.running_jobs ≡ [])
      × (t.running_jobs ≡ s.running_jobs ++ job ∷ [])
      × ((e : Route)
          → route_eq (serialized_job_domain job) e ≡ false
          → domain_queue e t.pending_serialized ≡ domain_queue e s.pending_serialized)
unfolding start_job
take_serialized_job-order n s job t r h =
    let (rest, takes, same) = take-start s job t h in
    let d = serialized_job_domain job in
    let free = sym (serialized_domain_active-activity d s) ∙ takes.was_free in
    let none_runs = (Reaches-IsSound n s r).consistent.active_exact d in
    rw same (takes.head, empty-length _ (ground arith), refl, λ e f. sym (takes.others e f))
