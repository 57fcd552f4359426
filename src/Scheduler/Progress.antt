-- ===== src/Scheduler/Progress.antt =====
-- The worker threads of the scheduler against the domains that have jobs.
use easy_uds.Prelude.{
  ℕ, ◌+◌, ◌≡◌, ◌≢◌, ◌<◌, inl, inr, refl, ◌∙◌, ap, arith, not, ◌&&◌, List, [], ◌∷◌, some, ◌==◌,
  Option-cases, length,
}
use easy_uds.Routes.{Route}
use easy_uds.Registry.{bit}
use easy_uds.Scheduler.{SerializedJob, SerializedDomainActivity, idle, Scheduler, activity_of}
use easy_uds.Scheduler.Operations.{find_runnable, start_job, take_serialized_job}
use easy_uds.Scheduler.Activities.{Weight, named_sum, domain_sum, domain_sum-put}
use easy_uds.Scheduler.Queues.{domain_queue, find_runnable-none}
use easy_uds.Scheduler.Invariant.{active_weight, busy_weight, serialized_domain_active-activity}
use easy_uds.Scheduler.Steps.{Reaches, IsSound}
use easy_uds.Scheduler.Safety.{Reaches-IsSound}

-- A domain has jobs and runs none.
abbrev waiting_weight : Weight
waiting_weight a = bit (not a.active && not (a.queued == 0))

weights_add : (a : SerializedDomainActivity) → busy_weight a ≡ active_weight a + waiting_weight a
weights_add a = ground arith

named_sum-add :
    (t : List (Route × SerializedDomainActivity))
    → named_sum busy_weight t ≡ named_sum active_weight t + named_sum waiting_weight t
named_sum-add [] = refl
named_sum-add (x ∷ t) = omega (arith, weights_add x.1, named_sum-add t)

-- A waiting job of a domain that runs none makes a domain busy that is not active.
waiting-counts :
    (d : Route) (s : Scheduler)
    → IsSound s
    → domain_queue d s.pending_serialized ≢ []
    → domain_queue d s.running_jobs ≡ []
    → length s.running_jobs < s.busy_serialized_domain_count
waiting-counts d s c waits free =
    let q = c.consistent.queued_exact d in
    let r = c.consistent.active_exact d ∙ ap (λ (x : List SerializedJob). length x) free in
    let some_job = length-positive _ waits in
    let one : waiting_weight (activity_of d s) ≡ 1 = ground arith in
    let lowest = domain_sum-put waiting_weight d idle s refl in
    let all : domain_sum busy_weight s ≡ domain_sum active_weight s + domain_sum waiting_weight s =
      omega (arith, weights_add s.default_activity, named_sum-add s.named_activity) in
    omega (arith, c.running_count, c.consistent.active_count, c.consistent.busy_count)
  where
    length-positive : (x : List SerializedJob) → x ≢ [] → 0 < length x
    length-positive [] h = absurd (h refl)
    length-positive (j ∷ x) h = omega arith

-- In every reachable state where a job waits in a domain that runs none, while fewer jobs run than
-- the limit on the domains allows: some worker thread runs no job, and what a worker then does is
-- to take a job.
pub take_serialized_job-progress :
    (concurrency : ℕ) (s : Scheduler) (d : Route)
    → Reaches concurrency s
    → domain_queue d s.pending_serialized ≢ []
    → domain_queue d s.running_jobs ≡ []
    → length s.running_jobs < s.max_serialized_concurrency
    → (length s.running_jobs < s.serialized_worker_count)
      × ((job : SerializedJob) × (t : Scheduler) × (take_serialized_job s ≡ some (job, t)))
unfolding take_serialized_job
take_serialized_job-progress n s d r waits free room =
    let c = Reaches-IsSound n s r in
    let busy = waiting-counts d s c waits free in
    (
      omega (arith, c.enough_workers),
      elim (Option-cases (find_runnable s s.pending_serialized)) [
        | inl e ↦
            let active = find_runnable-none s s.pending_serialized e d waits in
            let inactive =
              c.consistent.active_exact d ∙ ap (λ (x : List SerializedJob). length x) free in
            let same = serialized_domain_active-activity d s in absurd (ground arith)
        | inr ((job, rest), e) ↦ (job, start_job job rest s, ground (arith, e))
      ],
    )
