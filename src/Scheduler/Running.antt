-- ===== src/Scheduler/Running.antt =====
-- The invariant of the scheduler at the start and the end of a job.
use easy_uds.Prelude.{
  ◌+◌, ◌-◌, ◌≡◌, inl, inr, refl, sym, ◌∙◌, ap, arith, true, false, List, [], ◌∷◌, ◌++◌,
  if◌then◌else◌, Bool-cases, length,
}
use easy_uds.Routes.{Route, route_eq, route_eq_refl}
use easy_uds.Registry.{bit}
use easy_uds.Scheduler.{
  SerializedJob, serialized_job_domain, SerializedDomainActivity, idle, Scheduler, decrement,
  activity_of, put_activity, serialized_domain_activity, activate_serialized_domain,
  deactivate_serialized_domain,
}
use easy_uds.Scheduler.Operations.{start_job, end_job}
use easy_uds.Scheduler.Activities.{activity_of-put, domain_sum-put, put_named-put}
use easy_uds.Scheduler.Queues.{domain_queue, Takes}
use easy_uds.Scheduler.Invariant.{
  active_weight, busy_weight, IsConsistent, serialized_domain_active-activity, Assigns-IsConsistent,
  each_domain, length-snoc, serialized_domain_activity-IsConsistent,
}

-- A domain that is not active becomes active and gives up the head of its queue.
pub start_job-IsConsistent :
    (job : SerializedJob) (rest : List SerializedJob) (s : Scheduler)
    → Takes s s.pending_serialized job rest
    → IsConsistent s
    → IsConsistent (start_job job rest s)
unfolding start_job serialized_domain_activity put_activity activate_serialized_domain
start_job-IsConsistent job rest s t c =
    let d = serialized_job_domain job in
    let r = serialized_domain_activity d s in
    let cr : IsConsistent r = serialized_domain_activity-IsConsistent d s c in
    let a = activity_of d r in
    let lower : SerializedDomainActivity = record {
      active = a.active;
      queued = decrement a.queued;
    } in
    let b : SerializedDomainActivity = record {
      active = true;
      queued = (activity_of d (put_activity d lower r)).queued;
    } in
    let own = route_eq_refl d in
    let kept_same : activity_of d r ≡ activity_of d s =
      rw (activity_of-put d d (activity_of d s) s, own) in
    let free : a.active ≡ false =
      ap (λ z. z.active) kept_same ∙ sym (serialized_domain_active-activity d s) ∙ t.was_free in
    let waiting : a.queued ≡ length (domain_queue d rest) + 1 =
      cr.queued_exact d ∙ ap length t.head ∙ omega arith in
    let now : b.queued ≡ a.queued - 1 =
      ap (λ z. z.queued) (activity_of-put d d lower r)
      ∙ ap (λ x. (if x then lower else a).queued) own
      ∙ ground (arith, waiting) in
    let grown = length-snoc job s.running_jobs in
    Assigns-IsConsistent r _ d b cr (record {
      same_default = ground arith;
      same_named = let twice = put_named-put d lower b r.named_activity in ground arith;
      queued_after =
          each_domain d
            (λ e x.
              (if x then b.queued else (activity_of e r).queued) ≡ length (domain_queue e rest))
            (omega arith) (λ e f. cr.queued_exact e ∙ ap length (t.others e f));
      active_after =
          each_domain d
            (λ e x.
              bit (if x then true else (activity_of e r).active)
              ≡ length (domain_queue e (s.running_jobs ++ job ∷ [])))
            (let g = grown d in let k = cr.active_exact d in ground arith)
            (λ e f. let g = grown e in let k = cr.active_exact e in ground arith);
      active_moves = ground arith;
      busy_moves = ground arith;
    })

-- One job of the running ones ended: its domain runs none of those that are left.
pub length-middle :
    (e : Route) (job : SerializedJob) (before after : List SerializedJob)
    → length (domain_queue e (before ++ job ∷ after))
      ≡ length (domain_queue e (before ++ after)) + bit (route_eq (serialized_job_domain job) e)
unfolding domain_queue
length-middle e job [] after = elim (Bool-cases (route_eq (serialized_job_domain job) e)) [
  | inl t ↦ ground arith
  | inr f ↦ ground arith
]
length-middle e job (x ∷ before) after = let ih = length-middle e job before after in ground arith

pub end_job-IsConsistent :
    (job : SerializedJob) (before after : List SerializedJob) (s : Scheduler)
    → s.running_jobs ≡ before ++ job ∷ after
    → IsConsistent s
    → IsConsistent (end_job job (before ++ after) s)
unfolding end_job deactivate_serialized_domain put_activity
end_job-IsConsistent job before after s shape c =
    let d = serialized_job_domain job in
    let a = activity_of d s in
    let b : SerializedDomainActivity = record { active = false; queued = a.queued } in
    let own = route_eq_refl d in
    let split = λ (e : Route).
      c.active_exact e
      ∙ ap (λ q. length (domain_queue e q)) shape
      ∙ length-middle e job before after in
    let was : a.active ≡ true = let h = split d in ground arith in
    let lowest = domain_sum-put active_weight d idle s refl in
    let lowest_busy = domain_sum-put busy_weight d idle s refl in
    let ca = c.active_count in
    let cb = c.busy_count in
    let same_pending : (end_job job (before ++ after) s).pending_serialized ≡ s.pending_serialized =
      ground arith in
    Assigns-IsConsistent s _ d b c (record {
      same_default = ground arith;
      same_named = ground arith;
      queued_after =
          each_domain d
            (λ e x.
              (if x then a.queued else (activity_of e s).queued)
              ≡ length (domain_queue e (end_job job (before ++ after) s).pending_serialized))
            (c.queued_exact d ∙ ap (λ q. length (domain_queue d q)) (sym same_pending))
            (λ e f. c.queued_exact e ∙ ap (λ q. length (domain_queue e q)) (sym same_pending));
      active_after =
          each_domain d
            (λ e x.
              bit (if x then false else (activity_of e s).active)
              ≡ length (domain_queue e (before ++ after)))
            (let h = split d in ground arith) (λ e f. let h = split e in ground arith);
      active_moves = ground arith;
      busy_moves = ground arith;
    })
