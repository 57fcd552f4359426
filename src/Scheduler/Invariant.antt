-- ===== src/Scheduler/Invariant.antt =====
-- What the counters of the scheduler mean, over each operation.
use easy_uds.Prelude.{
  ℕ, ◌+◌, ◌-◌, ◌≡◌, ◌≤◌, inl, inr, refl, ◌∙◌, ap, subst, arith, Bool, true, false, not, ◌||◌, List,
  [], ◌∷◌, ◌++◌, ◌==◌, if◌then◌else◌, Bool-cases, Option-cases, length, length-append,
}
use easy_uds.Routes.{Route, route_eq, route_eq_refl}
use easy_uds.Registry.{bit}
use easy_uds.Scheduler.{
  SerializedJob, serialized_job_domain, SerializedDomainActivity, Scheduler, decrement,
  find_serialized_domain_activity, activity_of, put_activity, serialized_domain_activity,
  serialized_domain_active,
}
use easy_uds.Scheduler.Operations.{kept, superseded, decrements, push_job, replace_jobs}
use easy_uds.Scheduler.Activities.{Weight, domain_sum, route_cases, activity_of-put, domain_sum-put}
use easy_uds.Scheduler.Queues.{
  domain_queue, domain_queue-snoc, domain_queue-kept_other, length-superseded,
}

abbrev pub active_weight : Weight
active_weight a = bit a.active

abbrev pub busy_weight : Weight
busy_weight a = bit (a.active || not (a.queued == 0))

-- Each domain's counter counts its jobs in the deque, it is active when it runs a job and then runs
-- one, and the two counts of domains count the active and the busy ones.
pub record IsConsistent (s : Scheduler) : Type 0 where
  pub queued_exact :
      (d : Route) → (activity_of d s).queued ≡ length (domain_queue d s.pending_serialized)
  pub active_exact :
      (d : Route) → bit (activity_of d s).active ≡ length (domain_queue d s.running_jobs)
  pub active_count : s.active_serialized_domain_count ≡ domain_sum active_weight s
  pub busy_count : s.busy_serialized_domain_count ≡ domain_sum busy_weight s

pub serialized_domain_active-activity :
    (d : Route) (s : Scheduler) → serialized_domain_active d s ≡ (activity_of d s).active
unfolding serialized_domain_active activity_of
serialized_domain_active-activity d s = elim (Option-cases (find_serialized_domain_activity d s)) [
  | inl e ↦ ground arith
  | inr (a, e) ↦ ground arith
]

same-activity_of :
    (e : Route) (s t : Scheduler)
    → t.default_activity ≡ s.default_activity
    → t.named_activity ≡ s.named_activity
    → activity_of e t ≡ activity_of e s
unfolding activity_of find_serialized_domain_activity
same-activity_of e s t h k = rw (h, k)

same-domain_sum :
    (w : Weight) (s t : Scheduler)
    → t.default_activity ≡ s.default_activity
    → t.named_activity ≡ s.named_activity
    → domain_sum w t ≡ domain_sum w s
same-domain_sum w s t h k = rw (h, k)

-- A step that assigns `a` to one domain's activity, and what it must do to the rest of the state.
pub record Assigns (s t : Scheduler) (d : Route) (a : SerializedDomainActivity) : Type 0 where
  pub same_default : t.default_activity ≡ (put_activity d a s).default_activity
  pub same_named : t.named_activity ≡ (put_activity d a s).named_activity
  pub queued_after :
      (e : Route)
      → (if route_eq d e then a.queued else (activity_of e s).queued)
        ≡ length (domain_queue e t.pending_serialized)
  pub active_after :
      (e : Route)
      → bit (if route_eq d e then a.active else (activity_of e s).active)
        ≡ length (domain_queue e t.running_jobs)
  pub active_moves :
      t.active_serialized_domain_count + active_weight (activity_of d s)
      ≡ s.active_serialized_domain_count + active_weight a
  pub busy_moves :
      t.busy_serialized_domain_count + busy_weight (activity_of d s)
      ≡ s.busy_serialized_domain_count + busy_weight a

pub Assigns-IsConsistent :
    (s t : Scheduler) (d : Route) (a : SerializedDomainActivity)
    → IsConsistent s
    → Assigns s t d a
    → IsConsistent t
Assigns-IsConsistent s t d a c m =
    let same : (e : Route) → activity_of e t ≡ (if route_eq d e then a else activity_of e s) = λ e.
      same-activity_of e (put_activity d a s) t m.same_default m.same_named
      ∙ activity_of-put d e a s in
    let at = λ (w : Weight). same-domain_sum w (put_activity d a s) t m.same_default m.same_named in
    let va = domain_sum-put active_weight d a s refl in
    let vb = domain_sum-put busy_weight d a s refl in
    record {
      queued_exact = λ e.
          let h = same e in
          let k = m.queued_after e in
          elim (Bool-cases (route_eq d e)) [ inl x ↦ ground arith | inr x ↦ ground arith ];
      active_exact = λ e.
          let h = same e in
          let k = m.active_after e in
          elim (Bool-cases (route_eq d e)) [ inl x ↦ ground arith | inr x ↦ ground arith ];
      active_count = omega (arith, at active_weight, c.active_count, m.active_moves);
      busy_count = omega (arith, at busy_weight, c.busy_count, m.busy_moves);
    }

-- The cases of a claim about all domains: the one assigned to, and another.
pub each_domain :
    (d : Route) (P : Route → Bool → Type 0)
    → P d true
    → ((e : Route) → route_eq d e ≡ false → P e false)
    → (e : Route) → P e (route_eq d e)
each_domain d P here there e = elim (route_cases d e) [
  | inl (t, same) ↦ rw t (subst (λ r. P r true) same here)
  | inr (f, other) ↦ rw f (there e f)
]

pub serialized_domain_activity-IsConsistent :
    (d : Route) (s : Scheduler) → IsConsistent s → IsConsistent (serialized_domain_activity d s)
unfolding serialized_domain_activity put_activity
serialized_domain_activity-IsConsistent d s c =
    Assigns-IsConsistent s _ d (activity_of d s) c (record {
      same_default = refl;
      same_named = refl;
      queued_after =
          each_domain d
            (λ e b.
              (if b then (activity_of d s).queued else (activity_of e s).queued)
              ≡ length (domain_queue e s.pending_serialized))
            (c.queued_exact d) (λ e f. c.queued_exact e);
      active_after =
          each_domain d
            (λ e b.
              bit (if b then (activity_of d s).active else (activity_of e s).active)
              ≡ length (domain_queue e s.running_jobs))
            (c.active_exact d) (λ e f. c.active_exact e);
      active_moves = refl;
      busy_moves = refl;
    })

-- One domain's queue grew by a job at its end, and the others stayed.
pub length-snoc :
    (job : SerializedJob) (jobs : List SerializedJob) (e : Route)
    → length (domain_queue e (jobs ++ job ∷ []))
      ≡ length (domain_queue e jobs) + bit (route_eq (serialized_job_domain job) e)
length-snoc job jobs e =
    let h = domain_queue-snoc e jobs job in
    let l = length-append (domain_queue e jobs) (job ∷ []) in
    elim (Bool-cases (route_eq (serialized_job_domain job) e)) [
      | inl t ↦ ground arith
      | inr f ↦ ground arith
    ]

pub push_job-IsConsistent :
    (job : SerializedJob) (s : Scheduler) → IsConsistent s → IsConsistent (push_job job s)
unfolding push_job put_activity
push_job-IsConsistent job s c =
    let d = serialized_job_domain job in
    let a = activity_of d s in
    let b : SerializedDomainActivity = record { active = a.active; queued = a.queued + 1 } in
    let own = route_eq_refl d in
    let grown = length-snoc job s.pending_serialized in
    Assigns-IsConsistent s _ d b c (record {
      same_default = refl;
      same_named = refl;
      queued_after =
          each_domain d
            (λ e x.
              (if x then a.queued + 1 else (activity_of e s).queued)
              ≡ length (domain_queue e (s.pending_serialized ++ job ∷ [])))
            (let k = c.queued_exact d in let g = grown d in ground arith)
            (λ e f. let k = c.queued_exact e in let g = grown e in ground arith);
      active_after =
          each_domain d
            (λ e x.
              bit (if x then a.active else (activity_of e s).active)
              ≡ length (domain_queue e s.running_jobs))
            (c.active_exact d) (λ e f. c.active_exact e);
      active_moves = refl;
      busy_moves = ground arith;
    })

decrements-length :
    (jobs : List SerializedJob) (n : ℕ) → length jobs ≤ n → decrements jobs n ≡ n - length jobs
decrements-length [] n h = omega arith
decrements-length (job ∷ jobs) n h =
    let one : decrement n ≡ n - 1 = ground arith in
    rw one (decrements-length jobs (n - 1) (omega arith) ∙ omega arith)

pub replace_jobs-IsConsistent :
    (job : SerializedJob) (queue : List SerializedJob) (s : Scheduler)
    → s.pending_serialized ≡ queue ++ job ∷ []
    → IsConsistent s
    → IsConsistent (replace_jobs job queue s)
unfolding replace_jobs put_activity
replace_jobs-IsConsistent job queue s shape c =
    let d = serialized_job_domain job in
    let a = activity_of d s in
    let gone = superseded job queue in
    let b : SerializedDomainActivity = record {
      active = a.active;
      queued = decrements gone a.queued;
    } in
    let own = route_eq_refl d in
    let before = λ (e : Route).
      c.queued_exact e ∙ ap (λ q. length (domain_queue e q)) shape ∙ length-snoc job queue e in
    let after = length-snoc job (kept job queue) in
    let fewer = length-superseded job queue in
    let left : b.queued ≡ a.queued - length gone =
      decrements-length gone a.queued (let h = before d in ground arith) in
    Assigns-IsConsistent s _ d b c (record {
      same_default = refl;
      same_named = refl;
      queued_after =
          each_domain d
            (λ e x.
              (if x then b.queued else (activity_of e s).queued)
              ≡ length (domain_queue e (kept job queue ++ job ∷ [])))
            (let h = before d in let g = after d in ground arith)
            (λ e f.
              let h = before e in
              let g = after e in let o = domain_queue-kept_other e job queue f in ground arith);
      active_after =
          each_domain d
            (λ e x.
              bit (if x then a.active else (activity_of e s).active)
              ≡ length (domain_queue e s.running_jobs))
            (c.active_exact d) (λ e f. c.active_exact e);
      active_moves = refl;
      busy_moves = let h = before d in ground arith;
    })
