-- ===== src/Scheduler/Conservation.antt =====
-- Which jobs an admission keeps, moves away and adds, counted.
use easy_uds.Prelude.{
  ℕ, ◌+◌, ◌≡◌, ◌↔◌, ◌≢◌, ◌⊎◌, refl, arith, Bool, true, false, ◌&&◌, List, [], ◌∷◌, ◌++◌, none, some,
  inl, inr, if◌then◌else◌, Bool-cases, Option-cases,
}
use easy_uds.Routes.{route_eq, route_eq_refl, route_eq→eq}
use easy_uds.Registry.{bit, QueuePolicy, fifo, latest_wins, reject_if_busy}
use easy_uds.Scheduler.{
  SerializedJob, serialized_job_domain, Scheduler, serialized_domain_activity,
  serialized_domain_busy, put_activity, any_runnable, has_runnable_serialized_job, has_connection,
  is_superseded, is_latest_wins, is_reject_if_busy,
}
use easy_uds.Scheduler.Operations.{
  kept, superseded, is_accepted, admit_job, admit, find_runnable, take_serialized_job, start_job,
}
use easy_uds.Scheduler.Admission.{is_halted, prepared, admit-halted, admit-open}
use easy_uds.Scheduler.Decisions.{admit_job-pending, admit_job-decides}

-- How many jobs pass a test.
abbrev pub count : (SerializedJob → Bool) → List SerializedJob → ℕ
count p [] = 0
count p (job ∷ jobs) = bit (p job) + count p jobs

count-append :
    (p : SerializedJob → Bool) (a b : List SerializedJob) → count p (a ++ b) ≡ count p a + count p b
count-append p [] b = omega arith
count-append p (x ∷ a) b = omega (arith, count-append p a b)

count-kept :
    (p : SerializedJob → Bool) (job : SerializedJob) (queue : List SerializedJob)
    → count p (kept job queue) + count p (superseded job queue) ≡ count p queue
unfolding kept superseded
count-kept p job [] = refl
count-kept p job (x ∷ queue) =
    let ih = count-kept p job queue in
    elim (Bool-cases (is_superseded job x)) [ inl t ↦ ground arith | inr f ↦ ground arith ]

admit_job-count :
    (p : SerializedJob → Bool) (job : SerializedJob) (s : Scheduler)
    → count p (admit_job job s).scheduler.pending_serialized + count p (admit_job job s).replaced
      ≡ count p s.pending_serialized + bit (p job)
admit_job-count p job s =
    let queue = s.pending_serialized in
    let k = count-kept p job queue in
    let a = count-append p (kept job queue) (job ∷ []) in
    let b = count-append p queue (job ∷ []) in
    rw (admit_job-pending job s, (admit_job-decides job s).1) (ground arith)

-- For every test on jobs: as many pass it among those that wait after the call and those that the
-- call moves away as among those that waited before, and one more where it accepted a job that passes.
pub admit-conserves :
    (p : SerializedJob → Bool) (job : SerializedJob) (s : Scheduler)
    → count p (admit job s).scheduler.pending_serialized + count p (admit job s).replaced
      ≡ count p s.pending_serialized
        + (if is_accepted (admit job s).admission then bit (p job) else 0)
unfolding serialized_domain_activity put_activity
admit-conserves p job s = elim (Bool-cases (is_halted s)) [
  | inl h ↦ rw (admit-halted job s h)
  | inr h ↦
      elim (Bool-cases (
        is_reject_if_busy job.scheduling.policy
        && serialized_domain_busy (serialized_job_domain job) (prepared job s))) [
          | inl b ↦ rw (admit-open job s h, b)
          | inr b ↦
              let c = admit_job-count p job (prepared job s) in
              rw (admit-open job s h, b) (rw (admit_job-decides job (prepared job s)).0 c)
        ]
]

-- A job that a `latest_wins` job of the same domain and route would not move away.
abbrev pub IsOther : SerializedJob → SerializedJob → Type 0
IsOther job x =
    (serialized_job_domain x ≢ serialized_job_domain job)
    ⊎ (x.route ≢ job.route)
    ⊎ (x.connection ≡ none)

-- A job that it moves away.
abbrev pub IsOlder : SerializedJob → SerializedJob → Type 0
IsOlder job x =
    (serialized_job_domain x ≡ serialized_job_domain job)
    × (x.route ≡ job.route)
    × (x.connection ≢ none)

abbrev pub Each : (SerializedJob → Type 0) → List SerializedJob → Type 0
Each P [] = Unit {0}
Each P (x ∷ xs) = P x × Each P xs

has_connection-none : (x : SerializedJob) → has_connection x ≡ false → x.connection ≡ none
has_connection-none x h = elim (Option-cases x.connection) [
  | inl e ↦ e
  | inr (k, e) ↦ let bad = rw e at h in cc
]

none-has_connection : (x : SerializedJob) → has_connection x ≡ true → x.connection ≢ none
none-has_connection x h e = let bad = rw e at h in cc

IsOther-is_superseded : (job x : SerializedJob) → is_superseded job x ≡ false → IsOther job x
unfolding is_superseded
IsOther-is_superseded job x h =
    elim (Bool-cases (route_eq (serialized_job_domain x) (serialized_job_domain job))) [
      | inr d ↦
          inl
            (λ e. let same = rw e at d in let own = route_eq_refl (serialized_job_domain job) in cc)
      | inl d ↦ elim (Bool-cases (route_eq x.route job.route)) [
        | inr r ↦ inr (inl (λ e. let same = rw e at r in let own = route_eq_refl job.route in cc))
        | inl r ↦ inr (inr (has_connection-none x (ground arith)))
      ]
    ]

IsOlder-is_superseded : (job x : SerializedJob) → is_superseded job x ≡ true → IsOlder job x
unfolding is_superseded
IsOlder-is_superseded job x h = (
  route_eq→eq _ _ (ground arith),
  route_eq→eq _ _ (ground arith),
  none-has_connection x (ground arith),
)

kept-IsOther :
    (job : SerializedJob) (queue : List SerializedJob) → Each (IsOther job) (kept job queue)
unfolding kept
kept-IsOther job [] = tt
kept-IsOther job (x ∷ queue) = elim (Bool-cases (is_superseded job x)) [
  | inl t ↦ rw t (kept-IsOther job queue)
  | inr f ↦ rw f (IsOther-is_superseded job x f, kept-IsOther job queue)
]

superseded-IsOlder :
    (job : SerializedJob) (queue : List SerializedJob) → Each (IsOlder job) (superseded job queue)
unfolding superseded
superseded-IsOlder job [] = tt
superseded-IsOlder job (x ∷ queue) = elim (Bool-cases (is_superseded job x)) [
  | inl t ↦ rw t (IsOlder-is_superseded job x t, superseded-IsOlder job queue)
  | inr f ↦ rw f (superseded-IsOlder job queue)
]

latest_wins-accepts : (q : QueuePolicy) → is_latest_wins q ≡ true → is_reject_if_busy q ≡ false
latest_wins-accepts latest_wins h = refl
latest_wins-accepts fifo h = cc
latest_wins-accepts reject_if_busy h = cc

-- A `latest_wins` job that arrives while the server runs waits last. Each job that waits before it
-- has another domain, another route or no connection, and each job that the call moved away has its
-- domain and its route, and a connection.
pub latest_wins-Alone :
    (job : SerializedJob) (s : Scheduler)
    → is_halted s ≡ false
    → is_latest_wins job.scheduling.policy ≡ true
    → ((rest : List SerializedJob) × ((admit job s).scheduler.pending_serialized ≡ rest ++ job ∷ [])
        × Each (IsOther job) rest)
      × Each (IsOlder job) (admit job s).replaced
latest_wins-Alone job s h w =
    let queue = (prepared job s).pending_serialized in
    let moved : Each (IsOlder job) (admit_job job (prepared job s)).replaced =
      rw ((admit_job-decides job (prepared job s)).1, w) (superseded-IsOlder job queue) in
    let waiting : (admit_job job (prepared job s)).scheduler.pending_serialized
        ≡ kept job queue ++ job ∷ [] =
      rw (admit_job-pending job (prepared job s), w) refl in
    rw (admit-open job s h, latest_wins-accepts _ w)
      ((kept job queue, waiting, kept-IsOther job queue), moved)

any_runnable-find :
    (s : Scheduler) (jobs : List SerializedJob)
    → any_runnable s jobs ≡ elim (find_runnable s jobs) [ none ↦ false | some x ↦ true ]
unfolding any_runnable find_runnable
any_runnable-find s [] = refl
any_runnable-find s (x ∷ jobs) =
    let ih = any_runnable-find s jobs in
    elim (Option-cases (find_runnable s jobs)) [ inl e ↦ ground arith | inr (y, e) ↦ ground arith ]

-- The condition that the workers wait for holds just when a worker that looks finds a job.
pub has_runnable_serialized_job_iff :
    (s : Scheduler)
    → (has_runnable_serialized_job s ≡ true)
      ↔ ((job : SerializedJob) × (t : Scheduler) × (take_serialized_job s ≡ some (job, t)))
unfolding has_runnable_serialized_job take_serialized_job
has_runnable_serialized_job_iff s =
    let a = any_runnable-find s s.pending_serialized in
    elim (Option-cases (find_runnable s s.pending_serialized)) [
      | inl e ↦ (λ h. absurd (ground arith), λ (job, t, h). absurd (ground arith))
      | inr ((job, rest), e) ↦
          (λ h. (job, start_job job rest s, ground (arith, e)), λ x. ground arith)
    ]
