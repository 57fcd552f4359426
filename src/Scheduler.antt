-- ===== src/Scheduler.antt =====
-- The scheduler of serialized requests of reactor/workers.cpp: domains that run one job at a time,
-- the three queue policies, and the worker threads. Each function is a critical section of
-- `serialized_mutex`, or one that runs before or after it. `running_jobs` holds the jobs that the
-- workers carry in their local variable `job`. The counters stay below the length of the deque, so
-- `++` does not wrap; `--` does, at 0. Threads are taken to start.
pub mod Operations
pub mod Activities
pub mod Queues
pub mod Invariant
pub mod Running
pub mod Admission
pub mod Decisions
pub mod Steps
pub mod Safety
pub mod Progress
pub mod Conservation
mod Tests
use easy_uds.Prelude.{
  ℕ, ◌+◌, ◌-◌, ◌^◌, ◌≡◌, Bool, true, false, not, ◌&&◌, ◌||◌, List, [], ◌∷◌, ◌++◌, Option, none,
  some, ◌==◌, if◌then◌else◌, min, max,
}
use easy_uds.Options.{ServerOptions}
use easy_uds.Routes.{Route, route_eq}
use easy_uds.Registry.{RouteScheduling, QueuePolicy, fifo, latest_wins, reject_if_busy}

-- A job with the scheduling of its handler. A maintenance job has no connection.
pub record SerializedJob : Type 0 where
  pub connection : Option ℕ
  pub request_id : ℕ
  pub route : Route
  pub request_bytes : ℕ
  pub scheduling : RouteScheduling

abbrev pub serialized_job_domain : SerializedJob → Route
serialized_job_domain job = job.scheduling.domain

pub record SerializedDomainActivity : Type 0 where
  pub active : Bool
  pub queued : ℕ

abbrev pub idle : SerializedDomainActivity
idle = record { active = false; queued = 0 }

pub data SerializedAdmission : Type 0 where
  accepted busy stopping : SerializedAdmission

-- `named_activity` stands for the map of the named domains: the first entry of a name counts.
pub record Scheduler : Type 0 where
  pub pending_serialized : List SerializedJob
  pub default_activity : SerializedDomainActivity
  pub named_activity : List (Route × SerializedDomainActivity)
  pub active_serialized_domain_count : ℕ
  pub busy_serialized_domain_count : ℕ
  pub serialized_worker_count : ℕ
  pub max_serialized_concurrency : ℕ
  pub is_running : Bool
  pub serialized_stopping : Bool
  pub running_jobs : List SerializedJob

abbrev pub decrement : ℕ → ℕ
decrement n = if n == 0 then 2 ^ 64 - 1 else n - 1

abbrev pub is_default_domain : Route → Bool
is_default_domain [] = true
is_default_domain (x ∷ xs) = false

unfoldable pub find_named :
    Route → List (Route × SerializedDomainActivity) → Option SerializedDomainActivity
find_named domain [] = none
find_named domain (e ∷ rest) = if route_eq e.0 domain then some e.1 else find_named domain rest

-- `find_serialized_domain_activity`, where no entry is `none`.
unfoldable pub find_serialized_domain_activity : Route → Scheduler → Option SerializedDomainActivity
unfolding find_named
find_serialized_domain_activity domain s =
    if is_default_domain domain then some s.default_activity else find_named domain s.named_activity

-- What `try_emplace` returns a reference to: the entry, or a new idle one.
unfoldable pub activity_of : Route → Scheduler → SerializedDomainActivity
unfolding find_serialized_domain_activity
activity_of domain s = elim (find_serialized_domain_activity domain s) [ none ↦ idle | some a ↦ a ]

unfoldable pub put_named :
    Route
    → SerializedDomainActivity
    → List (Route × SerializedDomainActivity)
    → List (Route × SerializedDomainActivity)
put_named domain a [] = (domain, a) ∷ []
put_named domain a (e ∷ rest) =
    let tail = put_named domain a rest in if route_eq e.0 domain then (e.0, a) ∷ rest else e ∷ tail

-- An assignment through that reference.
unfoldable pub put_activity : Route → SerializedDomainActivity → Scheduler → Scheduler
unfolding put_named
put_activity domain a s = record s {
  default_activity = if is_default_domain domain then a else s.default_activity;
  named_activity =
      if is_default_domain domain then s.named_activity else put_named domain a s.named_activity;
}

-- The entry is there after the call.
unfoldable pub serialized_domain_activity : Route → Scheduler → Scheduler
unfolding activity_of put_activity
serialized_domain_activity domain s = put_activity domain (activity_of domain s) s

unfoldable pub serialized_domain_active : Route → Scheduler → Bool
unfolding find_serialized_domain_activity
serialized_domain_active domain s = elim (find_serialized_domain_activity domain s) [
  | none ↦ false
  | some a ↦ a.active
]

unfoldable pub serialized_domain_busy : Route → Scheduler → Bool
unfolding find_serialized_domain_activity
serialized_domain_busy domain s = elim (find_serialized_domain_activity domain s) [
  | none ↦ false
  | some a ↦ a.active || not (a.queued == 0)
]

unfoldable pub activate_serialized_domain : Route → Scheduler → Scheduler
unfolding activity_of put_activity
activate_serialized_domain domain s =
    let t =
      put_activity domain (record { active = true; queued = (activity_of domain s).queued }) s in
    record t { active_serialized_domain_count = t.active_serialized_domain_count + 1 }

unfoldable pub deactivate_serialized_domain : Route → Scheduler → Scheduler
unfolding activity_of put_activity
deactivate_serialized_domain domain s =
    let a = activity_of domain s in
    let t = put_activity domain (record { active = false; queued = a.queued }) s in
    let u = record t {
      active_serialized_domain_count = decrement t.active_serialized_domain_count;
    } in
    if a.active
    then (if a.queued == 0
        then record u { busy_serialized_domain_count = decrement u.busy_serialized_domain_count }
        else u)
    else s

unfoldable pub any_runnable : Scheduler → List SerializedJob → Bool
unfolding serialized_domain_active
any_runnable s [] = false
any_runnable s (job ∷ jobs) =
    not (serialized_domain_active (serialized_job_domain job) s) || any_runnable s jobs

unfoldable pub has_runnable_serialized_job : Scheduler → Bool
unfolding any_runnable
has_runnable_serialized_job s = any_runnable s s.pending_serialized

-- `none` is the answer `false`.
unfoldable pub ensure_serialized_worker_count : ℕ → Scheduler → Option Scheduler
ensure_serialized_worker_count desired s =
    if not s.is_running || s.serialized_stopping
    then none
    else some (record s {
      serialized_worker_count =
          max s.serialized_worker_count (min desired s.max_serialized_concurrency);
    })

unfoldable pub desired_serialized_worker_count : Route → Scheduler → ℕ
unfolding serialized_domain_busy
desired_serialized_worker_count incoming s =
    let demand =
      if serialized_domain_busy incoming s
      then s.busy_serialized_domain_count
      else s.busy_serialized_domain_count + 1 in
    max s.serialized_worker_count (min demand s.max_serialized_concurrency)

abbrev pub has_connection : SerializedJob → Bool
has_connection job = elim job.connection [ none ↦ false | some k ↦ true ]

-- The test of the `latest_wins` loop, for a queued job and the new one.
unfoldable pub is_superseded : SerializedJob → SerializedJob → Bool
is_superseded job queued =
    route_eq (serialized_job_domain queued) (serialized_job_domain job)
    && has_connection queued
    && route_eq queued.route job.route

abbrev pub is_latest_wins : QueuePolicy → Bool
is_latest_wins latest_wins = true
is_latest_wins _ = false

abbrev pub is_reject_if_busy : QueuePolicy → Bool
is_reject_if_busy reject_if_busy = true
is_reject_if_busy _ = false
