-- ===== src/Scheduler/Tests.antt =====
-- The scheduler at concrete jobs: two domains `a` and `b`, and two workers at most.
use easy_uds.Prelude.{
  List, ℕ, ◌+◌, ◌≡◌, ◌≤◌, ◌<◌, ◌⊎◌, ◌↔◌, refl, arith, true, false, [], ◌∷◌, ◌++◌, some, length,
  if◌then◌else◌,
}
use easy_uds.Routes.{Route, route_eq}
use easy_uds.Registry.{bit, QueuePolicy, fifo, latest_wins}
use easy_uds.Scheduler.{
  SerializedJob, stopping, Scheduler, has_runnable_serialized_job, has_connection,
  is_reject_if_busy, is_superseded,
}
use easy_uds.Scheduler.Operations.{is_accepted, refuse, admit, start_job, take_serialized_job}
use easy_uds.Scheduler.Queues.{domain_queue}
use easy_uds.Scheduler.Admission.{is_halted}
use easy_uds.Scheduler.Decisions.{HasJobs, IsRefused, Joins, admit-cases}
use easy_uds.Scheduler.Steps.{fresh, enqueue, Reaches, start, step}
use easy_uds.Scheduler.Safety.{Reaches-IsSound, one_job_per_domain, take_serialized_job-order}
use easy_uds.Scheduler.Progress.{take_serialized_job-progress}
use easy_uds.Scheduler.Conservation.{
  count, admit-conserves, latest_wins-Alone, Each, IsOther, IsOlder,
  has_runnable_serialized_job_iff,
}

abbrev job_of : ℕ → ℕ → QueuePolicy → SerializedJob
job_of domain id policy = record {
  connection = some 1;
  request_id = id;
  route = b'r' ∷ [];
  request_bytes = 10;
  scheduling = record { domain = domain ∷ []; policy = policy };
}

abbrev first : SerializedJob
first = job_of b'a' 1 fifo

abbrev newest : SerializedJob
newest = job_of b'a' 2 latest_wins

-- `first` waits.
abbrev waiting : Scheduler
waiting = (admit first (fresh 2)).scheduler

waiting-Reaches : Reaches 2 waiting
waiting-Reaches = step (fresh 2) waiting start (enqueue first)

newest_run : (admit newest waiting).replaced ≡ first ∷ []
unfolding admit route_eq is_superseded
newest_run = refl

admit-cases_example :
    ((is_halted waiting ≡ true) × (admit newest waiting ≡ refuse stopping waiting))
    ⊎ ((is_halted waiting ≡ false)
        × (is_reject_if_busy latest_wins ≡ true)
        × HasJobs (b'a' ∷ []) waiting
        × IsRefused waiting (admit newest waiting))
    ⊎ ((is_halted waiting ≡ false)
        × ((is_reject_if_busy latest_wins ≡ false) ⊎ (¬ HasJobs (b'a' ∷ []) waiting))
        × Joins newest waiting (admit newest waiting))
admit-cases_example =
    admit-cases newest waiting (Reaches-IsSound 2 waiting waiting-Reaches).consistent

one_job_per_domain_example :
    ((d : Route) → length (domain_queue d waiting.running_jobs) ≤ 1)
    × (length waiting.running_jobs ≤ waiting.max_serialized_concurrency)
one_job_per_domain_example = one_job_per_domain 2 waiting waiting-Reaches

-- A worker took `first`.
abbrev taken : Scheduler
taken = start_job first [] waiting

take_run : take_serialized_job waiting ≡ some (first, taken)
unfolding take_serialized_job admit route_eq
take_run = refl

take_serialized_job-order_example :
    (domain_queue (b'a' ∷ []) waiting.pending_serialized
      ≡ first ∷ domain_queue (b'a' ∷ []) taken.pending_serialized)
    × (domain_queue (b'a' ∷ []) waiting.running_jobs ≡ [])
    × (taken.running_jobs ≡ waiting.running_jobs ++ first ∷ [])
    × ((e : Route)
        → route_eq (b'a' ∷ []) e ≡ false
        → domain_queue e taken.pending_serialized ≡ domain_queue e waiting.pending_serialized)
take_serialized_job-order_example =
    take_serialized_job-order 2 waiting first taken waiting-Reaches take_run

waits_in_a : domain_queue (b'a' ∷ []) waiting.pending_serialized ≡ first ∷ []
unfolding domain_queue admit route_eq
waits_in_a = refl

none_in_a : domain_queue (b'a' ∷ []) waiting.running_jobs ≡ []
unfolding domain_queue admit route_eq
none_in_a = refl

room : length waiting.running_jobs < waiting.max_serialized_concurrency
unfolding admit route_eq is_superseded
room = omega arith

take_serialized_job-progress_example :
    (length waiting.running_jobs < waiting.serialized_worker_count)
    × ((job : SerializedJob) × (t : Scheduler) × (take_serialized_job waiting ≡ some (job, t)))
take_serialized_job-progress_example =
    take_serialized_job-progress 2 waiting (b'a' ∷ []) waiting-Reaches
      (λ h. let w = waits_in_a in cc) none_in_a room

admit-conserves_example :
    count has_connection (admit newest waiting).scheduler.pending_serialized
      + count has_connection (admit newest waiting).replaced
    ≡ count has_connection waiting.pending_serialized
      + (if is_accepted (admit newest waiting).admission then bit (has_connection newest) else 0)
admit-conserves_example = admit-conserves has_connection newest waiting

open_waiting : is_halted waiting ≡ false
unfolding admit route_eq is_superseded
open_waiting = refl

latest_wins-Alone_example :
    ((rest : List SerializedJob) × ((admit newest waiting).scheduler.pending_serialized
        ≡ rest ++ newest ∷ [])
      × Each (IsOther newest) rest)
    × Each (IsOlder newest) (admit newest waiting).replaced
latest_wins-Alone_example = latest_wins-Alone newest waiting open_waiting refl

has_runnable_serialized_job_iff_example :
    (has_runnable_serialized_job waiting ≡ true)
    ↔ ((job : SerializedJob) × (t : Scheduler) × (take_serialized_job waiting ≡ some (job, t)))
has_runnable_serialized_job_iff_example = has_runnable_serialized_job_iff waiting
