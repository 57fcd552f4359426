-- ===== src/Scheduler/Operations.antt =====
-- `enqueue_serialized_job`, the sections of `serialized_worker_loop` that take a job and end it,
-- and `finish_superseded_job`. Sending the response is left out: it moves no state of the scheduler.
use easy_uds.Prelude.{
  ℕ, ◌+◌, Bool, true, false, not, ◌&&◌, ◌||◌, List, [], ◌∷◌, ◌++◌, Option, none, some, ◌==◌,
  if◌then◌else◌,
}
use easy_uds.Options.{ServerOptions}
use easy_uds.FlowControl.{
  Peer, Flow, fetch_add, fetch_sub, update, wake_reactor, account_connection_request,
  account_connection_request_count, release_connection_request,
}
use easy_uds.Scheduler.{
  SerializedJob, serialized_job_domain, SerializedAdmission, accepted, busy, stopping, Scheduler,
  decrement, activity_of, put_activity, serialized_domain_activity, serialized_domain_active,
  serialized_domain_busy, activate_serialized_domain, deactivate_serialized_domain,
  ensure_serialized_worker_count, desired_serialized_worker_count, is_superseded, is_latest_wins,
  is_reject_if_busy,
}

-- The loop over the deque, but for its last element: what stays, and what is moved away.
unfoldable pub kept : SerializedJob → List SerializedJob → List SerializedJob
kept job [] = []
kept job (queued ∷ rest) =
    if is_superseded job queued then kept job rest else queued ∷ kept job rest

unfoldable pub superseded : SerializedJob → List SerializedJob → List SerializedJob
superseded job [] = []
superseded job (queued ∷ rest) =
    if is_superseded job queued then queued ∷ superseded job rest else superseded job rest

-- `--incoming_activity.queued`, once for each job that is moved away.
abbrev pub decrements : List SerializedJob → ℕ → ℕ
decrements [] n = n
decrements (job ∷ jobs) n = decrements jobs (decrement n)

unfoldable pub push_job : SerializedJob → Scheduler → Scheduler
unfolding activity_of put_activity
push_job job s =
    let domain = serialized_job_domain job in
    let a = activity_of domain s in
    let t = put_activity domain (record { active = a.active; queued = a.queued + 1 }) s in
    record t {
      pending_serialized = s.pending_serialized ++ job ∷ [];
      busy_serialized_domain_count =
          if not a.active && a.queued == 0
          then s.busy_serialized_domain_count + 1
          else s.busy_serialized_domain_count;
    }

-- After the push; `queue` is the deque without its last element, the job.
unfoldable pub replace_jobs : SerializedJob → List SerializedJob → Scheduler → Scheduler
unfolding activity_of put_activity kept superseded
replace_jobs job queue s =
    let domain = serialized_job_domain job in
    let a = activity_of domain s in
    let t =
      put_activity domain
        (record { active = a.active; queued = decrements (superseded job queue) a.queued }) s in
    record t { pending_serialized = kept job queue ++ job ∷ [] }

-- What the locked section of `enqueue_serialized_job` leaves, with the jobs that it moved away.
pub record Admission : Type 0 where
  pub admission : SerializedAdmission
  pub scheduler : Scheduler
  pub replaced : List SerializedJob

unfoldable pub admit_job : SerializedJob → Scheduler → Admission
unfolding push_job replace_jobs superseded
admit_job job s =
    if is_latest_wins job.scheduling.policy
    then record {
      admission = accepted;
      scheduler = replace_jobs job s.pending_serialized (push_job job s);
      replaced = superseded job s.pending_serialized;
    }
    else record { admission = accepted; scheduler = push_job job s; replaced = [] }

abbrev pub refuse : SerializedAdmission → Scheduler → Admission
refuse a s = record { admission = a; scheduler = s; replaced = [] }

abbrev pub decide : SerializedJob → Scheduler → Option Scheduler → Admission
decide job s none = refuse stopping s
decide job s (some t) =
    if not t.is_running
    then refuse stopping t
    else if is_reject_if_busy job.scheduling.policy
        && serialized_domain_busy (serialized_job_domain job) t
    then refuse busy t
    else admit_job job t

unfoldable pub admit : SerializedJob → Scheduler → Admission
unfolding serialized_domain_activity desired_serialized_worker_count ensure_serialized_worker_count
    serialized_domain_busy admit_job
admit job s =
    let domain = serialized_job_domain job in
    let t = serialized_domain_activity domain s in
    if s.serialized_stopping || not s.is_running
    then refuse stopping s
    else decide job t (ensure_serialized_worker_count (desired_serialized_worker_count domain t) t)

-- The counters of the admitted job's connection.
abbrev pub add_pending : Peer → Peer
add_pending p = record p { pending_serialized = fetch_add p.pending_serialized 1 }

abbrev pub sub_pending : Peer → Peer
sub_pending p = record p { pending_serialized = fetch_sub p.pending_serialized 1 }

unfoldable pub account_admitted : Bool → Bool → SerializedJob → Flow → Flow
unfolding account_connection_request account_connection_request_count
account_admitted account_request request_bytes_reserved job flow = elim job.connection [
  | none ↦ flow
  | some k ↦
      let counted = record flow { peers = update k add_pending flow.peers } in
      if not account_request
      then counted
      else if request_bytes_reserved
      then account_connection_request_count k counted
      else account_connection_request k job.request_bytes counted
]

-- A superseded job has a connection.
unfoldable pub finish_superseded_job : ServerOptions → SerializedJob → Flow → Flow
unfolding release_connection_request wake_reactor
finish_superseded_job options job flow = elim job.connection [
  | none ↦ flow
  | some k ↦ wake_reactor (
      release_connection_request options k job.request_bytes
        (record flow { peers = update k sub_pending flow.peers }))
]

abbrev pub finish_superseded_jobs : ServerOptions → List SerializedJob → Flow → Flow
finish_superseded_jobs options [] flow = flow
finish_superseded_jobs options (job ∷ jobs) flow =
    finish_superseded_jobs options jobs (finish_superseded_job options job flow)

abbrev pub is_accepted : SerializedAdmission → Bool
is_accepted accepted = true
is_accepted _ = false

unfoldable pub enqueue_serialized_job :
    ServerOptions → Bool → Bool → SerializedJob → Scheduler → Flow → Admission × Flow
unfolding admit account_admitted finish_superseded_job
enqueue_serialized_job options account_request request_bytes_reserved job s flow =
    let a = admit job s in
    if is_accepted a.admission
    then (
      a,
      finish_superseded_jobs options a.replaced
          (account_admitted account_request request_bytes_reserved job flow),
    )
    else (a, flow)

-- The `find_if` of the worker: the first job whose domain is not active, and the others.
unfoldable pub find_runnable :
    Scheduler → List SerializedJob → Option (SerializedJob × List SerializedJob)
unfolding serialized_domain_active
find_runnable s [] = none
find_runnable s (job ∷ rest) =
    let later = find_runnable s rest in
    if not (serialized_domain_active (serialized_job_domain job) s)
    then some (job, rest)
    else elim later [ none ↦ none | some (found, others) ↦ some (found, job ∷ others) ]

-- The worker's hold of the mutex, once it found the job.
unfoldable pub start_job : SerializedJob → List SerializedJob → Scheduler → Scheduler
unfolding serialized_domain_activity activity_of put_activity activate_serialized_domain
start_job job rest s =
    let domain = serialized_job_domain job in
    let t = serialized_domain_activity domain s in
    let a = activity_of domain t in
    let u = put_activity domain (record { active = a.active; queued = decrement a.queued }) t in
    let v = activate_serialized_domain domain u in
    record v { pending_serialized = rest; running_jobs = s.running_jobs ++ job ∷ [] }

-- `none` is to wait, or to end the worker.
unfoldable pub take_serialized_job : Scheduler → Option (SerializedJob × Scheduler)
unfolding find_runnable start_job
take_serialized_job s = elim (find_runnable s s.pending_serialized) [
  | none ↦ none
  | some (job, rest) ↦ some (job, start_job job rest s)
]

-- `~SerializedDomainGuard`, for a job that runs beside the others.
unfoldable pub end_job : SerializedJob → List SerializedJob → Scheduler → Scheduler
unfolding deactivate_serialized_domain
end_job job others s = record (deactivate_serialized_domain (serialized_job_domain job) s) {
  running_jobs = others;
}
