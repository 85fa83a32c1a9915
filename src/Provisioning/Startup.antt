-- ===== src/Provisioning/Startup.antt =====
-- The readiness of the workers at the start: runStartupReadinessCheck in
-- src/src/controller/worker-provisioning.ts. What other handlers do between two looks at the state is a
-- function, an argument, as is the clock at each turn of the loop.
use teamclaw.Prelude.{
  ℕ, zero, suc, ◌+◌, String, Bool, true, false, ◌&&◌, ◌||◌, not, Option, none, some, List, [], ◌∷◌,
  map, filter, find, any, ltb, leb, if◌then◌else◌, values, str_eq, is_some, ◌<>◌, decimal, join,
  str_truthy, length,
}
use teamclaw.Team.{WorkerStatus, WorkerInfo, TeamState, ProvisionStatus, ProvisionRecord}
use teamclaw.Contracts.Backfill.{unique}
use teamclaw.Provisioning.{Limits, is_launching, is_registered}
use teamclaw.Provisioning.Reconcile.{Launch, launch_worker, has_recent_failure, is_active_in}

pub data ReadinessStatus : Type 0 where
  checking ready degraded : ReadinessStatus

pub record Readiness : Type 0 where
  pub status : ReadinessStatus
  pub started_at : ℕ
  pub checked_at : ℕ
  pub attempts : ℕ
  pub required_roles : List String
  pub ready_worker_ids : List String
  pub message : Option String

abbrev pub is_ready : ReadinessStatus → Bool
is_ready ReadinessStatus.ready = true
is_ready _ = false

-- `determineStartupReadinessRoles`
abbrev pub startup_roles : List String → List String
startup_roles [] = "developer" ∷ []
startup_roles (r ∷ rs) = unique (r ∷ rs)

abbrev pub is_at_hand : WorkerStatus → Bool
is_at_hand WorkerStatus.idle = true
is_at_hand WorkerStatus.busy = true
is_at_hand _ = false

abbrev pub serves : String → WorkerInfo → Bool
serves role w = str_eq w.role role && is_at_hand w.status

abbrev pub ready_worker : TeamState → String → Option WorkerInfo
ready_worker s role = find (serves role) (values s.workers)

-- `hasActiveOrLaunchingWorkerForRole`
unfoldable pub has_active_or_launching : TeamState → String → Bool
has_active_or_launching s role =
    any (is_active_in role) (values s.workers)
    || any
        (λ (r : ProvisionRecord).
          str_eq r.role role && (is_launching r.status || is_registered r.status))
        (values s.provisioning)

-- `collectRoleReadiness`: the ready workers and the missing roles.
unfoldable pub ready_ids : TeamState → List String → List String
ready_ids s [] = []
ready_ids s (role ∷ roles) = elim (ready_worker s role) [
  | none ↦ ready_ids s roles
  | some w ↦ w.id ∷ ready_ids s roles
]

unfoldable pub missing_roles : TeamState → List String → List String
missing_roles s roles = filter (λ role. not (is_some (ready_worker s role))) roles

abbrev status_name : ProvisionStatus → String
status_name ProvisionStatus.launching = "launching"
status_name ProvisionStatus.registered = "registered"
status_name ProvisionStatus.terminating = "terminating"
status_name ProvisionStatus.terminated = "terminated"
status_name ProvisionStatus.failed = "failed"

abbrev with_reason : Option String → String
with_reason none = ""
with_reason (some e) = if str_truthy e then " (" <> (e <> ")") else ""

-- `describeStartupReadinessFailure`
unfoldable pub describe_failure : TeamState → List String → String
describe_failure s missing =
    let relevant =
      filter (λ (r : ProvisionRecord). any (str_eq r.role) missing) (values s.provisioning) in
    let detail = join ", " (
      map
        (λ (r : ProvisionRecord).
          r.role <> (":" <> (status_name r.status <> with_reason r.last_error)))
        relevant) in
    "Startup worker readiness failed for roles: "
    <> (join ", " missing
        <> ("." <> (if str_truthy detail then " Latest records: " <> detail else "")))

-- `ensureWarmWorkersForRoles`; the state and the launches left over are returned.
unfoldable pub warm_workers : ℕ → List String → List Launch → TeamState → TeamState × List Launch
unfolding has_active_or_launching has_recent_failure launch_worker
warm_workers now [] ls s = (s, ls)
warm_workers now (role ∷ roles) [] s = (s, [])
warm_workers now (role ∷ roles) (l ∷ ls) s =
    let skipped = warm_workers now roles (l ∷ ls) s in
    let launched = warm_workers now roles ls (launch_worker now role l s) in
    if has_active_or_launching s role
    then skipped
    else if has_recent_failure now role s
    then skipped
    else launched

abbrev pub poll_interval_ms : ℕ
poll_interval_ms = 1000

abbrev pub retry_interval_ms : ℕ
retry_interval_ms = 5000

-- A turn of the loop: its time, whether the manager was stopped by then, the launches of a retry, and
-- the reconcile with all that happens before the next turn.
pub record Poll : Type 0 where
  pub now : ℕ
  pub is_stopped : Bool
  pub launches : List Launch
  pub between : TeamState → TeamState

abbrev pub ready_message : List String → Option String
ready_message ids =
    some ("Startup provisioning ready with " <> (decimal (length ids) <> " warm worker(s)."))

-- The end of the check after the deadline, or when the manager was stopped.
unfoldable pub give_up : Readiness → ℕ → TeamState → Readiness
unfolding ready_ids describe_failure missing_roles
give_up begun ended s = record begun {
  status = ReadinessStatus.degraded;
  checked_at = ended;
  ready_worker_ids = ready_ids s begun.required_roles;
  message = some (describe_failure s (missing_roles s begun.required_roles));
}

unfoldable pub all_ready : Readiness → ℕ → TeamState → Readiness
unfolding ready_ids
all_ready begun now s =
    let ids = ready_ids s begun.required_roles in
    record begun {
      status = ReadinessStatus.ready;
      checked_at = now;
      ready_worker_ids = ids;
      message = ready_message ids;
    }

abbrev pub is_none_left : List String → Bool
is_none_left [] = true
is_none_left (_ ∷ _) = false

-- The loop of `runStartupReadinessCheck` from turn `i` on; none when the fuel does not suffice.
unfoldable pub poll_startup :
    ℕ → Readiness → ℕ → ℕ → ℕ → ℕ → (ℕ → Poll) → TeamState → Option (TeamState × Readiness)
unfolding missing_roles warm_workers give_up all_ready
poll_startup zero begun deadline ended last_retry i turn s = none
poll_startup (suc fuel) begun deadline ended last_retry i turn s =
    let p = turn i in
    let missing = missing_roles s begun.required_roles in
    let due = leb (last_retry + retry_interval_ms) p.now in
    let rest =
      poll_startup fuel begun deadline ended (if due then p.now else last_retry) (i + 1) turn
        (p.between (if due then (warm_workers p.now missing p.launches s).0 else s)) in
    if p.is_stopped || not (ltb p.now deadline)
    then some (s, give_up begun ended s)
    else if is_none_left missing
    then some (s, all_ready begun p.now s)
    else rest

-- The record of a check under way.
abbrev pub begin_check : ℕ → ℕ → List String → Readiness
begin_check attempts now configured = record {
  status = ReadinessStatus.checking;
  started_at = now;
  checked_at = now;
  attempts = attempts + 1;
  required_roles = startup_roles configured;
  ready_worker_ids = [];
  message = some ("Warming startup workers for " <> (join ", " (startup_roles configured) <> "."));
}

-- `runStartupReadinessCheck`: `broken` is the error of the prerequisites, `attempts` of the last record,
-- `now` the time of the start, `warmed` the one after the warm-up and `ended` the one at the end.
unfoldable pub run_startup_check :
    ℕ
    → Limits
    → List String
    → ℕ
    → ℕ
    → ℕ
    → ℕ
    → Option String
    → List Launch
    → (ℕ → Poll)
    → TeamState
    → Option (TeamState × Readiness)
unfolding poll_startup warm_workers
run_startup_check fuel limits configured attempts now warmed ended broken ls turn s =
    let begun = begin_check attempts now configured in
    elim broken [
      | some e ↦ some (
        s,
        record begun { status = ReadinessStatus.degraded; checked_at = ended; message = some e },
      )
      | none ↦
          poll_startup fuel begun (warmed + limits.startup_timeout_ms) ended 0 0 turn
            (warm_workers now begun.required_roles ls s).0
    ]
