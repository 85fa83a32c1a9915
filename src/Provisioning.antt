-- ===== src/Provisioning.antt =====
-- Managed workers: src/src/controller/worker-provisioning.ts, the records of launched workers and the
-- demand per role. Starting and stopping the processes, containers and pods is not modelled; each
-- function is one update of the state, and a termination is two, since the back end runs between.
pub mod Demand
pub mod Records
pub mod Closed
pub mod Reconcile
pub mod Bounds
pub mod Startup
pub mod Gate
pub mod Ready
use teamclaw.Prelude.{
  ℕ, ◌+◌, ◌-◌, String, Bool, true, false, ◌&&◌, ◌||◌, not, Option, none, some, List, [], ◌∷◌, ltb,
  if◌then◌else◌, count, any, min, max, Dict, get, put, alter, values, str_eq, str_truthy,
  num_truthy, or_else, text_truthy,
}
use teamclaw.Team.{
  WorkerStatus, WorkerInfo, TaskInfo, TeamState, ProvisionStatus, ProvisionRecord, is_idle,
  is_offline, is_pending, is_assigned,
}
use teamclaw.Assignment.{option_eq, with_worker}
use teamclaw.Routing.{RoleDefinition, infer_task_role}

-- The configuration that the demand reads.
pub record Limits : Type 0 where
  pub min_per_role : ℕ
  pub max_per_role : ℕ
  pub idle_ttl_ms : ℕ
  pub startup_timeout_ms : ℕ

abbrev pub record_retention_ms : ℕ
record_retention_ms = 21600000

abbrev pub is_launching : ProvisionStatus → Bool
is_launching ProvisionStatus.launching = true
is_launching _ = false

abbrev pub is_registered : ProvisionStatus → Bool
is_registered ProvisionStatus.registered = true
is_registered _ = false

abbrev pub is_past : ProvisionStatus → Bool
is_past ProvisionStatus.terminated = true
is_past ProvisionStatus.failed = true
is_past _ = false

-- The statuses with which a worker may not register any more.
abbrev pub is_closed : ProvisionStatus → Bool
is_closed ProvisionStatus.terminating = true
is_closed st = is_past st

pub data Registration : Type 0 where
  unmanaged managed wrong_role wrong_token closed : Registration

-- `validateRegistration`: the first two are its `ok` answers.
unfoldable pub validate_registration : String → String → Option String → TeamState → Registration
validate_registration worker_id role token s = elim (get s.provisioning worker_id) [
  | none ↦ unmanaged
  | some r ↦
      if not (str_eq r.role role)
      then wrong_role
      else if not (text_truthy token && option_eq token r.launch_token)
      then wrong_token
      else if is_closed r.status
      then closed
      else managed
]

abbrev pub with_record : String → (ProvisionRecord → ProvisionRecord) → TeamState → TeamState
with_record worker_id f s = record s { provisioning = alter s.provisioning worker_id f }

abbrev pub registered_record : ℕ → ProvisionRecord → ProvisionRecord
registered_record now r = record r {
  status = ProvisionStatus.registered;
  registered_at = or_else r.registered_at (some now);
  updated_at = now;
  idle_since = some now;
  last_error = none;
}

-- `onWorkerRegistered`
unfoldable pub on_worker_registered : ℕ → String → TeamState → TeamState
on_worker_registered now worker_id s = with_record worker_id (registered_record now) s

abbrev pub beating_record : ℕ → WorkerStatus → ProvisionRecord → ProvisionRecord
beating_record now status r =
    let r' =
      if is_launching r.status
      then record r {
        status = ProvisionStatus.registered;
        registered_at = or_else r.registered_at (some now);
      }
      else r in
    record r' {
      updated_at = now;
      idle_since = if is_idle status then or_else r.idle_since (some now) else none;
    }

-- `onWorkerHeartbeat`
unfoldable pub on_worker_heartbeat : ℕ → String → WorkerStatus → TeamState → TeamState
on_worker_heartbeat now worker_id status s = with_record worker_id (beating_record now status) s

abbrev pub launched_record : ℕ → String → String → String → ProvisionRecord
launched_record now worker_id role token = record {
  worker_id = worker_id;
  role = role;
  status = ProvisionStatus.launching;
  launch_token = token;
  requested_at = now;
  updated_at = now;
  registered_at = none;
  idle_since = none;
  last_error = none;
}

-- The first update of `launchWorker`, and the one of its `catch`.
unfoldable pub begin_launch : ℕ → String → String → String → TeamState → TeamState
begin_launch now worker_id role token s = record s {
  provisioning = put s.provisioning worker_id (launched_record now worker_id role token);
}

unfoldable pub fail_launch : ℕ → String → String → TeamState → TeamState
fail_launch now worker_id message s =
    with_record worker_id
      (λ r. record r {
        status = ProvisionStatus.failed;
        updated_at = now;
        last_error = some message;
      })
      s

-- The update of `launchWorker` after the back end has launched.
unfoldable pub finish_launch : ℕ → String → TeamState → TeamState
finish_launch now worker_id s = with_record worker_id (λ r. record r { updated_at = now }) s

abbrev pub terminating_record : ℕ → ProvisionRecord → ProvisionRecord
terminating_record now r = record r { status = ProvisionStatus.terminating; updated_at = now }

-- The two updates of `terminateManagedWorker`; `error` is the reason of a failure.
unfoldable pub begin_termination : ℕ → String → TeamState → TeamState
begin_termination now worker_id s = elim (get s.provisioning worker_id) [
  | none ↦ s
  | some r ↦
      with_worker worker_id
        (λ w. record w { status = WorkerStatus.offline; current_task_id = none })
        (with_record worker_id (terminating_record now) s)
]

abbrev pub ended_record : ℕ → Option String → ProvisionRecord → ProvisionRecord
ended_record now error r = record r {
  status = elim error [ none ↦ ProvisionStatus.terminated | some reason ↦ ProvisionStatus.failed ];
  updated_at = now;
  idle_since = none;
  last_error = error;
}

unfoldable pub end_termination : ℕ → String → Option String → TeamState → TeamState
end_termination now worker_id error s = with_record worker_id (ended_record now error) s

abbrev pub refreshed_idle : ℕ → WorkerInfo → Option ℕ → Option ℕ
refreshed_idle now w idle_since =
    if is_idle w.status
    then (if num_truthy idle_since then idle_since else some now)
    else if num_truthy idle_since
    then none
    else idle_since

abbrev pub refreshed_live : ℕ → WorkerInfo → ProvisionRecord → ProvisionRecord
refreshed_live now w r =
    let r' =
      if is_launching r.status
      then record r {
        status = ProvisionStatus.registered;
        registered_at = or_else r.registered_at (some w.registered_at);
      }
      else r in
    if is_registered r'.status
    then record r' {
      idle_since = refreshed_idle now w r'.idle_since;
      updated_at = max r'.updated_at w.last_heartbeat;
    }
    else r'

abbrev pub refreshed : ℕ → Option WorkerInfo → ProvisionRecord → ProvisionRecord
refreshed now none r = r
refreshed now (some w) r = if is_offline w.status then r else refreshed_live now w r

abbrev pub is_expired : ℕ → ProvisionRecord → Bool
is_expired now r = is_past r.status && ltb record_retention_ms (now - r.updated_at)

unfoldable pub refresh_records : ℕ → Dict WorkerInfo → Dict ProvisionRecord → Dict ProvisionRecord
refresh_records now workers [] = []
refresh_records now workers ((worker_id, r) ∷ d) =
    let rest = refresh_records now workers d in
    let r' = refreshed now (get workers worker_id) r in
    if is_expired now r' then rest else (worker_id, r') ∷ rest

-- `refreshProvisioningState`
unfoldable pub refresh : ℕ → TeamState → TeamState
unfolding refresh_records
refresh now s = record s { provisioning = refresh_records now s.workers s.provisioning }

abbrev is_served : Dict WorkerInfo → Option String → Bool
is_served workers none = false
is_served workers (some worker_id) =
    str_truthy worker_id
    && elim (get workers worker_id) [ none ↦ false | some w ↦ not (is_offline w.status) ]

-- `doesTaskNeedRole`
unfoldable pub needs_role : List RoleDefinition → TeamState → String → TaskInfo → Bool
needs_role roles s role t =
    (is_pending t.status || is_assigned t.status)
    && not (is_served s.workers t.assigned_worker_id)
    && (if text_truthy t.assigned_role
        then option_eq t.assigned_role role
        else option_eq (infer_task_role roles t) role)

abbrev pub pending_count : List RoleDefinition → TeamState → String → ℕ
pending_count roles s role = count (needs_role roles s role) (values s.tasks)

abbrev pub live_count : TeamState → String → ℕ
live_count s role =
    count (λ (w : WorkerInfo). str_eq w.role role && not (is_offline w.status)) (values s.workers)

abbrev pub idle_count : TeamState → String → ℕ
idle_count s role =
    count (λ (w : WorkerInfo). str_eq w.role role && not (is_offline w.status) && is_idle w.status)
      (values s.workers)

abbrev pub launching_count : TeamState → String → ℕ
launching_count s role =
    count (λ (r : ProvisionRecord). str_eq r.role role && is_launching r.status)
      (values s.provisioning)

-- `computeRoleDemand`
unfoldable pub role_demand : Limits → List RoleDefinition → TeamState → String → ℕ
role_demand limits roles s role =
    let active = live_count s role in
    let launching = launching_count s role in
    let warm_shortfall = limits.min_per_role - (active + launching) in
    let queue_driven_need = pending_count roles s role - idle_count s role - launching in
    let cap = limits.max_per_role - active - launching in
    min cap (max warm_shortfall queue_driven_need)
