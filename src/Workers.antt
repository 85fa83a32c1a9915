-- ===== src/Workers.antt =====
-- The registry of workers: src/src/controller/http-server.ts, registration, removal and heartbeat, and
-- src/src/controller/controller-service.ts, the timeout monitor and the clean-up at the start.
pub mod Preservation
pub mod Timeouts
pub mod Orphans
use teamclaw.Prelude.{
  ℕ, ◌+◌, ◌-◌, String, Bool, true, false, ◌&&◌, ◌||◌, not, Option, none, some, List, [], ◌∷◌,
  if◌then◌else◌, get_or, str_eq, Dict, get, put, remove, alter, map_values, ltb, ◌<>◌, is_some,
  str_truthy, str_take,
}
use teamclaw.Team.{
  WorkerStatus, TaskStatus, TaskInfo, WorkerInfo, Checkpoint, TeamState, is_offline, is_assigned,
  is_in_progress, is_completed, is_failed, is_blocked,
}
use teamclaw.Execution.{reset_for_fresh_attempt}
use teamclaw.Assignment.{with_task, with_worker, option_eq}

-- `WORKER_TIMEOUT_MS` of src/src/protocol.ts
abbrev pub worker_timeout_ms : ℕ
worker_timeout_ms = 30000

abbrev pub max_resume_attempts : ℕ
max_resume_attempts = 3

-- The update of POST /api/v1/workers/register, for a request that passed validation.
unfoldable pub register_worker :
    ℕ → String → String → String → String → List String → TeamState → TeamState
register_worker now worker_id role label url capabilities s = record s {
  workers = put s.workers worker_id (record {
    id = worker_id;
    role = role;
    label = label;
    status = WorkerStatus.idle;
    url = url;
    last_heartbeat = now;
    capabilities = capabilities;
    current_task_id = none;
    registered_at = now;
  });
}

abbrev beat : ℕ → WorkerStatus → Option String → WorkerInfo → WorkerInfo
beat now status current w = record w {
  last_heartbeat = now;
  status = status;
  current_task_id = current;
}

-- The update of POST /api/v1/workers/:id/heartbeat.
unfoldable pub heartbeat : ℕ → String → WorkerStatus → Option String → TeamState → TeamState
heartbeat now worker_id status current s = with_worker worker_id (beat now status current) s

abbrev pub is_settled : TaskStatus → Bool
is_settled st = is_completed st || is_failed st || is_blocked st

abbrev pub dropped_task : ℕ → String → TaskInfo → TaskInfo
dropped_task now worker_id t =
    if option_eq t.assigned_worker_id worker_id && not (is_settled t.status)
    then record (reset_for_fresh_attempt now
        (record t { status = TaskStatus.pending; assigned_worker_id = none })) { updated_at = now }
    else t

-- The update of DELETE /api/v1/workers/:id.
unfoldable pub remove_worker : ℕ → String → TeamState → TeamState
unfolding reset_for_fresh_attempt
remove_worker now worker_id s = record s {
  workers = remove s.workers worker_id;
  tasks = map_values (dropped_task now worker_id) s.tasks;
}

abbrev pub lost_task : ℕ → String → TaskInfo → TaskInfo
lost_task now worker_id t =
    if option_eq t.assigned_worker_id worker_id && not (is_settled t.status)
    then record t { status = TaskStatus.pending; assigned_worker_id = none; updated_at = now }
    else t

abbrev pub gone_offline : WorkerInfo → WorkerInfo
gone_offline w = record w { status = WorkerStatus.offline; current_task_id = none }

abbrev pub release_lost : ℕ → String → Option String → TeamState → TeamState
release_lost now worker_id none s = s
release_lost now worker_id (some task_id) s =
    if str_truthy task_id then with_task task_id (lost_task now worker_id) s else s

-- One worker in a round of the timeout monitor.
unfoldable pub check_worker : ℕ → String → TeamState → TeamState
check_worker now worker_id s = elim (get s.workers worker_id) [
  | none ↦ s
  | some w ↦
      if not (ltb worker_timeout_ms (now - w.last_heartbeat))
      then s
      else if is_offline w.status
      then record s { workers = remove s.workers worker_id }
      else release_lost now worker_id w.current_task_id (with_worker worker_id gone_offline s)
]

-- The rounds of the monitor over the identifiers that `Object.entries` lists at its start.
unfoldable pub check_workers : ℕ → List String → TeamState → TeamState
unfolding check_worker
check_workers now [] s = s
check_workers now (worker_id ∷ rest) s = check_workers now rest (check_worker now worker_id s)

-- The assigned worker is missing or offline.
abbrev pub is_orphan : Dict WorkerInfo → TaskInfo → Bool
is_orphan workers t = elim t.assigned_worker_id [
  | none ↦ false
  | some worker_id ↦
      str_truthy worker_id
      && (is_assigned t.status || is_in_progress t.status)
      && elim (get workers worker_id) [ none ↦ true | some w ↦ is_offline w.status ]
]

abbrev at_attempt : ℕ → Option Checkpoint → Option Checkpoint
at_attempt attempt none = none
at_attempt attempt (some c) = some (record c { attempt = attempt })

-- task.checkpoint?.lastAssistantMessage?.slice(0, 200) ?? "none"
abbrev last_message : Option Checkpoint → String
last_message none = "none"
last_message (some c) = str_take 200 c.last_assistant_message

abbrev pub gave_up : ℕ → TaskInfo → TaskInfo
gave_up now t = record t {
  status = TaskStatus.failed;
  error =
      some (
        "resumed 3 times without completing (last checkpoint: "
        <> last_message t.checkpoint
        <> ")");
  updated_at = now;
}

abbrev pub resumed : ℕ → ℕ → TaskInfo → TaskInfo
resumed now attempt t = record t {
  status = TaskStatus.pending;
  assigned_worker_id = none;
  resume_attempt = some attempt;
  checkpoint = at_attempt attempt t.checkpoint;
  updated_at = now;
}

-- One task in the clean-up of orphans at the start.
unfoldable pub resume_orphan : ℕ → Dict WorkerInfo → TaskInfo → TaskInfo
resume_orphan now workers t =
    let attempt = get_or t.resume_attempt 0 + 1 in
    if not (is_orphan workers t)
    then t
    else if ltb max_resume_attempts attempt
    then gave_up now t
    else resumed now attempt t

unfoldable pub resume_orphans : ℕ → TeamState → TeamState
unfolding resume_orphan
resume_orphans now s = record s { tasks = map_values (resume_orphan now s.workers) s.tasks }
