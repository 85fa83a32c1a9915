-- ===== src/Execution.antt =====
-- The execution log of a task: src/src/controller/http-server.ts, from `mapTaskStatusToExecutionStatus`
-- to `buildTaskExecutionSummary`. `Date.now()` and `generateId()` are arguments.
pub mod Events
pub mod Stamps
use teamclaw.Prelude.{
  ℕ, ◌-◌, String, Bool, true, false, ◌&&◌, ◌||◌, not, Option, none, some, List, [], ◌∷◌, ◌++◌, ltb,
  if◌then◌else◌, num_truthy, text_truthy, is_some, or_else, get_or, length, take_last, last?,
  str_eq,
}
use teamclaw.Team.{
  TaskStatus, ExecStatus, Event, EventInput, Execution, ExecutionSummary, TaskInfo, is_pending,
  is_assigned,
}

abbrev pub max_task_execution_events : ℕ
max_task_execution_events = 250

unfoldable pub map_task_status : TaskStatus → Option ExecStatus → ExecStatus
map_task_status TaskStatus.completed current = ExecStatus.completed
map_task_status TaskStatus.failed current = ExecStatus.failed
map_task_status TaskStatus.in_progress current = ExecStatus.running
map_task_status TaskStatus.review current = ExecStatus.running
map_task_status TaskStatus.pending current = get_or current ExecStatus.pending
map_task_status TaskStatus.assigned current = get_or current ExecStatus.pending
map_task_status TaskStatus.blocked current = get_or current ExecStatus.running

-- `status` and `events` of a log that is there are never missing.
unfoldable pub ensure_task_execution : TaskInfo → Execution
unfolding map_task_status
ensure_task_execution t = elim t.execution [
  | none ↦ record {
    status = map_task_status t.status none;
    run_id = none;
    session_key = none;
    started_at = t.started_at;
    ended_at = t.completed_at;
    last_updated_at = some t.updated_at;
    events = [];
  }
  | some e ↦ record e {
    started_at = or_else e.started_at t.started_at;
    ended_at = or_else e.ended_at t.completed_at;
    last_updated_at = or_else e.last_updated_at (some t.updated_at);
  }
]

abbrev reset_execution : ℕ → Execution → Execution
reset_execution now e = record e {
  status = ExecStatus.pending;
  run_id = none;
  session_key = none;
  started_at = none;
  ended_at = none;
  last_updated_at = some now;
}

abbrev reset_option : ℕ → Option Execution → Option Execution
reset_option now none = none
reset_option now (some e) = some (reset_execution now e)

unfoldable pub reset_for_fresh_attempt : ℕ → TaskInfo → TaskInfo
reset_for_fresh_attempt now t = record t {
  started_at = none;
  completed_at = none;
  result = none;
  error = none;
  result_contract = none;
  execution = reset_option now t.execution;
}

abbrev is_running_option : Option ExecStatus → Bool
is_running_option (some ExecStatus.running) = true
is_running_option _ = false

abbrev is_run_started : Option String → Bool
is_run_started none = false
is_run_started (some p) = str_eq p "run_started"

-- input.status === "running" || input.phase === "run_started"
abbrev pub starts_run : EventInput → Bool
starts_run i = is_running_option i.status || is_run_started i.phase

abbrev pub is_ended : ExecStatus → Bool
is_ended ExecStatus.completed = true
is_ended ExecStatus.failed = true
is_ended _ = false

unfoldable pub push_event : List Event → Event → List Event
push_event events event =
    let all_events = events ++ event ∷ [] in
    if ltb max_task_execution_events (length all_events)
    then take_last max_task_execution_events all_events
    else all_events

abbrev event_of : String → ℕ → EventInput → TaskInfo → Event
event_of id now i t = record {
  id = id;
  type = i.type;
  created_at = now;
  message = i.message;
  phase = i.phase;
  source = i.source;
  stream = i.stream;
  role = or_else i.role t.assigned_role;
  worker_id = or_else i.worker_id t.assigned_worker_id;
}

-- The fields of the log that an event changes before it is appended.
stamp_execution : ℕ → EventInput → TaskStatus → Execution → Execution
unfolding map_task_status
stamp_execution now i task_status e =
    let status = get_or i.status (map_task_status task_status (some e.status)) in
    record e {
      run_id = if text_truthy i.run_id then i.run_id else e.run_id;
      session_key = if text_truthy i.session_key then i.session_key else e.session_key;
      status = status;
      started_at = if starts_run i && not (num_truthy e.started_at) then some now else e.started_at;
      ended_at = if is_ended status then or_else e.ended_at (some now) else e.ended_at;
      last_updated_at = some now;
    }

abbrev started_status : EventInput → TaskStatus → TaskStatus
started_status i status =
    if starts_run i && (is_pending status || is_assigned status)
    then TaskStatus.in_progress
    else status

-- The task with the event in its log, and the event.
unfoldable pub append_event : String → ℕ → TaskInfo → EventInput → TaskInfo × Event
unfolding ensure_task_execution stamp_execution push_event
append_event id clock t i =
    let now = get_or i.created_at clock in
    let e = stamp_execution now i t.status (ensure_task_execution t) in
    let event = event_of id now i t in
    (
      record t {
        started_at =
            if starts_run i && not (num_truthy t.started_at) then some now else t.started_at;
        status = started_status i t.status;
        updated_at = now;
        execution = some (record e { events = push_event e.events event });
      },
      event,
    )

unfoldable pub summary : Option Execution → Option ExecutionSummary
summary none = none
summary (some e) = some (record {
  status = e.status;
  run_id = e.run_id;
  started_at = e.started_at;
  ended_at = e.ended_at;
  last_updated_at = e.last_updated_at;
  event_count = length e.events;
  last_event = last? e.events;
})
