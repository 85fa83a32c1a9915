-- ===== src/Assignment.antt =====
-- The binding of tasks to workers: src/src/controller/http-server.ts, the state updates of assignment,
-- reversal, results, clarifications, handoff and checkpoints. Each function is one `updateTeamState`;
-- `now` is `Date.now()`, and identifiers that `generateId()` makes are arguments.
pub mod Invariant
pub mod Preservation
pub mod Release
pub mod Effects
pub mod Stale
pub mod Clarify
pub mod Patch
use teamclaw.Prelude.{
  ℕ, String, Bool, true, false, ◌&&◌, ◌||◌, not, Option, none, some, List, [], ◌∷◌, ◌++◌,
  if◌then◌else◌, num_truthy, text_truthy, str_truthy, is_some, or_else, get_or, str_eq, Dict, get,
  put, alter, any, take_last, ◌<>◌,
}
use teamclaw.Team.{
  WorkerStatus, TaskStatus, ExecStatus, EventType, Source, EventInput, TaskInfo, WorkerInfo,
  Clarification, ClarificationStatus, Checkpoint, Handoff, TeamState, is_idle, is_offline,
  is_pending, is_assigned, is_in_progress, is_completed, is_failed,
}
use teamclaw.Execution.{append_event, reset_for_fresh_attempt}

abbrev pub option_eq : Option String → String → Bool
option_eq none b = false
option_eq (some a) b = str_eq a b

-- An event input with the fields that the controller leaves out.
abbrev pub controller_event : EventType → String → String → EventInput
controller_event type phase message = record {
  type = type;
  message = message;
  created_at = none;
  phase = some phase;
  source = some Source.controller;
  stream = none;
  role = none;
  worker_id = none;
  run_id = none;
  session_key = none;
  status = none;
}

abbrev pub with_task : String → (TaskInfo → TaskInfo) → TeamState → TeamState
with_task task_id f s = record s { tasks = alter s.tasks task_id f }

abbrev pub with_worker : String → (WorkerInfo → WorkerInfo) → TeamState → TeamState
with_worker worker_id f s = record s { workers = alter s.workers worker_id f }

-- `recordTaskExecutionEvent`: nothing happens for a task that is not there.
unfoldable pub record_event : String → ℕ → String → EventInput → TeamState → TeamState
record_event event_id now task_id i s = with_task task_id (λ t. (append_event event_id now t i).0) s

-- A worker whose task is taken away: an offline one stays offline.
abbrev pub release_worker : WorkerInfo → WorkerInfo
release_worker w = record w {
  status = if is_offline w.status then w.status else WorkerStatus.idle;
  current_task_id = none;
}

abbrev pub can_assign : TaskInfo → String → Bool
can_assign t worker_id =
    is_pending t.status || is_assigned t.status && option_eq t.assigned_worker_id worker_id

abbrev pub assigned_task : ℕ → String → Option String → TaskInfo → TaskInfo
assigned_task now worker_id role t =
    let t' = record t {
      status = TaskStatus.assigned;
      assigned_worker_id = some worker_id;
      assigned_role = if text_truthy role then role else t.assigned_role;
    } in
    record (reset_for_fresh_attempt now t') { updated_at = now }

-- The update of `assignTaskToWorker`, and `assignmentApplied`.
unfoldable pub assign_task : ℕ → String → String → Option String → TeamState → TeamState × Bool
unfolding reset_for_fresh_attempt
assign_task now task_id worker_id role s = elim (get s.tasks task_id) [
  | none ↦ (s, false)
  | some t ↦ elim (get s.workers worker_id) [
    | none ↦ (s, false)
    | some w ↦
        if is_idle w.status && can_assign t worker_id
        then (
          with_worker worker_id
              (λ w. record w { status = WorkerStatus.busy; current_task_id = some task_id })
              (with_task task_id (assigned_task now worker_id role) s),
          true,
        )
        else (s, false)
  ]
]

abbrev pub reverted_task : String → ℕ → String → TaskInfo → TaskInfo
reverted_task event_id now worker_id t =
    if option_eq t.assigned_worker_id worker_id
    then (append_event event_id now
        (record t { status = TaskStatus.pending; assigned_worker_id = none; updated_at = now })
        (controller_event EventType.error "assignment_reverted"
          ("Assignment to " <> worker_id <> " was reverted; task returned to pending."))).0
    else t

abbrev pub reverted_worker : String → WorkerInfo → WorkerInfo
reverted_worker task_id w = if option_eq w.current_task_id task_id then release_worker w else w

-- The update of `revertTaskAssignment`.
unfoldable pub revert_assignment : String → ℕ → String → String → TeamState → TeamState
revert_assignment event_id now task_id worker_id s = elim (get s.tasks task_id) [
  | none ↦ s
  | some t ↦
      with_worker worker_id (reverted_worker task_id)
        (with_task task_id (reverted_task event_id now worker_id) s)
]

-- `canAcceptWorkerUpdate`
unfoldable pub can_accept : Option TaskInfo → String → Bool
can_accept none worker_id = false
can_accept (some t) worker_id =
    if not (option_eq t.assigned_worker_id worker_id) || num_truthy t.completed_at
    then false
    else elim t.status [ TaskStatus.pending ↦ false | TaskStatus.blocked ↦ false | _ ↦ true ]

-- `if (id && s.workers[id])` the worker is released.
abbrev release_assigned : Option String → TeamState → TeamState
release_assigned none s = s
release_assigned (some worker_id) s =
    if str_truthy worker_id then with_worker worker_id release_worker s else s

abbrev pub finished_task : String → ℕ → String → Option String → TaskInfo → TaskInfo
finished_task event_id now result error t =
    let is_error = text_truthy error in
    let t' = record t {
      status = if is_error then TaskStatus.failed else TaskStatus.completed;
      result = some result;
      error = error;
      completed_at = some now;
      updated_at = now;
    } in
    (append_event event_id now t'
      (record (controller_event (if is_error then EventType.error else EventType.lifecycle)
        (if is_error then "result_failed" else "result_completed")
        (if is_error then "Task failed: " <> get_or error "" else "Task completed successfully.")) {
          status = some (if is_error then ExecStatus.failed else ExecStatus.completed);
          worker_id = t.assigned_worker_id;
          role = t.assigned_role;
        })).0

-- The update of `applyTaskResult`. What it infers of the deliverables is not part of the state here.
unfoldable pub apply_result : String → ℕ → String → String → Option String → TeamState → TeamState
apply_result event_id now task_id result error s = elim (get s.tasks task_id) [
  | none ↦ s
  | some t ↦
      release_assigned t.assigned_worker_id
        (with_task task_id (finished_task event_id now result error) s)
]

pub data Requested : Type 0 where
  created already_pending conflict missing_task : Requested

abbrev pub is_open : Option Clarification → Bool
is_open none = false
is_open (some c) = elim c.status [
  | ClarificationStatus.pending ↦ true
  | ClarificationStatus.answered ↦ false
]

-- The task waits for a clarification that nobody has answered.
abbrev pub waits : TeamState → TaskInfo → Bool
waits s t = elim t.clarification_request_id [
  | none ↦ false
  | some c ↦ str_truthy c && is_open (get s.clarifications c)
]

abbrev pub blocked_task : ℕ → Clarification → TaskInfo → TaskInfo
blocked_task now c t = record t {
  status = TaskStatus.blocked;
  progress = some ("Awaiting clarification: " <> c.question);
  clarification_request_id = some c.id;
  assigned_worker_id = none;
  updated_at = now;
}

-- The guards and the update of `requestTaskClarification`, for the request `c` that it builds.
unfoldable pub request_clarification : ℕ → Clarification → TeamState → TeamState × Requested
request_clarification now c s = elim (get s.tasks c.task_id) [
  | none ↦ (s, missing_task)
  | some t ↦
      if waits s t
      then (s, already_pending)
      else if is_completed t.status || is_failed t.status
      then (s, conflict)
      else (
        release_assigned t.assigned_worker_id (
            with_task c.task_id (blocked_task now c)
              (record s { clarifications = put s.clarifications c.id c })),
        created,
      )
]

pub data Answered : Type 0 where
  answered not_found empty_answer already_answered : Answered

abbrev pub answered_task : ℕ → String → String → TaskInfo → TaskInfo
answered_task now answer by t =
    let t' = record t {
      status = TaskStatus.pending;
      progress = some ("Clarification answered by " <> by <> ": " <> answer);
      clarification_request_id = none;
    } in
    record (reset_for_fresh_attempt now t') { updated_at = now }

abbrev pub answered_clarification : ℕ → String → String → Clarification → Clarification
answered_clarification now answer by c = record c {
  status = ClarificationStatus.answered;
  answer = some answer;
  answered_by = some by;
  answered_at = some now;
  updated_at = now;
}

-- The guards and the update of POST /api/v1/clarifications/:id/answer, for the built answer text.
unfoldable pub answer_clarification :
    ℕ → String → String → String → TeamState → TeamState × Answered
unfolding reset_for_fresh_attempt
answer_clarification now id answer by s = elim (get s.clarifications id) [
  | none ↦ (s, not_found)
  | some c ↦
      if not (str_truthy answer)
      then (s, empty_answer)
      else if not (is_open (some c))
      then (s, already_answered)
      else (
        with_task c.task_id (answered_task now answer by) (record s {
          clarifications = alter s.clarifications id (answered_clarification now answer by);
        }),
        answered,
      )
]

abbrev pub handed_off_task : ℕ → Option String → Handoff → TaskInfo → TaskInfo
handed_off_task now role contract t =
    let t' = record t {
      status = TaskStatus.pending;
      assigned_worker_id = none;
      assigned_role = or_else role t.assigned_role;
      last_handoff = some contract;
    } in
    record (reset_for_fresh_attempt now t') { updated_at = now }

-- The first update of POST /api/v1/tasks/:id/handoff; `none` is its answer 404.
unfoldable pub hand_off : ℕ → String → Option String → Handoff → TeamState → Option TeamState
unfolding reset_for_fresh_attempt
hand_off now task_id role contract s = elim (get s.tasks task_id) [
  | none ↦ none
  | some t ↦ some (
      release_assigned t.assigned_worker_id
        (with_task task_id (handed_off_task now role contract) s))
]
