-- ===== src/Steps.antt =====
-- The controller as a transition system: the updates of src/src/controller/http-server.ts,
-- controller-service.ts and worker-provisioning.ts that set the status or the worker of a task that
-- is there, or the status or the current task of a worker, in any order. A step that can break the
-- binding of tasks to workers carries the condition under which it is taken, which the update itself
-- does not check. Tasks are neither made nor deleted here.
use teamclaw.Prelude.{ℕ, String, ◌≡◌, Option, none, some, List, get, true, arith}
use teamclaw.Team.{
  TaskInfo, WorkerInfo, WorkerStatus, EventInput, Clarification, Handoff, TeamState,
}
use teamclaw.Assignment.{
  assign_task, revert_assignment, apply_result, request_clarification, answer_clarification,
  hand_off, record_event,
}
use teamclaw.Assignment.Invariant.{IsBound, IsBusyWith, HasWorker, FitsTask, is_held}
use teamclaw.Assignment.Preservation.{
  assign_task-IsBound, revert_assignment-IsBound, record_event-IsBound,
}
use teamclaw.Assignment.Release.{
  IsCurrent, apply_result-IsBound, request_clarification-IsBound, answer_clarification-IsBound,
  hand_off-IsBound,
}
use teamclaw.Assignment.Patch.{Patch, patch_task, IsSteady, patch_task-IsBound}
use teamclaw.Provisioning.{begin_termination}
use teamclaw.Workers.{register_worker, heartbeat, remove_worker, check_workers, resume_orphans}
use teamclaw.Workers.Preservation.{
  IsFree, IsHonest, register_worker-IsBound, heartbeat-IsBound, begin_termination-IsBound,
}
use teamclaw.Workers.Timeouts.{remove_worker-IsBound, check_workers-IsBound, resume_orphans-IsBound}

abbrev pub CurrentAt : TeamState → String → Type 0
CurrentAt s task_id = (t : TaskInfo) → get s.tasks task_id ≡ some t → IsCurrent t

pub data Step (s : TeamState) : TeamState → Type 0 where
  assigns :
      (now : ℕ) (task_id worker_id : String) (role : Option String)
      → Step s (assign_task now task_id worker_id role s).0
  reverts :
      (event_id : String) (now : ℕ) (task_id worker_id : String)
      → Step s (revert_assignment event_id now task_id worker_id s)
  records :
      (event_id : String) (now : ℕ) (task_id : String) (i : EventInput)
      → Step s (record_event event_id now task_id i s)
  -- Not for a task that had ended and still names a worker.
  finishes :
      (event_id : String) (now : ℕ) (task_id result : String) (error : Option String)
      → CurrentAt s task_id
      → Step s (apply_result event_id now task_id result error s)
  asks : (now : ℕ) (c : Clarification) → Step s (request_clarification now c s).0
  -- Not when the task of the clarification got a worker before the answer came.
  answers :
      (now : ℕ) (id answer by : String)
      → ((c : Clarification)
          → get s.clarifications id ≡ some c
          → (t : TaskInfo) → get s.tasks c.task_id ≡ some t
          → t.assigned_worker_id ≡ none)
      → Step s (answer_clarification now id answer by s).0
  -- Not for a task that had ended and still names a worker.
  hands_off :
      (now : ℕ) (task_id : String) (role : Option String) (contract : Handoff) {s' : TeamState}
      → CurrentAt s task_id
      → hand_off now task_id role contract s ≡ some s'
      → Step s s'
  -- Not for a worker that comes back while a task under way is assigned to it.
  registers :
      (now : ℕ) (worker_id role label url : String) (capabilities : List String)
      → IsFree s worker_id
      → Step s (register_worker now worker_id role label url capabilities s)
  -- The report agrees with the record, or no task under way is assigned to the worker.
  beats :
      (now : ℕ) (worker_id : String) (status : WorkerStatus) (current : Option String)
      → IsHonest s worker_id status current
      → Step s (heartbeat now worker_id status current s)
  -- Not for a worker that got a task since it was picked.
  terminates :
      (now : ℕ) (worker_id : String)
      → IsFree s worker_id
      → Step s (begin_termination now worker_id s)
  -- PATCH /api/v1/tasks/:id; not to take a task under way that was not, nor to set one to rest that has
  -- a worker.
  patches :
      (status_id progress_id : String) (now : ℕ) (task_id : String) (p : Patch)
      → IsSteady s task_id p
      → Step s (patch_task status_id progress_id now task_id p s)
  removes : (now : ℕ) (worker_id : String) → Step s (remove_worker now worker_id s)
  checks : (now : ℕ) (ids : List String) → get s.tasks "" ≡ none → Step s (check_workers now ids s)
  restarts : (now : ℕ) → Step s (resume_orphans now s)

pub data Reach (s : TeamState) : TeamState → Type 0 where
  here : Reach s s
  next : {t u : TeamState} → Reach s t → Step t u → Reach s u

pub Step-IsBound : {s t : TeamState} → Step s t → IsBound s → IsBound t
Step-IsBound {s} (assigns now task_id worker_id role) b =
    assign_task-IsBound now task_id worker_id role s b
Step-IsBound {s} (reverts event_id now task_id worker_id) b =
    revert_assignment-IsBound event_id now task_id worker_id s b
Step-IsBound {s} (records event_id now task_id i) b =
    record_event-IsBound event_id now task_id i s b
Step-IsBound {s} (finishes event_id now task_id result error current) b =
    apply_result-IsBound event_id now task_id result error s current b
Step-IsBound {s} (asks now c) b = request_clarification-IsBound now c s b
Step-IsBound {s} (answers now id answer by free) b =
    answer_clarification-IsBound now id answer by s free b
Step-IsBound {s} (hands_off now task_id role contract current e) b =
    hand_off-IsBound now task_id role contract s _ current e b
Step-IsBound {s} (registers now worker_id role label url capabilities free) b =
    register_worker-IsBound now worker_id role label url capabilities s free b
Step-IsBound {s} (beats now worker_id status current honest) b =
    heartbeat-IsBound now worker_id status current s honest b
Step-IsBound {s} (terminates now worker_id free) b =
    begin_termination-IsBound now worker_id s free b
Step-IsBound {s} (patches status_id progress_id now task_id p steady) b =
    patch_task-IsBound status_id progress_id now task_id p s steady b
Step-IsBound {s} (removes now worker_id) b = remove_worker-IsBound now worker_id s b
Step-IsBound {s} (checks now ids no_empty) b = check_workers-IsBound now ids s no_empty b
Step-IsBound {s} (restarts now) b = resume_orphans-IsBound now s b

Reach-IsBound : {s t : TeamState} → Reach s t → IsBound s → IsBound t
Reach-IsBound here b = b
Reach-IsBound (next r st) b = Step-IsBound st (Reach-IsBound r b)

IsBound-busy :
    (t : TeamState) (i worker_id : String) (a : TaskInfo) (w : WorkerInfo)
    → IsBound t
    → get t.tasks i ≡ some a
    → is_held a.status ≡ true
    → a.assigned_worker_id ≡ some worker_id
    → get t.workers worker_id ≡ some w
    → IsBusyWith i (some w)
IsBound-busy t i worker_id a w bound at_i held mine there =
    let fits : FitsTask i a t.workers = rw at_i at (bound.at i) in
    let has : HasWorker i (some worker_id) t.workers = rw mine at (fits.0 held) in rw there at has

-- From a state in which every task under way is bound to a worker that is busy with it (if it is
-- registered), and none that is pending or blocked has a worker, whatever steps of `Step` follow:
-- two tasks that are under way at the same registered worker are one task, and the worker is busy
-- with it. `Step` has no condition on assignment, reversal, events, questions, removal, the timeout
-- monitor on its ids (no task has the empty id) and the clean-up at the start. The others are held
-- to this: a result or a handoff is not for a task that ended and still names a worker; an answer
-- comes while its task has no worker; a worker registers, is terminated or reports something else
-- than its record only while no task under way is assigned to it; a PATCH takes no task under way
-- that was not, and sets none to rest that has a worker.
pub Reach-exclusive :
    (s t : TeamState) (i j worker_id : String) (a b : TaskInfo) (w : WorkerInfo)
    → IsBound s
    → Reach s t
    → get t.tasks i ≡ some a
    → get t.tasks j ≡ some b
    → is_held a.status ≡ true
    → is_held b.status ≡ true
    → a.assigned_worker_id ≡ some worker_id
    → b.assigned_worker_id ≡ some worker_id
    → get t.workers worker_id ≡ some w
    → (i ≡ j) × (w.status ≡ WorkerStatus.busy) × (w.current_task_id ≡ some i)
Reach-exclusive s t i j worker_id a b w bound run at_i at_j held held_j mine mine_j there =
    let left = IsBound-busy t i worker_id a w (Reach-IsBound run bound) at_i held mine there in
    let right = IsBound-busy t j worker_id b w (Reach-IsBound run bound) at_j held_j mine_j there in
    (ground arith, left.0, left.1)
