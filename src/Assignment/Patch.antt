-- ===== src/Assignment/Patch.antt =====
-- src/src/controller/http-server.ts, PATCH /api/v1/tasks/:id: a request sets fields of a task, whatever its
-- state, and the changes go to its log.
use teamclaw.Prelude.{
  ℕ, String, ◌≡◌, Bool, true, false, ◌&&◌, ◌||◌, not, Option, none, some, if◌then◌else◌,
  text_truthy, or_else, get_or, str_eq, get, inl, inr, Bool-cases, Option-cases, ◌<>◌, is_some,
}
use teamclaw.Team.{
  TaskStatus, ExecStatus, EventType, Source, EventInput, Execution, TaskInfo, TeamState,
  is_in_progress,
}
use teamclaw.Execution.{append_event, map_task_status}
use teamclaw.Assignment.{option_eq, with_task, controller_event}
use teamclaw.Assignment.Invariant.{IsBound, FitsTask, is_held, is_resting, with_task-IsBound}
use teamclaw.Assignment.Preservation.{append_event-FitsTask}

-- What a body asks for. `summary` is that of its progress contract, normalized or filled from
-- `progress`, if there is one; `is_new` tells whether this contract differs from the one recorded.
pub record Patch : Type 0 where
  pub status : Option TaskStatus
  pub progress : Option String
  pub priority : Option String
  pub assigned_role : Option String
  pub summary : Option String
  pub is_new : Bool

abbrev task_status_name : TaskStatus → String
task_status_name TaskStatus.pending = "pending"
task_status_name TaskStatus.assigned = "assigned"
task_status_name TaskStatus.in_progress = "in_progress"
task_status_name TaskStatus.blocked = "blocked"
task_status_name TaskStatus.review = "review"
task_status_name TaskStatus.completed = "completed"
task_status_name TaskStatus.failed = "failed"

abbrev is_review : TaskStatus → Bool
is_review TaskStatus.review = true
is_review _ = false

abbrev progress_of : Patch → TaskInfo → Option String
progress_of p t =
    let said = or_else p.progress t.progress in
    elim p.summary [ none ↦ said | some text ↦ if text_truthy said then said else some text ]

abbrev set_fields : ℕ → Patch → TaskInfo → TaskInfo
set_fields now p t = record t {
  status = get_or p.status t.status;
  progress = progress_of p t;
  priority = get_or p.priority t.priority;
  assigned_role = or_else p.assigned_role t.assigned_role;
  updated_at = now;
}

abbrev log_status : Option Execution → Option ExecStatus
log_status none = none
log_status (some e) = some e.status

-- The event of a change of the status.
abbrev note_status : String → ℕ → Patch → TaskStatus → TaskInfo → TaskInfo
note_status id now p previous t =
    if is_some p.status && not (str_eq (task_status_name t.status) (task_status_name previous))
    then (append_event id now t
        (record (controller_event EventType.lifecycle ("status_" <> task_status_name t.status)
          ("Task status updated to " <> (task_status_name t.status <> "."))) {
            status = some (map_task_status t.status (log_status t.execution));
          })).0
    else t

abbrev progress_event : String → String → TaskStatus → EventInput
progress_event phase message status = record (controller_event EventType.progress phase message) {
  source = some Source.worker;
  status = if is_in_progress status || is_review status then some ExecStatus.running else none;
}

-- The event of another progress contract.
abbrev note_contract : String → ℕ → Patch → TaskInfo → TaskInfo
note_contract id now p t = elim p.summary [
  | none ↦ t
  | some text ↦
      if p.is_new
      then (append_event id now t (progress_event "progress_contract_reported" text t.status)).0
      else t
]

-- The event of a change of the progress text, or else of the progress contract.
abbrev note_progress : String → ℕ → Patch → Option String → TaskInfo → TaskInfo
note_progress id now p previous t = elim p.progress [
  | none ↦ note_contract id now p t
  | some text ↦
      if option_eq previous text
      then note_contract id now p t
      else (append_event id now t (progress_event "progress_reported" text t.status)).0
]

abbrev pub patched_task : String → String → ℕ → Patch → TaskInfo → TaskInfo
patched_task status_id progress_id now p t =
    note_progress progress_id now p t.progress
      (note_status status_id now p t.status (set_fields now p t))

-- The update of the handler.
unfoldable pub patch_task : String → String → ℕ → String → Patch → TeamState → TeamState
patch_task status_id progress_id now task_id p s =
    with_task task_id (patched_task status_id progress_id now p) s

-- The request takes no task under way that was not, and sets none to rest that has a worker.
abbrev pub IsSteady : TeamState → String → Patch → Type 0
IsSteady s task_id p =
    (t : TaskInfo)
    → get s.tasks task_id ≡ some t
    → (st : TaskStatus) → p.status ≡ some st
    → (is_held st ≡ true → is_held t.status ≡ true)
      × (is_resting st ≡ true → t.assigned_worker_id ≡ none)

module _ (id : String) (now : ℕ) (p : Patch) (task_id : String) (s : TeamState) where
  note_status-FitsTask :
      (previous : TaskStatus) (t : TaskInfo)
      → FitsTask task_id t s.workers
      → FitsTask task_id (note_status id now p previous t) s.workers
  note_status-FitsTask previous t h =
      elim (Bool-cases (
        is_some p.status && not (str_eq (task_status_name t.status) (task_status_name previous)))) [
          | inl changed ↦ rw changed (append_event-FitsTask id now t _ task_id s.workers h)
          | inr same ↦ rw same h
        ]

  note_contract-FitsTask :
      (t : TaskInfo)
      → FitsTask task_id t s.workers
      → FitsTask task_id (note_contract id now p t) s.workers
  note_contract-FitsTask t h = elim (Option-cases p.summary) [
    | inl bare ↦ rw bare h
    | inr (text, there) ↦ elim (Bool-cases p.is_new) [
      | inl fresh ↦ rw (there, fresh) (append_event-FitsTask id now t _ task_id s.workers h)
      | inr known ↦ rw (there, known) h
    ]
  ]

  note_progress-FitsTask :
      (previous : Option String) (t : TaskInfo)
      → FitsTask task_id t s.workers
      → FitsTask task_id (note_progress id now p previous t) s.workers
  note_progress-FitsTask previous t h = elim (Option-cases p.progress) [
    | inl bare ↦ rw bare (note_contract-FitsTask t h)
    | inr (text, there) ↦ elim (Bool-cases (option_eq previous text)) [
      | inl same ↦ rw (there, same) (note_contract-FitsTask t h)
      | inr changed ↦ rw (there, changed) (append_event-FitsTask id now t _ task_id s.workers h)
    ]
  ]

  set_fields-FitsTask :
      (t : TaskInfo)
      → get s.tasks task_id ≡ some t
      → IsSteady s task_id p
      → FitsTask task_id t s.workers
      → FitsTask task_id (set_fields now p t) s.workers
  set_fields-FitsTask t here steady h = elim (Option-cases p.status) [
    | inl kept ↦ rw kept h
    | inr (st, asked) ↦
        let ok = steady t here st asked in rw asked ((λ held. h.0 (ok.0 held)), ok.1)
  ]

pub patch_task-IsBound :
    (status_id progress_id : String) (now : ℕ) (task_id : String) (p : Patch) (s : TeamState)
    → IsSteady s task_id p
    → IsBound s
    → IsBound (patch_task status_id progress_id now task_id p s)
unfolding patch_task
patch_task-IsBound status_id progress_id now task_id p s steady b =
    with_task-IsBound s task_id _ b λ t here.
      note_progress-FitsTask progress_id now p task_id s t.progress _ (
        note_status-FitsTask status_id now p task_id s t.status _
          (set_fields-FitsTask status_id now p task_id s t here steady (rw here at (b.at task_id))))
