-- ===== src/Team.antt =====
-- The state of the controller: src/src/types.ts. Every string is a native `String`; a field `x?: T` is
-- an `Option`. `RoleId` and `TaskPriority` come from request bodies by a cast and are strings here.
use teamclaw.Prelude.{ℕ, String, Option, List, Dict, Bool, true, false}

pub data WorkerStatus : Type 0 where
  idle busy offline : WorkerStatus

pub data TaskStatus : Type 0 where
  pending assigned in_progress blocked review completed failed : TaskStatus

pub data EventType : Type 0 where
  lifecycle progress output error warning : EventType

-- `TaskExecutionStatus`
pub data ExecStatus : Type 0 where
  pending running completed failed : ExecStatus

pub data Source : Type 0 where
  controller worker subagent : Source

pub data WriteMode : Type 0 where
  read_only write : WriteMode

pub record WorkerInfo : Type 0 where
  pub id : String
  pub role : String
  pub label : String
  pub status : WorkerStatus
  pub url : String
  pub last_heartbeat : ℕ
  pub capabilities : List String
  pub current_task_id : Option String
  pub registered_at : ℕ

-- `TaskExecutionEvent`
pub record Event : Type 0 where
  pub id : String
  pub type : EventType
  pub created_at : ℕ
  pub message : String
  pub phase : Option String
  pub source : Option Source
  pub stream : Option String
  pub role : Option String
  pub worker_id : Option String

-- `TaskExecutionEventInput`
pub record EventInput : Type 0 where
  pub type : EventType
  pub message : String
  pub created_at : Option ℕ
  pub phase : Option String
  pub source : Option Source
  pub stream : Option String
  pub role : Option String
  pub worker_id : Option String
  pub run_id : Option String
  pub session_key : Option String
  pub status : Option ExecStatus

-- `TaskExecution`
pub record Execution : Type 0 where
  pub status : ExecStatus
  pub run_id : Option String
  pub session_key : Option String
  pub started_at : Option ℕ
  pub ended_at : Option ℕ
  pub last_updated_at : Option ℕ
  pub events : List Event

-- `TaskExecutionSummary`
pub record ExecutionSummary : Type 0 where
  pub status : ExecStatus
  pub run_id : Option String
  pub started_at : Option ℕ
  pub ended_at : Option ℕ
  pub last_updated_at : Option ℕ
  pub event_count : ℕ
  pub last_event : Option Event

-- `TaskCheckpoint`
pub record Checkpoint : Type 0 where
  pub updated_at : ℕ
  pub attempt : ℕ
  pub session_key : String
  pub last_assistant_message : String
  pub progress_notes : List String

-- `TaskHandoffContract`
pub record Handoff : Type 0 where
  pub version : String
  pub summary : String
  pub reason : String
  pub target_role : Option String
  pub expected_next_step : Option String
  pub artifacts : List String

pub data Outcome : Type 0 where
  completed blocked failed : Outcome

pub data DeliverableKind : Type 0 where
  file directory command artifact note : DeliverableKind

-- `WorkerTaskResultDeliverable`; the artifact's type comes from a worker by a cast.
pub record Deliverable : Type 0 where
  pub kind : DeliverableKind
  pub value : String
  pub summary : Option String
  pub artifact_type : Option String
  pub preview_command : Option String
  pub preview_cwd : Option String
  pub preview_ready_path : Option String
  pub live_url : Option String

pub data FollowUpType : Type 0 where
  review handoff clarification downstream_task : FollowUpType

-- `WorkerTaskResultFollowUp`
pub record FollowUp : Type 0 where
  pub type : FollowUpType
  pub target_role : Option String
  pub reason : String

pub data ProgressStatus : Type 0 where
  in_progress review : ProgressStatus

-- `WorkerProgressContract`
pub record ProgressContract : Type 0 where
  pub version : String
  pub summary : String
  pub status : ProgressStatus
  pub current_step : Option String
  pub next_step : Option String
  pub blockers : List String

-- `WorkerTaskResultContract`
pub record ResultContract : Type 0 where
  pub version : String
  pub outcome : Outcome
  pub summary : String
  pub deliverables : List Deliverable
  pub key_points : List String
  pub blockers : List String
  pub follow_ups : List FollowUp
  pub questions : List String
  pub notes : Option String
  pub discovered_patterns : Option (List String)

-- `TaskInfo`, without `recommendedSkills` and `progressContract`.
pub record TaskInfo : Type 0 where
  pub id : String
  pub title : String
  pub description : String
  pub status : TaskStatus
  pub priority : String
  pub assigned_role : Option String
  pub assigned_worker_id : Option String
  pub created_by : String
  pub controller_run_id : Option String
  pub controller_session_key : Option String
  pub project_id : Option String
  pub project_dir : Option String
  pub created_at : ℕ
  pub updated_at : ℕ
  pub started_at : Option ℕ
  pub completed_at : Option ℕ
  pub progress : Option String
  pub result : Option String
  pub result_contract : Option ResultContract
  pub error : Option String
  pub last_handoff : Option Handoff
  pub clarification_request_id : Option String
  pub execution : Option Execution
  pub write_mode : Option WriteMode
  pub checkpoint : Option Checkpoint
  pub resume_attempt : Option ℕ

-- `ClarificationQuestionKind`
pub data QuestionKind : Type 0 where
  single_select multi_select number text : QuestionKind

pub data ClarificationStatus : Type 0 where
  pending answered : ClarificationStatus

-- `ClarificationRequest`, without the structured question and answer forms.
pub record Clarification : Type 0 where
  pub id : String
  pub task_id : String
  pub controller_run_id : Option String
  pub requested_by : String
  pub requested_by_worker_id : Option String
  pub requested_by_role : Option String
  pub question : String
  pub blocking_reason : String
  pub context : Option String
  pub status : ClarificationStatus
  pub answer : Option String
  pub answered_by : Option String
  pub created_at : ℕ
  pub updated_at : ℕ
  pub answered_at : Option ℕ

-- `WorkerProvisioningType`
pub data ProvisioningType : Type 0 where
  none process docker kubernetes : ProvisioningType

-- `ProvisionedWorkerStatus`
pub data ProvisionStatus : Type 0 where
  launching registered terminating terminated failed : ProvisionStatus

-- `ProvisionedWorkerRecord`, without the instance's names.
pub record ProvisionRecord : Type 0 where
  pub worker_id : String
  pub role : String
  pub status : ProvisionStatus
  pub launch_token : String
  pub requested_at : ℕ
  pub updated_at : ℕ
  pub registered_at : Option ℕ
  pub idle_since : Option ℕ
  pub last_error : Option String

pub data MessageType : Type 0 where
  direct broadcast review_request : MessageType

-- `TeamMessageIntent`
pub data Intent : Type 0 where
  question announcement handoff review_request review_response update coordination : Intent

-- `TeamMessageContract`
pub record MessageContract : Type 0 where
  pub version : String
  pub intent : Intent
  pub summary : String
  pub details : Option String
  pub requested_action : Option String
  pub requested_role : Option String
  pub needs_response : Bool
  pub references : List String

pub record TeamMessage : Type 0 where
  pub id : String
  pub from : String
  pub from_role : Option String
  pub to : Option String
  pub to_role : Option String
  pub type : MessageType
  pub content : String
  pub contract : Option MessageContract
  pub task_id : Option String
  pub created_at : ℕ

-- `TeamState`, without the projects, messages, previews, reports, repository and controller runs.
pub record TeamState : Type 0 where
  pub workers : Dict WorkerInfo
  pub tasks : Dict TaskInfo
  pub clarifications : Dict Clarification
  pub provisioning : Dict ProvisionRecord

abbrev pub is_idle : WorkerStatus → Bool
is_idle WorkerStatus.idle = true
is_idle _ = false

abbrev pub is_offline : WorkerStatus → Bool
is_offline WorkerStatus.offline = true
is_offline _ = false

abbrev pub is_pending : TaskStatus → Bool
is_pending TaskStatus.pending = true
is_pending _ = false

abbrev pub is_assigned : TaskStatus → Bool
is_assigned TaskStatus.assigned = true
is_assigned _ = false

abbrev pub is_in_progress : TaskStatus → Bool
is_in_progress TaskStatus.in_progress = true
is_in_progress _ = false

abbrev pub is_completed : TaskStatus → Bool
is_completed TaskStatus.completed = true
is_completed _ = false

abbrev pub is_failed : TaskStatus → Bool
is_failed TaskStatus.failed = true
is_failed _ = false

abbrev pub is_blocked : TaskStatus → Bool
is_blocked TaskStatus.blocked = true
is_blocked _ = false
