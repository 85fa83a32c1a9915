-- ===== src/Runs.antt =====
-- The runs of the controller's own agent: the functions of src/src/controller/http-server.ts on
-- ControllerRunInfo, from its log of events to the choice of the stale runs to delete. The runs are
-- an argument beside the rest of the state; a run's manifest is not represented.
pub mod Log
pub mod Stale
use teamclaw.Prelude.{
  ℕ, zero, suc, ◌+◌, ◌*◌, String, Bool, true, false, ◌&&◌, ◌||◌, not, Option, none, some, List, [],
  ◌∷◌, map, ltb, leb, if◌then◌else◌, filter, any, is_some, num_truthy, text_truthy, or_else, get_or,
  Dict, values,
}
use teamclaw.Team.{
  ExecStatus, Event, EventInput, Execution, TaskInfo, Clarification, TeamState, is_completed,
  is_failed,
}
use teamclaw.Execution.{starts_run, is_ended, push_event}
use teamclaw.Assignment.{option_eq, is_open}

pub data RunSource : Type 0 where
  human task_follow_up : RunSource

pub record ControllerRunInfo : Type 0 where
  pub id : String
  pub title : String
  pub session_key : String
  pub run_id : Option String
  pub source : RunSource
  pub source_task_id : Option String
  pub source_task_title : Option String
  pub request : String
  pub reply : Option String
  pub error : Option String
  pub project_id : Option String
  pub project_dir : Option String
  pub created_task_ids : List String
  pub status : ExecStatus
  pub created_at : ℕ
  pub updated_at : ℕ
  pub started_at : Option ℕ
  pub completed_at : Option ℕ
  pub execution : Option Execution

abbrev execution_or_new : ControllerRunInfo → Execution
execution_or_new run = get_or run.execution (record {
  status = run.status;
  run_id = run.run_id;
  session_key = none;
  started_at = run.started_at;
  ended_at = run.completed_at;
  last_updated_at = some run.updated_at;
  events = [];
})

-- `ensureControllerRunExecution`
unfoldable pub ensure_run_execution : ControllerRunInfo → Execution
ensure_run_execution run =
    let e = execution_or_new run in
    record e {
      status = run.status;
      run_id = or_else run.run_id e.run_id;
      started_at = or_else run.started_at e.started_at;
      ended_at = or_else run.completed_at e.ended_at;
      last_updated_at = some run.updated_at;
    }

-- The event of a run; its role and its worker are not set.
abbrev run_event : String → ℕ → EventInput → Event
run_event id now i = record {
  id = id;
  type = i.type;
  created_at = now;
  message = i.message;
  phase = i.phase;
  source = i.source;
  stream = i.stream;
  role = none;
  worker_id = none;
}

-- `appendControllerRunEvent`: the run with the event in its log, and the event.
unfoldable pub append_run_event :
    String → ℕ → ControllerRunInfo → EventInput → ControllerRunInfo × Event
unfolding ensure_run_execution push_event
append_run_event id clock run i =
    let now = get_or i.created_at clock in
    let e = ensure_run_execution run in
    let status = get_or i.status run.status in
    let starts = starts_run i && not (num_truthy run.started_at) in
    let event = run_event id now i in
    (
      record run {
        run_id = if text_truthy i.run_id then i.run_id else run.run_id;
        status = status;
        started_at = if starts then some now else run.started_at;
        completed_at =
            if is_ended status then or_else run.completed_at (some now) else run.completed_at;
        updated_at = now;
        execution = some (record e {
          run_id = if text_truthy i.run_id then i.run_id else e.run_id;
          session_key = if text_truthy i.session_key then i.session_key else e.session_key;
          status = get_or i.status e.status;
          started_at = if starts then some now else e.started_at;
          ended_at = if is_ended status then or_else e.ended_at (some now) else e.ended_at;
          last_updated_at = some now;
          events = push_event e.events event;
        });
      },
      event,
    )

-- `isTaskTerminalForCleanup`
abbrev pub is_terminal_task : TaskInfo → Bool
is_terminal_task t = is_completed t.status || is_failed t.status

abbrev pub last_activity : ControllerRunInfo → ℕ
last_activity run = elim run.execution [
  | none ↦ run.updated_at
  | some e ↦ get_or e.last_updated_at run.updated_at
]

abbrev pub is_open_task_of : String → TaskInfo → Bool
is_open_task_of id t = option_eq t.controller_run_id id && not (is_terminal_task t)

abbrev pub is_open_question_of : String → Clarification → Bool
is_open_question_of id c = option_eq c.controller_run_id id && is_open (some c)

-- `canAutoDeleteStaleControllerRun`
unfoldable pub can_delete_stale : TeamState → ℕ → ℕ → ControllerRunInfo → Bool
can_delete_stale s now stale_after run =
    if is_ended run.status
    then false
    else if not (num_truthy (some (last_activity run))) || ltb now (last_activity run + stale_after)
    then false
    else if any (is_open_task_of run.id) (values s.tasks)
    then false
    else not (any (is_open_question_of run.id) (values s.clarifications))

-- runs.sort((left, right) => left.updatedAt - right.updatedAt), which is stable.
abbrev pub insert_run : ControllerRunInfo → List ControllerRunInfo → List ControllerRunInfo
insert_run r [] = r ∷ []
insert_run r (q ∷ qs) =
    let rest = insert_run r qs in if leb r.updated_at q.updated_at then r ∷ q ∷ qs else q ∷ rest

abbrev pub by_update : List ControllerRunInfo → List ControllerRunInfo
by_update [] = []
by_update (r ∷ rs) = insert_run r (by_update rs)

-- The runs that `pruneStaleControllerRuns` chooses to delete, in its order.
unfoldable pub stale_runs :
    TeamState → ℕ → ℕ → Option String → Dict ControllerRunInfo → List ControllerRunInfo
unfolding can_delete_stale
stale_runs s now task_timeout_ms exclude_run_id runs = by_update (
    filter (can_delete_stale s now (task_timeout_ms * 2))
      (filter (λ (r : ControllerRunInfo). not (option_eq exclude_run_id r.id)) (values runs)))
