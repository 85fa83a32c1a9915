-- ===== src/Dispatch.antt =====
-- Assigning the waiting tasks: src/src/controller/http-server.ts, `autoAssignPendingTasks` with
-- `assignTaskToWorker` and the rule of one active write task per checkout. Whether a worker can be
-- reached is an argument; no other handler runs between two rounds of the loop.
pub mod Rounds
pub mod Ending
pub mod Exclusion
pub mod Writers
use teamclaw.Prelude.{
  ℕ, zero, suc, ◌+◌, String, Bool, true, false, ◌&&◌, ◌||◌, not, Option, none, some, List, [], ◌∷◌,
  leb, if◌then◌else◌, count, filter, find, any, head?, values, str_eq, str_truthy, text_truthy,
  Text, codes, text_eq, before, ◌<>◌, or_else,
}
use teamclaw.Team.{
  TaskInfo, WorkerInfo, TeamState, WriteMode, EventType, EventInput, is_assigned, is_in_progress,
}
use teamclaw.Assignment.{assign_task, revert_assignment, record_event, controller_event, option_eq}
use teamclaw.Routing.{RoleDefinition, offers}

pub record Dispatcher : Type 0 where
  pub roles : List RoleDefinition
  pub max_concurrent_tasks : ℕ
  pub preferred_worker_id : Option String
  pub now : ℕ
  -- The identifiers of the events of a round.
  pub event_id : ℕ → String
  -- The error of the dispatch of a round, if it fails.
  pub dispatch_error : ℕ → Option String

abbrev may_write : Option WriteMode → Bool
may_write (some WriteMode.read_only) = false
may_write _ = true

abbrev root_of : Option String → Option Text
root_of none = none
root_of (some dir) =
    if str_truthy dir && not (text_eq (before (codes dir) (codes "__task-")) [])
    then some (before (codes dir) (codes "__task-"))
    else none

-- `taskWriteRoot`; an empty root counts as none.
abbrev pub task_write_root : TaskInfo → Option Text
task_write_root t = if may_write t.write_mode then root_of t.project_dir else none

abbrev pub same_root : Option Text → Option Text → Bool
same_root none b = false
same_root (some a) none = false
same_root (some a) (some b) = text_eq a b

abbrev pub is_at_work : TaskInfo → Bool
is_at_work t = is_assigned t.status || is_in_progress t.status

-- activeWriteRoots(state).has(root)
abbrev pub is_root_busy : TeamState → Option Text → Bool
is_root_busy s root =
    any (λ (t : TaskInfo). is_at_work t && same_root (task_write_root t) root) (values s.tasks)

abbrev pub pair_key : TaskInfo × WorkerInfo → String
pair_key (t, w) = t.id <> ":" <> w.id

abbrev pub holds : List String → String → Bool
holds attempted key = any (λ k. str_eq k key) attempted

-- The offers of the router that were not attempted and whose checkout has no other writer.
abbrev pub is_open_offer : TeamState → List String → TaskInfo × WorkerInfo → Bool
is_open_offer s attempted (t, w) =
    not (holds attempted (pair_key (t, w))) && not (is_root_busy s (task_write_root t))

abbrev pub candidate_assignments :
    Dispatcher → List String → TeamState → List (TaskInfo × WorkerInfo)
candidate_assignments d attempted s =
    filter (is_open_offer s attempted) (offers d.roles (values s.tasks) s.workers)

abbrev pub preferred_offer :
    Option String → List (TaskInfo × WorkerInfo) → Option (TaskInfo × WorkerInfo)
preferred_offer none os = none
preferred_offer (some worker_id) os =
    if str_truthy worker_id
    then find (λ (o : TaskInfo × WorkerInfo). str_eq o.1.id worker_id) os
    else none

unfoldable pub next_assignment :
    Dispatcher → List String → TeamState → Option (TaskInfo × WorkerInfo)
next_assignment d attempted s =
    let os = candidate_assignments d attempted s in
    or_else (preferred_offer d.preferred_worker_id os) (head? os)

abbrev pub success_event : TaskInfo → WorkerInfo → EventInput
success_event t w =
    record (controller_event EventType.lifecycle "assigned"
      ("Assigned to " <> (if str_truthy w.label then w.label else w.id) <> ".")) {
        worker_id = some w.id;
        role = or_else t.assigned_role (some w.role);
      }

abbrev pub failure_event : TaskInfo → WorkerInfo → String → EventInput
failure_event t w error =
    record (controller_event EventType.error "dispatch_failed"
      ("Failed to dispatch task to " <> w.id <> ": " <> error)) {
        worker_id = some w.id;
        role = or_else t.assigned_role (some w.role);
      }

-- What follows an assignment that applied: the dispatch, and its reversal if it fails.
abbrev pub after_dispatch :
    Dispatcher → ℕ → TaskInfo → WorkerInfo → Option String → TeamState → TeamState
after_dispatch d k t w none s = record_event (d.event_id k) d.now t.id (success_event t w) s
after_dispatch d k t w (some error) s =
    revert_assignment (d.event_id k) d.now t.id w.id
      (record_event (d.event_id k) d.now t.id (failure_event t w error) s)

-- `assignTaskToWorker`
unfoldable pub assign_to_worker : Dispatcher → ℕ → TaskInfo → WorkerInfo → TeamState → TeamState
assign_to_worker d k t w s =
    let (s', applied) = assign_task d.now t.id w.id t.assigned_role s in
    if applied then after_dispatch d k t w (d.dispatch_error k) s' else s'

abbrev pub is_full : Dispatcher → TeamState → Bool
is_full d s =
    leb d.max_concurrent_tasks (count (λ (t : TaskInfo). is_in_progress t.status) (values s.tasks))

-- `autoAssignPendingTasks`: the loop, from round `k`; `none` when the fuel is used up.
unfoldable pub auto_assign : ℕ → Dispatcher → ℕ → List String → TeamState → Option TeamState
unfolding next_assignment assign_to_worker
auto_assign zero d k attempted s = none
auto_assign (suc fuel) d k attempted s = elim (is_full d s) [
  | true ↦ some s
  | false ↦ elim (next_assignment d attempted s) [
    | none ↦ some s
    | some (t, w) ↦
        auto_assign fuel d (k + 1) (pair_key (t, w) ∷ attempted) (assign_to_worker d k t w s)
  ]
]
