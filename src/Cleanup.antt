-- ===== src/Cleanup.antt =====
-- Deleting a task, a planning run or the stale runs with all that hangs on them:
-- `deleteTaskCascade` and `deleteControllerRunCascade` of src/src/controller/http-server.ts. The
-- cancellation of a running task, the previews and the files are left out: they are requests and I/O
-- whose only changes of this state are of the task that is deleted. No other handler runs in between.
pub mod Purge
pub mod Gone
pub mod Cascade
use teamclaw.Prelude.{
  ℕ, String, Bool, true, false, ◌&&◌, not, Option, none, some, List, [], ◌∷◌, ◌++◌, map, filter,
  any, Dict, get, remove, values, map_values, text_truthy, str_eq, is_some, if◌then◌else◌, codes,
  text_eq, get_or,
}
use teamclaw.Team.{TaskInfo, Clarification, TeamState, TeamMessage}
use teamclaw.Assignment.{option_eq}
use teamclaw.Contracts.Backfill.{unique}
use teamclaw.Runs.{ControllerRunInfo, stale_runs}
use teamclaw.Sessions.{session_key}
use teamclaw.Cleanup.Purge.{purge}

-- `DeliveryReportRecord`, without what it reports.
pub record Report : Type 0 where
  pub id : String
  pub session_key : String
  pub generated_at : ℕ
  pub project_name : String

-- The parts of the team's state that a cleanup changes.
pub record Store : Type 0 where
  pub team : TeamState
  pub runs : Dict ControllerRunInfo
  pub messages : List TeamMessage
  pub reports : Dict Report

-- `TaskCleanupSummary`, without previews and directories.
pub record Summary : Type 0 where
  pub deleted_task_ids : List String
  pub deleted_clarification_ids : List String
  pub deleted_message_ids : List String
  pub deleted_report_ids : List String

-- `buildEmptyTaskCleanupSummary`
abbrev pub empty_summary : Summary
empty_summary = record {
  deleted_task_ids = [];
  deleted_clarification_ids = [];
  deleted_message_ids = [];
  deleted_report_ids = [];
}

unfoldable pub same_session : Bool → String → String → Bool
unfolding session_key text_eq
same_session isolated a b =
    text_eq (session_key isolated (codes a)) (session_key isolated (codes b))

abbrev pub is_question_of_task : String → Clarification → Bool
is_question_of_task task_id c = str_eq c.task_id task_id

abbrev pub is_message_of : String → TeamMessage → Bool
is_message_of task_id m = option_eq m.task_id task_id

-- The reports of the task's session, if it has one.
abbrev pub is_report_of : Bool → Option String → Report → Bool
unfolding same_session
is_report_of isolated session r =
    text_truthy session && same_session isolated r.session_key (get_or session "")

-- A run that forgets a task.
unfoldable pub forget_task : ℕ → String → ControllerRunInfo → ControllerRunInfo
forget_task now task_id run =
    let created = any (λ id. str_eq id task_id) run.created_task_ids in
    record run {
      source_task_id = if option_eq run.source_task_id task_id then none else run.source_task_id;
      created_task_ids =
          if created
          then filter (λ id. not (str_eq id task_id)) run.created_task_ids
          else run.created_task_ids;
      updated_at = if created then now else run.updated_at;
    }

-- The update of `deleteTaskCascade`, for a task that is there.
unfoldable pub delete_task : Bool → ℕ → String → TaskInfo → Store → Store
unfolding purge forget_task is_report_of
delete_task isolated now task_id t s = record s {
  team = record s.team {
    tasks = remove s.team.tasks task_id;
    clarifications =
        purge (λ (c : Clarification). c.id) (is_question_of_task task_id) s.team.clarifications;
  };
  messages = filter (λ m. not (is_message_of task_id m)) s.messages;
  reports = purge (λ (r : Report). r.id) (is_report_of isolated t.controller_session_key) s.reports;
  runs = map_values (forget_task now task_id) s.runs;
}

abbrev ids {ℓ} : {V : Type ℓ} → (V → String) → (V → Bool) → List V → List String
ids id p vs = map id (filter p vs)

unfoldable pub task_summary : Bool → String → TaskInfo → Store → Summary → Summary
unfolding is_report_of
task_summary isolated task_id t s m = record {
  deleted_task_ids = m.deleted_task_ids ++ task_id ∷ [];
  deleted_clarification_ids =
      m.deleted_clarification_ids
      ++ ids (λ (c : Clarification). c.id) (is_question_of_task task_id)
          (values s.team.clarifications);
  deleted_message_ids =
      m.deleted_message_ids ++ ids (λ (x : TeamMessage). x.id) (is_message_of task_id) s.messages;
  deleted_report_ids =
      m.deleted_report_ids
      ++ ids (λ (r : Report). r.id) (is_report_of isolated t.controller_session_key)
          (values s.reports);
}

-- `deleteTaskCascade`: the state, the summary, and whether there was such a task.
unfoldable pub delete_task_cascade : Bool → ℕ → String → Store × Summary → Store × Summary × Bool
unfolding delete_task task_summary
delete_task_cascade isolated now task_id (s, m) = elim (get s.team.tasks task_id) [
  | none ↦ (s, m, false)
  | some t ↦ (delete_task isolated now task_id t s, task_summary isolated task_id t s m, true)
]

unfoldable pub delete_tasks : Bool → ℕ → List String → Store × Summary → Store × Summary
unfolding delete_task_cascade
delete_tasks isolated now [] p = p
delete_tasks isolated now (task_id ∷ rest) p =
    let q = delete_task_cascade isolated now task_id p in delete_tasks isolated now rest (q.0, q.1)

-- The tasks that a run created or that name it.
abbrev pub linked_task_ids : ControllerRunInfo → Store → List String
linked_task_ids run s = unique (
    run.created_task_ids
    ++ map (λ (t : TaskInfo). t.id)
        (filter (λ (t : TaskInfo). option_eq t.controller_run_id run.id) (values s.team.tasks)))

abbrev pub is_question_of_run : String → Clarification → Bool
is_question_of_run run_id c = option_eq c.controller_run_id run_id

-- The update of `deleteControllerRunCascade`.
unfoldable pub delete_run : Bool → Bool → String → ControllerRunInfo → Store → Store
unfolding purge same_session
delete_run isolated preserves run_id run s = record s {
  runs = remove s.runs run_id;
  team = record s.team {
    clarifications =
        purge (λ (c : Clarification). c.id) (is_question_of_run run_id) s.team.clarifications;
  };
  reports =
      purge (λ (r : Report). r.id)
        (λ r. not preserves && same_session isolated r.session_key run.session_key) s.reports;
}

unfoldable pub run_summary : Bool → Bool → String → ControllerRunInfo → Store → Summary → Summary
unfolding same_session
run_summary isolated preserves run_id run s m = record m {
  deleted_clarification_ids =
      m.deleted_clarification_ids
      ++ ids (λ (c : Clarification). c.id) (is_question_of_run run_id)
          (values s.team.clarifications);
  deleted_report_ids =
      m.deleted_report_ids
      ++ ids (λ (r : Report). r.id)
          (λ r. not preserves && same_session isolated r.session_key run.session_key)
          (values s.reports);
}

-- `deleteControllerRunCascade`: the state, the summary, and whether there was such a run.
unfoldable pub delete_run_cascade : Bool → ℕ → Bool → String → Store → Store × Summary × Bool
unfolding delete_tasks delete_run run_summary
delete_run_cascade isolated now preserves run_id s = elim (get s.runs run_id) [
  | none ↦ (s, empty_summary, false)
  | some run ↦
      let p = delete_tasks isolated now (linked_task_ids run s) (s, empty_summary) in
      (
        delete_run isolated preserves run_id run p.0,
        run_summary isolated preserves run_id run p.0 p.1,
        true,
      )
]

delete_runs : Bool → ℕ → List ControllerRunInfo → Store → Store
unfolding delete_run_cascade
delete_runs isolated now [] s = s
delete_runs isolated now (r ∷ rs) s =
    delete_runs isolated now rs (delete_run_cascade isolated now true r.id s).0

-- `pruneStaleControllerRuns`
unfoldable pub prune_stale_runs : Bool → ℕ → ℕ → Option String → Store → Store
unfolding stale_runs delete_runs
prune_stale_runs isolated now task_timeout_ms exclude_run_id s =
    delete_runs isolated now (stale_runs s.team now task_timeout_ms exclude_run_id s.runs) s
