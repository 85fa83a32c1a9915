-- ===== src/Fixtures.antt =====
-- A small team: a developer and a task, waiting and under way.
use teamclaw.Prelude.{none, some, [], ◌∷◌}
use teamclaw.Runs.{ControllerRunInfo, RunSource}
use teamclaw.Team.{ExecStatus, WorkerStatus, TaskStatus, WorkerInfo, TaskInfo, TeamState}
use teamclaw.Execution.{}
use teamclaw.Assignment.{}
use teamclaw.Assignment.Stale.{}
use teamclaw.Workers.{}
use teamclaw.TeamAuto.Schedule.{}

abbrev pub dev : WorkerInfo
dev = record {
  id = "w1";
  role = "developer";
  label = "Dev";
  status = WorkerStatus.idle;
  url = "http://10.0.0.2:9527";
  last_heartbeat = 1000;
  capabilities = [];
  current_task_id = none;
  registered_at = 1000;
}

abbrev pub fix : TaskInfo
fix = record {
  id = "t1";
  title = "Fix the build";
  description = "";
  status = TaskStatus.pending;
  priority = "medium";
  assigned_role = some "developer";
  assigned_worker_id = none;
  created_by = "boss";
  controller_run_id = none;
  controller_session_key = none;
  project_id = none;
  project_dir = none;
  created_at = 900;
  updated_at = 900;
  started_at = none;
  completed_at = none;
  progress = none;
  result = none;
  result_contract = none;
  error = none;
  last_handoff = none;
  clarification_request_id = none;
  execution = none;
  write_mode = none;
  checkpoint = none;
  resume_attempt = none;
}

abbrev pub team : TeamState
team = record {
  workers = ("w1", dev) ∷ [];
  tasks = ("t1", fix) ∷ [];
  clarifications = [];
  provisioning = [];
}

abbrev pub at_work : TeamState
at_work = record team {
  workers = ("w1", record dev { status = WorkerStatus.busy; current_task_id = some "t1" }) ∷ [];
  tasks =
      ("t1", record fix { status = TaskStatus.in_progress; assigned_worker_id = some "w1" }) ∷ [];
}

abbrev pub planning : ControllerRunInfo
planning = record {
  id = "r1";
  title = "Plan the release";
  session_key = "teamclaw-controller";
  run_id = none;
  source = RunSource.human;
  source_task_id = none;
  source_task_title = none;
  request = "Plan the release.";
  reply = none;
  error = none;
  project_id = none;
  project_dir = none;
  created_task_ids = [];
  status = ExecStatus.running;
  created_at = 10;
  updated_at = 40;
  started_at = some 20;
  completed_at = none;
  execution = none;
}
