-- ===== src/RunsExamples.antt =====
-- Tests of the controller's runs, and their theorems at concrete inputs.
use teamclaw.Prelude.{
  ◌≡◌, ◌≤◌, refl, true, none, some, [], ◌∷◌, String, List, ℕ, ◌*◌, is_some, length, last?, map, All,
}
use teamclaw.Team.{ExecStatus, EventInput, EventType, Source}
use teamclaw.Execution.{max_task_execution_events, push_event, is_ended}
use teamclaw.Execution.Events.{events_of}
use teamclaw.Runs.{
  ControllerRunInfo, append_run_event, ensure_run_execution, stale_runs, can_delete_stale,
}
use teamclaw.Runs.Log.{append_run_event_lem, status_of}
use teamclaw.Runs.Stale.{stale_runs-IsStale, IsPruned}
use teamclaw.Fixtures.{team, planning}

abbrev older : ControllerRunInfo
older = record planning { id = "r2"; updated_at = 30 }

abbrev ended : EventInput
ended = record {
  type = EventType.lifecycle;
  message = "Done.";
  created_at = some 50;
  phase = some "run_completed";
  source = some Source.controller;
  stream = none;
  role = none;
  worker_id = none;
  run_id = none;
  session_key = none;
  status = some ExecStatus.completed;
}

abbrev two_runs : List (String × ControllerRunInfo)
two_runs = ("r1", planning) ∷ ("r2", older) ∷ []

completes : (append_run_event "e1" 60 planning ended).0.completed_at ≡ some 50
unfolding append_run_event ensure_run_execution push_event
completes = refl

oldest_first :
    map (λ (r : ControllerRunInfo). r.id) (stale_runs team 1000 100 none two_runs)
    ≡ "r2" ∷ "r1" ∷ []
unfolding stale_runs can_delete_stale
oldest_first = refl

append_run_event_example :
    let (run', event) = append_run_event "e1" 60 planning ended in
    (length (events_of run'.execution) ≤ max_task_execution_events)
    × (last? (events_of run'.execution) ≡ some event)
    × (status_of run'.execution ≡ some run'.status)
    × (is_ended run'.status ≡ true → is_some run'.completed_at ≡ true)
    × ((t : ℕ) → none ≡ some t → run'.completed_at ≡ some t)
append_run_event_example = append_run_event_lem "e1" 60 planning ended

stale_runs_example :
    All
      (IsPruned team 1000 (100 * 2) (some "r1") two_runs)
      (stale_runs team 1000 100 (some "r1") two_runs)
stale_runs_example = stale_runs-IsStale team 1000 100 (some "r1") two_runs
