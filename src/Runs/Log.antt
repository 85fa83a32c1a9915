-- ===== src/Runs/Log.antt =====
-- The log and the stamps of a run.
use teamclaw.Prelude.{
  ℕ, String, ◌≡◌, ◌≤◌, refl, true, some, none, Option, List, false, is_some, length, last?,
  last?-concat, drop, ◌-◌, ◌+◌, Bool, or_else, if◌then◌else◌,
}
use teamclaw.Team.{Event, EventInput, Execution, ExecStatus}
use teamclaw.Execution.{max_task_execution_events, push_event, is_ended}
use teamclaw.Execution.Events.{events_of, length-push_event, push_event_keeps}
use teamclaw.Runs.{ControllerRunInfo, append_run_event, ensure_run_execution}

abbrev pub status_of : Option Execution → Option ExecStatus
status_of none = none
status_of (some e) = some e.status

last-push_event : (es : List Event) (e : Event) → last? (push_event es e) ≡ some e
last-push_event es e =
    rw (push_event_keeps es e)
      (last?-concat (drop (length es + 1 - max_task_execution_events) es) e)

ended_stamp :
    (b : Bool) (o : Option ℕ) (now : ℕ)
    → b ≡ true
    → is_some (if b then or_else o (some now) else o) ≡ true
ended_stamp b none now h = rw h refl
ended_stamp b (some t) now h = rw h refl

kept_stamp : (b : Bool) (t now : ℕ) → (if b then or_else (some t) (some now) else some t) ≡ some t
kept_stamp true t now = refl
kept_stamp false t now = refl

-- Whatever event is appended to a run, the log of the run holds at most 250 events and ends with the
-- new one, the log has the status of the run, a run that has ended has a time of completion, and a
-- time of completion that the run had before does not change.
pub append_run_event_lem :
    (id : String) (clock : ℕ) (run : ControllerRunInfo) (i : EventInput)
    → let (run', event) = append_run_event id clock run i in
      (length (events_of run'.execution) ≤ max_task_execution_events)
      × (last? (events_of run'.execution) ≡ some event)
      × (status_of run'.execution ≡ some run'.status)
      × (is_ended run'.status ≡ true → is_some run'.completed_at ≡ true)
      × ((t : ℕ) → run.completed_at ≡ some t → run'.completed_at ≡ some t)
unfolding append_run_event ensure_run_execution
append_run_event_lem id clock run i =
    let event = (append_run_event id clock run i).1 in
    let old = (ensure_run_execution run).events in
    let now = (append_run_event id clock run i).0.updated_at in
    let status = (append_run_event id clock run i).0.status in
    (
      length-push_event old event,
      last-push_event old event,
      refl,
      (λ h. ended_stamp (is_ended status) run.completed_at now h),
      (λ t h. rw h (kept_stamp (is_ended status) t now)),
    )
