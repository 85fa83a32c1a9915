-- ===== src/Execution/Stamps.antt =====
-- Time stamps and status of a task under its execution events.
use teamclaw.Prelude.{
  ℕ, String, ◌≡◌, refl, ◌⊎◌, some, true, false, arith, num_truthy, is_some, Option, none,
  Option-cases, inl, inr,
}
use teamclaw.Team.{TaskStatus, Execution, EventInput, TaskInfo}
use teamclaw.Execution.{append_event, ensure_task_execution, starts_run, is_ended}

-- An event changes the status of a task only from pending or assigned to in_progress, and only an
-- event that reports a running execution or a started run does so.
pub append_event-status :
    (id : String) (clock : ℕ) (t : TaskInfo) (i : EventInput)
    → ((append_event id clock t i).0.status ≡ t.status)
      ⊎ ((starts_run i ≡ true)
          × ((t.status ≡ TaskStatus.pending) ⊎ (t.status ≡ TaskStatus.assigned))
          × ((append_event id clock t i).0.status ≡ TaskStatus.in_progress))
unfolding append_event
append_event-status id clock t i = ground arith

-- A time of the log before the event: the one that the log has, or where it has none, or where there
-- is no log, the one of the task.
abbrev pub logged : (Execution → Option ℕ) → Option ℕ → Option Execution → Option ℕ
logged of_log of_task none = of_task
logged of_log of_task (some e) = elim (of_log e) [ none ↦ of_task | some x ↦ some x ]

-- An event leaves alone a start that is recorded and not zero, in the task and in its log, and an
-- end that is recorded in the log; where the log has no such time, the one of the task stands for it.
-- After any event, a log whose status is completed or failed has an end.
pub append_event_stamps :
    (id : String) (clock : ℕ) (t : TaskInfo) (i : EventInput)
    → let t' = (append_event id clock t i).0 in
      let start = logged (λ (e : Execution). e.started_at) t.started_at t.execution in
      let end = logged (λ (e : Execution). e.ended_at) t.completed_at t.execution in
      ((num_truthy t.started_at ≡ false) ⊎ (t'.started_at ≡ t.started_at))
      × ((e' : Execution) × (t'.execution ≡ some e')
          × ((num_truthy start ≡ false) ⊎ (e'.started_at ≡ start))
          × ((is_some end ≡ false) ⊎ (e'.ended_at ≡ end))
          × ((is_ended e'.status ≡ false) ⊎ (is_some e'.ended_at ≡ true)))
unfolding append_event ensure_task_execution
append_event_stamps id clock t i = elim (Option-cases t.execution) [
  | inl bare ↦ rw bare (ground arith, (_, refl, ground arith, ground arith, ground arith))
  | inr log ↦ rw log.1 (ground arith, (_, refl, ground arith, ground arith, ground arith))
]
