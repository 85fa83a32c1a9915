-- ===== src/Assignment/Stale.antt =====
-- Which workers may still report on a task that was taken from its worker.
use teamclaw.Prelude.{
  ℕ, zero, suc, ◌<◌, String, ◌≡◌, inl, inr, refl, false, Option, none, some, arith, get,
  get-alter_self, Option-cases,
}
use teamclaw.Team.{TaskInfo, TeamState, Handoff}
use teamclaw.Execution.{append_event}
use teamclaw.Assignment.{
  with_task, revert_assignment, apply_result, hand_off, can_accept, reverted_task, handed_off_task,
  finished_task, release_assigned,
}

can_accept_unassigned :
    (t : TaskInfo) (worker_id : String)
    → t.assigned_worker_id ≡ none
    → can_accept (some t) worker_id ≡ false
unfolding can_accept
can_accept_unassigned t worker_id h = ground arith

pub release_assigned-tasks :
    (o : Option String) (s : TeamState) → (release_assigned o s).tasks ≡ s.tasks
release_assigned-tasks none s = refl
release_assigned-tasks (some worker_id) s = ground arith

none_refused : (worker_id : String) → can_accept none worker_id ≡ false
unfolding can_accept
none_refused worker_id = refl

reverted_task-can_accept :
    (event_id : String) (now : ℕ) (worker_id : String) (t : TaskInfo)
    → can_accept (some (reverted_task event_id now worker_id t)) worker_id ≡ false
unfolding can_accept append_event
reverted_task-can_accept event_id now worker_id t = ground arith

finished_task-can_accept :
    (event_id : String) (now : ℕ) (result : String) (error : Option String) (worker_id : String)
    (t : TaskInfo)
    → 0 < now
    → can_accept (some (finished_task event_id now result error t)) worker_id ≡ false
unfolding can_accept append_event
finished_task-can_accept event_id zero result error worker_id t later = elim later [ ]
finished_task-can_accept event_id (suc now) result error worker_id t later = ground arith

-- Once a handoff is recorded, no worker's update of the task is accepted.
pub hand_off-can_accept :
    (now : ℕ) (task_id worker_id : String) (role : Option String) (contract : Handoff)
    (s s' : TeamState)
    → hand_off now task_id role contract s ≡ some s'
    → can_accept (get s'.tasks task_id) worker_id ≡ false
unfolding hand_off
hand_off-can_accept now task_id worker_id role contract s s' e =
    elim (Option-cases (get s.tasks task_id)) [
      | inl gone ↦ absurd (ground arith)
      | inr (t, here) ↦
          let same : release_assigned t.assigned_worker_id
                (with_task task_id (handed_off_task now role contract) s)
              ≡ s' =
            ground arith in
          rw (← same) (
            rw (release_assigned-tasks t.assigned_worker_id) (
              rw (get-alter_self s.tasks task_id (handed_off_task now role contract) here)
                (can_accept_unassigned (handed_off_task now role contract t) worker_id refl)))
    ]

-- After a reversal the worker's updates of the task are not accepted.
pub revert_assignment-can_accept :
    (event_id : String) (now : ℕ) (task_id worker_id : String) (s : TeamState)
    → can_accept (get (revert_assignment event_id now task_id worker_id s).tasks task_id) worker_id
      ≡ false
unfolding revert_assignment
revert_assignment-can_accept event_id now task_id worker_id s =
    elim (Option-cases (get s.tasks task_id)) [
      | inl gone ↦ rw (gone, revert_assignment) (rw gone (none_refused worker_id))
      | inr (t, here) ↦
          rw (here, revert_assignment)
            (rw (get-alter_self s.tasks task_id (reverted_task event_id now worker_id) here)
              (reverted_task-can_accept event_id now worker_id t))
    ]

-- When a task has its result, at a time that is not zero, no worker's update of it is accepted.
pub apply_result-can_accept :
    (event_id : String) (now : ℕ) (task_id result : String) (error : Option String)
    (worker_id : String) (s : TeamState)
    → 0 < now
    → can_accept (get (apply_result event_id now task_id result error s).tasks task_id) worker_id
      ≡ false
unfolding apply_result
apply_result-can_accept event_id now task_id result error worker_id s later =
    elim (Option-cases (get s.tasks task_id)) [
      | inl gone ↦ rw (gone, apply_result) (rw gone (none_refused worker_id))
      | inr (t, here) ↦
          rw (here, apply_result)
            (rw (release_assigned-tasks t.assigned_worker_id) (
              rw (get-alter_self s.tasks task_id (finished_task event_id now result error) here)
                (finished_task-can_accept event_id now result error worker_id t later)))
    ]
