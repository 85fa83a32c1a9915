-- ===== src/Assignment/Effects.antt =====
-- What each operation on a task does, on every branch, and which workers may report on it after.
use teamclaw.Prelude.{
  ℕ, String, ◌≡◌, ◌⊎◌, inl, inr, refl, true, false, ◌&&◌, Option, none, some, arith, get,
  get-alter_self, Bool-cases, Option-cases,
}
use teamclaw.Team.{WorkerStatus, TaskStatus, TaskInfo, WorkerInfo, TeamState, is_idle}
use teamclaw.Assignment.{assign_task, can_assign, assigned_task}

-- A fresh attempt at a task: nothing is left of the last one's times and result.
abbrev pub IsFresh : TaskInfo → Type 0
IsFresh t =
    (t.started_at ≡ none)
    × (t.completed_at ≡ none)
    × (t.result ≡ none)
    × (t.error ≡ none)
    × (t.result_contract ≡ none)

-- The task and the worker are there, the worker is idle, and the task is pending or was already
-- given to this worker.
abbrev pub CanAssign : TeamState → String → String → Type 0
CanAssign s task_id worker_id =
    (t : TaskInfo) × (w : WorkerInfo) × (get s.tasks task_id ≡ some t)
    × (get s.workers worker_id ≡ some w)
    × (w.status ≡ WorkerStatus.idle)
    × (can_assign t worker_id ≡ true)

-- The task is a fresh attempt assigned to the worker, and the worker is busy with it.
abbrev pub IsAssigned : TeamState → String → String → Type 0
IsAssigned s task_id worker_id =
    (t : TaskInfo) × (w : WorkerInfo) × (get s.tasks task_id ≡ some t)
    × (get s.workers worker_id ≡ some w)
    × (t.status ≡ TaskStatus.assigned)
    × (t.assigned_worker_id ≡ some worker_id)
    × IsFresh t
    × (w.status ≡ WorkerStatus.busy)
    × (w.current_task_id ≡ some task_id)

assign_task_done :
    (now : ℕ) (task_id worker_id : String) (role : Option String) (s : TeamState) (t : TaskInfo)
    (w : WorkerInfo)
    → get s.tasks task_id ≡ some t
    → get s.workers worker_id ≡ some w
    → (is_idle w.status && can_assign t worker_id) ≡ true
    → IsAssigned (assign_task now task_id worker_id role s).0 task_id worker_id
unfolding assign_task
assign_task_done now task_id worker_id role s t w here there go =
    rw (here, there, go, assign_task)
      (
        assigned_task now worker_id role t,
        record w { status = WorkerStatus.busy; current_task_id = some task_id },
        get-alter_self s.tasks task_id _ here,
        get-alter_self s.workers worker_id _ there,
        refl,
        refl,
        (refl, refl, refl, refl, refl),
        refl,
        refl,
      )

not_assignable :
    (s : TeamState) (task_id worker_id : String) (t : TaskInfo) (w : WorkerInfo)
    → get s.tasks task_id ≡ some t
    → get s.workers worker_id ≡ some w
    → (is_idle w.status && can_assign t worker_id) ≡ false
    → ¬ CanAssign s task_id worker_id
not_assignable s task_id worker_id t w here there stop (t', w', here', there', idle, can) =
    let e : t ≡ t' = ground arith in
    let e' : w ≡ w' = ground arith in
    let can' : can_assign t worker_id ≡ true = rw e can in
    let idle' : w.status ≡ WorkerStatus.idle = rw e' idle in ground (arith, stop, can', idle')

-- An assignment either applies, and then the worker was idle and the task was pending or its own,
-- and now the task is a fresh attempt bound to the worker and the worker is busy with it; or it does
-- not apply, and then these conditions do not hold and the state is as it was.
pub assign_task_lem :
    (now : ℕ) (task_id worker_id : String) (role : Option String) (s : TeamState)
    → let (s', applied) = assign_task now task_id worker_id role s in
      ((applied ≡ true) × CanAssign s task_id worker_id × IsAssigned s' task_id worker_id)
      ⊎ ((applied ≡ false) × (s' ≡ s) × ¬ CanAssign s task_id worker_id)
unfolding assign_task
assign_task_lem now task_id worker_id role s = elim (Option-cases (get s.tasks task_id)) [
  | inl gone ↦
      inr (rw (gone, assign_task), rw (gone, assign_task), λ c. absurd (ground (arith, gone, c.2)))
  | inr (t, here) ↦ elim (Option-cases (get s.workers worker_id)) [
    | inl away ↦ inr (
      rw (here, away, assign_task),
      rw (here, away, assign_task),
      λ c. absurd (ground (arith, away, c.3)),
    )
    | inr (w, there) ↦ elim (Bool-cases (is_idle w.status && can_assign t worker_id)) [
      | inl go ↦ inl (
        rw (here, there, go, assign_task),
        (t, w, here, there, ground arith, ground arith),
        assign_task_done now task_id worker_id role s t w here there go,
      )
      | inr stop ↦ inr (
        rw (here, there, stop, assign_task),
        rw (here, there, stop, assign_task),
        λ c. not_assignable s task_id worker_id t w here there stop c,
      )
    ]
  ]
]
