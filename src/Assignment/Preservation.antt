-- ===== src/Assignment/Preservation.antt =====
-- Each operation on a task keeps the binding of tasks to workers.
use teamclaw.Prelude.{
  ℕ, String, ◌≡◌, inl, inr, refl, false, ◌&&◌, Option, none, some, arith, Dict, get, alter,
  get-alter, eq_iff, eq_refl, str_eq, Bool-cases, Option-cases,
}
use teamclaw.Team.{TaskInfo, WorkerInfo, TeamState, EventInput, is_idle}
use teamclaw.Execution.{append_event}
use teamclaw.Assignment.{
  assign_task, option_eq, reverted_worker, revert_assignment, record_event, can_assign,
}
use teamclaw.Assignment.Invariant.{
  IsBound, FitsTask, is_resting, with_task-IsBound, with_both-IsBound, HasWorker,
}

-- An event of any kind keeps the assigned worker.
append_event-worker :
    (id : String) (now : ℕ) (t : TaskInfo) (i : EventInput)
    → (append_event id now t i).0.assigned_worker_id ≡ t.assigned_worker_id
unfolding append_event
append_event-worker id now t i = refl

no_worker :
    (task_id : String) (o : Option String) (ws : Dict WorkerInfo)
    → o ≡ none
    → HasWorker task_id o ws
no_worker task_id o ws e = rw e tt

-- A resting task that starts has no worker, so an event keeps what the task's status asks of it.
pub append_event-FitsTask :
    (id : String) (now : ℕ) (t : TaskInfo) (i : EventInput) (task_id : String)
    (ws : Dict WorkerInfo)
    → FitsTask task_id t ws
    → FitsTask task_id (append_event id now t i).0 ws
unfolding append_event
append_event-FitsTask id now t i task_id ws h = (
  λ held. elim (Bool-cases (is_resting t.status)) [
    | inl rests ↦ no_worker task_id t.assigned_worker_id ws (h.1 rests)
    | inr busy ↦ h.0 (ground arith)
  ],
  λ rests. h.1 (ground arith),
)

pub record_event-IsBound :
    (id : String) (now : ℕ) (task_id : String) (i : EventInput) (s : TeamState)
    → IsBound s
    → IsBound (record_event id now task_id i s)
unfolding record_event
record_event-IsBound id now task_id i s b =
    with_task-IsBound s task_id _ b
      λ t here. append_event-FitsTask id now t i task_id s.workers (rw here at (b.at task_id))

pub assign_task-IsBound :
    (now : ℕ) (task_id worker_id : String) (role : Option String) (s : TeamState)
    → IsBound s
    → IsBound (assign_task now task_id worker_id role s).0
unfolding assign_task
assign_task-IsBound now task_id worker_id role s b = elim (Option-cases (get s.tasks task_id)) [
  | inl gone ↦ rw (gone, assign_task) b
  | inr (t, here) ↦ elim (Option-cases (get s.workers worker_id)) [
    | inl away ↦ rw (here, away, assign_task) b
    | inr (w, there) ↦ elim (Bool-cases (is_idle w.status && can_assign t worker_id)) [
      | inl go ↦
          rw (here, there, go, assign_task)
            (with_both-IsBound s task_id worker_id _ _ b
              (λ t' here'. (
                λ held.
                    rw (get-alter s.workers worker_id worker_id)
                      (rw (eq_refl worker_id, there) (refl, refl)),
                λ rests. cc,
              ))
              (λ j other. rw there (λ busy. ground arith)))
      | inr stop ↦ rw (here, there, stop, assign_task) b
    ]
  ]
]

pub HasWorker-alter_other :
    (j : String) (o : Option String) (ws : Dict WorkerInfo) (k : String)
    (g : WorkerInfo → WorkerInfo)
    → option_eq o k ≡ false
    → HasWorker j o ws
    → HasWorker j o (alter ws k g)
HasWorker-alter_other j none ws k g other h = tt
HasWorker-alter_other j (some i) ws k g other h =
    let other' : str_eq k i ≡ false = ground (arith, eq_iff i k, eq_iff k i) in
    rw (get-alter ws k i g) (rw other' h)

pub revert_assignment-IsBound :
    (event_id : String) (now : ℕ) (task_id worker_id : String) (s : TeamState)
    → IsBound s
    → IsBound (revert_assignment event_id now task_id worker_id s)
unfolding revert_assignment
revert_assignment-IsBound event_id now task_id worker_id s b =
    elim (Option-cases (get s.tasks task_id)) [
      | inl gone ↦ rw (gone, revert_assignment) b
      | inr (t, here) ↦
          rw (here, revert_assignment)
            (with_both-IsBound s task_id worker_id _ _ b
              (λ t' here'. elim (Bool-cases (option_eq t'.assigned_worker_id worker_id)) [
                | inl mine ↦
                    rw mine
                      (append_event-FitsTask event_id now _ _ task_id _ (λ held. cc, λ rests. refl))
                | inr other ↦
                    let fits : FitsTask task_id t' s.workers = rw here' at (b.at task_id) in
                    rw other (
                      λ held.
                          HasWorker-alter_other task_id t'.assigned_worker_id s.workers worker_id
                            (reverted_worker task_id) other (fits.0 held),
                      fits.1,
                    )
              ])
              (λ j other. elim (Option-cases (get s.workers worker_id)) [
                | inl away ↦ rw away (λ busy. tt)
                | inr (w, there) ↦
                    rw there (λ busy. ground (arith, eq_iff task_id j, eq_iff j task_id))
              ]))
    ]
