-- ===== src/Assignment/Clarify.antt =====
-- Asking for a clarification and answering it.
use teamclaw.Prelude.{
  ℕ, String, ◌≡◌, ◌≢◌, ◌⊎◌, inl, inr, refl, true, false, ◌||◌, Option, none, some, arith, get,
  alter, get-put, get-alter_self, eq_refl, str_truthy, Bool-cases, Option-cases,
}
use teamclaw.Team.{
  TaskStatus, TaskInfo, TeamState, Clarification, Execution, ExecStatus, is_completed, is_failed,
}
use teamclaw.Execution.{reset_for_fresh_attempt}
use teamclaw.Assignment.{
  with_task, request_clarification, answer_clarification, release_assigned, is_open, waits, created,
  answered, blocked_task, answered_task, answered_clarification, already_answered,
}
use teamclaw.Assignment.Effects.{IsFresh}
use teamclaw.Assignment.Stale.{release_assigned-tasks}

release_assigned-clarifications :
    (o : Option String) (s : TeamState) → (release_assigned o s).clarifications ≡ s.clarifications
release_assigned-clarifications none s = refl
release_assigned-clarifications (some worker_id) s = ground arith

-- The task of the request is blocked on it and has no worker, and the request is open.
abbrev pub IsAsked : Clarification → TeamState → Type 0
IsAsked c s =
    (t : TaskInfo) × (get s.tasks c.task_id ≡ some t)
    × (t.status ≡ TaskStatus.blocked)
    × (t.assigned_worker_id ≡ none)
    × (t.clarification_request_id ≡ some c.id)
    × (get s.clarifications c.id ≡ some c)

-- A request for a clarification is created only for a task that is there, that has not ended and
-- that does not wait for another open request; then the task is blocked on the request and has no
-- worker. On every other branch the state is as it was.
pub request_clarification_lem :
    (now : ℕ) (c : Clarification) (s : TeamState)
    → let (s', outcome) = request_clarification now c s in
      ((outcome ≡ created)
        × IsAsked c s'
        × ((t : TaskInfo) × (get s.tasks c.task_id ≡ some t)
            × (waits s t ≡ false)
            × ((is_completed t.status || is_failed t.status) ≡ false)))
      ⊎ ((outcome ≢ created) × (s' ≡ s))
unfolding request_clarification
request_clarification_lem now c s = elim (Option-cases (get s.tasks c.task_id)) [
  | inl gone ↦ inr (rw (gone, request_clarification) (λ e. cc), rw (gone, request_clarification))
  | inr (t, here) ↦ elim (Bool-cases (waits s t)) [
    | inl old ↦
        inr (rw (here, old, request_clarification) (λ e. cc), rw (here, old, request_clarification))
    | inr new ↦ elim (Bool-cases (is_completed t.status || is_failed t.status)) [
      | inl ended ↦ inr (
        rw (here, new, ended, request_clarification) (λ e. cc),
        rw (here, new, ended, request_clarification),
      )
      | inr open_task ↦ inl (
        rw (here, new, open_task, request_clarification),
        rw (here, new, open_task, request_clarification)
            (
              blocked_task now c t,
              rw (release_assigned-tasks t.assigned_worker_id)
                  (get-alter_self s.tasks c.task_id (blocked_task now c) here),
              refl,
              refl,
              refl,
              rw (release_assigned-clarifications t.assigned_worker_id)
                  (rw (get-put s.clarifications c.id c.id c) (rw (eq_refl c.id))),
            ),
        (t, here, new, open_task),
      )
    ]
  ]
]

abbrev after_answer : ℕ → String → String → Clarification → TeamState → TeamState
after_answer now answer by c s = with_task c.task_id (answered_task now answer by) (record s {
  clarifications = alter s.clarifications c.id (answered_clarification now answer by);
})

answer_done :
    (now : ℕ) (answer by : String) (c : Clarification) (s : TeamState)
    → get s.clarifications c.id ≡ some c
    → is_open (some c) ≡ true
    → str_truthy answer ≡ true
    → answer_clarification now c.id answer by s ≡ (after_answer now answer by c s, answered)
unfolding answer_clarification
answer_done now answer by c s here open_c given = rw (here, given, open_c, answer_clarification)

answer_again :
    (now : ℕ) (id answer by : String) (s : TeamState) (c : Clarification)
    → get s.clarifications id ≡ some c
    → is_open (some c) ≡ false
    → str_truthy answer ≡ true
    → answer_clarification now id answer by s ≡ (s, already_answered)
unfolding answer_clarification
answer_again now id answer by s c here closed given = rw (here, given, closed, answer_clarification)

-- The log of a task that is to be tried again: pending, and bound to no run and no times.
abbrev pub IsRestarted : Option Execution → Type 0
IsRestarted none = Unit
IsRestarted (some e) =
    (e.status ≡ ExecStatus.pending)
    × (e.run_id ≡ none)
    × (e.session_key ≡ none)
    × (e.started_at ≡ none)
    × (e.ended_at ≡ none)

reset-IsRestarted : (now : ℕ) (t : TaskInfo) → IsRestarted (reset_for_fresh_attempt now t).execution
unfolding reset_for_fresh_attempt
reset-IsRestarted now t = elim (Option-cases t.execution) [
  | inl bare ↦ rw bare tt
  | inr logged ↦ rw logged.1 (refl, refl, refl, refl, refl)
]

-- A task that was asked about goes back to pending when the request is answered, with no worker,
-- with no times, result, contract or error of the last attempt and with its log, if it has one, set
-- back to pending; and the same request can be answered only once.
pub answer_clarification_once :
    (now later : ℕ) (answer by other who : String) (c : Clarification) (s : TeamState)
    → IsAsked c s
    → is_open (some c) ≡ true
    → str_truthy answer ≡ true
    → str_truthy other ≡ true
    → let (s', outcome) = answer_clarification now c.id answer by s in
      (outcome ≡ answered)
      × ((t : TaskInfo) × (get s'.tasks c.task_id ≡ some t)
          × (t.status ≡ TaskStatus.pending)
          × (t.assigned_worker_id ≡ none)
          × (t.clarification_request_id ≡ none)
          × IsFresh t
          × IsRestarted t.execution)
      × (answer_clarification later c.id other who s' ≡ (s', already_answered))
unfolding reset_for_fresh_attempt
answer_clarification_once now later answer by other who c s asked open_c given given' =
    rw (answer_done now answer by c s asked.5 open_c given) (
      refl,
      (
        answered_task now answer by asked.0,
        get-alter_self s.tasks c.task_id (answered_task now answer by) asked.1,
        refl,
        asked.3,
        refl,
        (refl, refl, refl, refl, refl),
        reset-IsRestarted now asked.0,
      ),
      answer_again later c.id other who _ (answered_clarification now answer by c)
          (get-alter_self s.clarifications c.id (answered_clarification now answer by) asked.5) refl
          given',
    )
