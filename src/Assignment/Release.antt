-- ===== src/Assignment/Release.antt =====
-- Results, clarifications and handoffs take a task from its worker, and keep the binding of tasks to
-- workers.
use teamclaw.Prelude.{
  ℕ, String, ◌≡◌, ◌⊎◌, inl, inr, refl, true, false, ◌||◌, Option, none, some, arith, Dict, get, put,
  eq_iff, str_eq, str_truthy, Bool-cases, Option-cases,
}
use teamclaw.Team.{TaskInfo, WorkerInfo, TeamState, Clarification, Handoff, is_completed, is_failed}
use teamclaw.Assignment.{
  with_task, apply_result, request_clarification, answer_clarification, hand_off, release_assigned,
  release_worker, waits, is_open, handed_off_task,
}
use teamclaw.Assignment.Preservation.{append_event-FitsTask}
use teamclaw.Assignment.Invariant.{
  IsBound, FitsTask, is_held, is_resting, with_task-IsBound, with_both-IsBound, HasWorker,
  IsBusyWith, Keeps,
}

-- A task that is at work, or that has no worker. (A task that ended keeps its worker's name, though
-- the worker may be busy with another.)
abbrev pub IsCurrent : TaskInfo → Type 0
IsCurrent t = (is_held t.status ≡ true) ⊎ (t.assigned_worker_id ≡ none)

-- Taking a current task from its worker, in a way that leaves it at rest or ended.
release-IsBound :
    (task_id : String) (f : TaskInfo → TaskInfo) (s : TeamState) (t : TaskInfo)
    → get s.tasks task_id ≡ some t
    → IsCurrent t
    → ((ws : Dict WorkerInfo) → FitsTask task_id (f t) ws)
    → IsBound s
    → IsBound (release_assigned t.assigned_worker_id (with_task task_id f s))
release-IsBound task_id f s t here current fits b = go t.assigned_worker_id refl
  where
    plain :
        (ws : Dict WorkerInfo) (t' : TaskInfo)
        → get s.tasks task_id ≡ some t'
        → FitsTask task_id (f t') ws
    plain ws t' here' = let e : t ≡ t' = ground arith in rw (← e) (fits ws)

    alone :
        (k : String)
        → t.assigned_worker_id ≡ some k
        → (j : String) → str_eq task_id j ≡ false
        → Keeps j release_worker (get s.workers k)
    alone k e j other = elim (Option-cases (get s.workers k)) [
      | inl away ↦ rw away (λ busy. tt)
      | inr (w, there) ↦ rw there (λ busy. elim current [
        | inl held ↦
            let mine : HasWorker task_id t.assigned_worker_id s.workers =
              (rw here at (b.at task_id)).0 held in
            let mine' : IsBusyWith task_id (some w) = rw there at (rw e at mine) in
            absurd (ground (arith, eq_iff task_id j))
        | inr free ↦ absurd (ground arith)
      ])
    ]

    go :
        (o : Option String)
        → t.assigned_worker_id ≡ o
        → IsBound (release_assigned o (with_task task_id f s))
    go none e = with_task-IsBound s task_id f b (plain s.workers)
    go (some k) e = elim (Bool-cases (str_truthy k)) [
      | inl named ↦
          rw named (with_both-IsBound s task_id k f release_worker b (plain _) (alone k e))
      | inr empty ↦ rw empty (with_task-IsBound s task_id f b (plain s.workers))
    ]

pub apply_result-IsBound :
    (event_id : String) (now : ℕ) (task_id result : String) (error : Option String) (s : TeamState)
    → ((t : TaskInfo) → get s.tasks task_id ≡ some t → IsCurrent t)
    → IsBound s
    → IsBound (apply_result event_id now task_id result error s)
unfolding apply_result
apply_result-IsBound event_id now task_id result error s current b =
    elim (Option-cases (get s.tasks task_id)) [
      | inl gone ↦ rw (gone, apply_result) b
      | inr (t, here) ↦
          rw (here, apply_result)
            (release-IsBound task_id _ s t here (current t here)
              (λ ws.
                append_event-FitsTask event_id now _ _ task_id ws
                  (λ held. absurd (ground arith), λ rests. absurd (ground arith)))
              b)
    ]

-- A bound task that has not ended is current.
FitsTask-IsCurrent :
    (task_id : String) (t : TaskInfo) (ws : Dict WorkerInfo)
    → FitsTask task_id t ws
    → (is_completed t.status || is_failed t.status) ≡ false
    → IsCurrent t
FitsTask-IsCurrent task_id t ws h open_task = elim (Bool-cases (is_resting t.status)) [
  | inl rests ↦ inr (h.1 rests)
  | inr busy ↦ inl (ground arith)
]

pub request_clarification-IsBound :
    (now : ℕ) (c : Clarification) (s : TeamState)
    → IsBound s
    → IsBound (request_clarification now c s).0
unfolding request_clarification
request_clarification-IsBound now c s b = elim (Option-cases (get s.tasks c.task_id)) [
  | inl gone ↦ rw (gone, request_clarification) b
  | inr (t, here) ↦ elim (Bool-cases (waits s t)) [
    | inl old ↦ rw (here, old, request_clarification) b
    | inr new ↦ elim (Bool-cases (is_completed t.status || is_failed t.status)) [
      | inl ended ↦ rw (here, new, ended, request_clarification) b
      | inr open_task ↦
          rw (here, new, open_task, request_clarification)
            (let s' = record s { clarifications = put s.clarifications c.id c } in
              release-IsBound c.task_id _ s' t here
                (FitsTask-IsCurrent c.task_id t s.workers (rw here at (b.at c.task_id)) open_task)
                (λ ws. (λ held. cc, λ rests. refl)) (record { at = b.at }))
    ]
  ]
]

pub answer_clarification-IsBound :
    (now : ℕ) (id answer by : String) (s : TeamState)
    → ((c : Clarification)
        → get s.clarifications id ≡ some c
        → (t : TaskInfo) → get s.tasks c.task_id ≡ some t
        → t.assigned_worker_id ≡ none)
    → IsBound s
    → IsBound (answer_clarification now id answer by s).0
unfolding answer_clarification
answer_clarification-IsBound now id answer by s free b =
    elim (Option-cases (get s.clarifications id)) [
      | inl gone ↦ rw (gone, answer_clarification) b
      | inr (c, here) ↦ elim (Bool-cases (str_truthy answer)) [
        | inr empty ↦ rw (here, empty, answer_clarification) b
        | inl given ↦ elim (Bool-cases (is_open (some c))) [
          | inr old ↦ rw (here, given, old, answer_clarification) b
          | inl new ↦
              rw (here, given, new, answer_clarification)
                (with_task-IsBound _ c.task_id _ (record { at = b.at })
                  (λ t there. (λ held. cc, λ rests. free c here t there)))
        ]
      ]
    ]

pub hand_off-IsBound :
    (now : ℕ) (task_id : String) (role : Option String) (contract : Handoff) (s s' : TeamState)
    → ((t : TaskInfo) → get s.tasks task_id ≡ some t → IsCurrent t)
    → hand_off now task_id role contract s ≡ some s'
    → IsBound s
    → IsBound s'
unfolding hand_off
hand_off-IsBound now task_id role contract s s' current e b =
    elim (Option-cases (get s.tasks task_id)) [
      | inl gone ↦ absurd (ground arith)
      | inr (t, here) ↦
          let same : release_assigned t.assigned_worker_id
                (with_task task_id (handed_off_task now role contract) s)
              ≡ s' =
            ground arith in
          rw (← same) (
            release-IsBound task_id _ s t here (current t here) (λ ws. (λ held. cc, λ rests. refl))
              b)
    ]
