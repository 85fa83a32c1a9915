-- ===== src/Workers/Orphans.antt =====
-- What the timeout monitor and the clean-up at the start achieve.
use teamclaw.Prelude.{
  Option-cases, ℕ, ◌+◌, ◌-◌, ◌≤◌, String, ◌≡◌, ◌⊎◌, inl, inr, refl, ◌∙◌, true, false, Option, none,
  some, arith, Dict, get, get-map_values, get-remove, eq_refl, Bool-cases, ltb, get_or,
  get-alter_self,
}
use teamclaw.Team.{TaskStatus, WorkerStatus, TaskInfo, WorkerInfo, TeamState, is_offline}
use teamclaw.Workers.{
  resume_orphans, resume_orphan, is_orphan, max_resume_attempts, check_worker, worker_timeout_ms,
  gone_offline, release_lost, gave_up,
}

-- The attempt number of a task is within the limit.
abbrev pub WithinAttempts : TaskInfo → Type 0
WithinAttempts t = get_or t.resume_attempt 0 ≤ max_resume_attempts

-- The task is assigned or in progress at a worker that is missing or offline.
abbrev pub IsLost : Dict WorkerInfo → TaskInfo → Type 0
IsLost workers t =
    (worker_id : String) × (t.assigned_worker_id ≡ some worker_id)
    × ((t.status ≡ TaskStatus.assigned) ⊎ (t.status ≡ TaskStatus.in_progress))
    × ((get workers worker_id ≡ none)
        ⊎ ((w : WorkerInfo) × (get workers worker_id ≡ some w) × (w.status ≡ WorkerStatus.offline)))

orphan-IsLost :
    (workers : Dict WorkerInfo) (t : TaskInfo) → is_orphan workers t ≡ true → IsLost workers t
orphan-IsLost workers t h = elim (Option-cases t.assigned_worker_id) [
  | inl free ↦ absurd (ground (arith, rw free at h))
  | inr mine ↦ elim (Option-cases (get workers mine.0)) [
    | inl gone ↦ (mine.0, mine.1, ground (arith, rw mine.1 at h), inl gone)
    | inr there ↦ (
      mine.0,
      mine.1,
      ground (arith, rw mine.1 at h),
      inr (there.0, there.1, ground (arith, rw (mine.1, there.1) at h)),
    )
  ]
]

failed_not_orphan :
    (ws : Dict WorkerInfo) (t : TaskInfo) → t.status ≡ TaskStatus.failed → is_orphan ws t ≡ false
failed_not_orphan ws t h = ground arith

-- What becomes of a task: one that is no orphan is as it was; a lost one is pending again with no
-- worker and one attempt more, or it has failed after the last attempt.
abbrev pub IsResumed : Dict WorkerInfo → TaskInfo → TaskInfo → Type 0
IsResumed workers t t' =
    ((is_orphan workers t ≡ false) × (t' ≡ t))
    ⊎ (IsLost workers t
        × (((t'.status ≡ TaskStatus.pending)
              × (t'.assigned_worker_id ≡ none)
              × (get_or t'.resume_attempt 0 ≡ get_or t.resume_attempt 0 + 1))
            ⊎ ((t'.status ≡ TaskStatus.failed)
                × (get_or t.resume_attempt 0 ≡ max_resume_attempts))))

resume_orphan_done :
    (now : ℕ) (ws : Dict WorkerInfo) (t : TaskInfo)
    → WithinAttempts t
    → (is_orphan ws (resume_orphan now ws t) ≡ false)
      × WithinAttempts (resume_orphan now ws t)
      × IsResumed ws t (resume_orphan now ws t)
unfolding resume_orphan
resume_orphan_done now ws t h = elim (Bool-cases (is_orphan ws t)) [
  | inr fine ↦ rw (fine, resume_orphan) (fine, h, inl (refl, refl))
  | inl lost ↦ elim (Bool-cases (ltb max_resume_attempts (get_or t.resume_attempt 0 + 1))) [
    | inl many ↦
        rw (lost, many, resume_orphan)
          (
            failed_not_orphan ws (gave_up now t) refl,
            h,
            inr (orphan-IsLost ws t lost, inr (refl, ground arith)),
          )
    | inr few ↦
        rw (lost, few, resume_orphan)
          (refl, ground arith, inr (orphan-IsLost ws t lost, inl (refl, refl, refl)))
  ]
]

-- When the controller starts, every task whose number of attempts is within the limit of 3 ends with
-- a number within the limit and is no orphan: no task is assigned or in progress at a worker that is
-- missing or offline. A task that was an orphan is pending, with no worker and one attempt more, or it
-- has failed, after exactly 3 attempts; every other task is as it was.
pub resume_orphans_lem :
    (now : ℕ) (task_id : String) (t : TaskInfo) (s : TeamState)
    → get s.tasks task_id ≡ some t
    → WithinAttempts t
    → (t' : TaskInfo) × (get (resume_orphans now s).tasks task_id ≡ some t')
      × (is_orphan (resume_orphans now s).workers t' ≡ false)
      × WithinAttempts t'
      × IsResumed s.workers t t'
unfolding resume_orphans
resume_orphans_lem now task_id t s here h =
    let (settled, within, how) = resume_orphan_done now s.workers t h in
    (
      resume_orphan now s.workers t,
      get-map_values s.tasks task_id (resume_orphan now s.workers) ∙ rw here refl,
      settled,
      within,
      how,
    )

release_lost-workers :
    (now : ℕ) (worker_id : String) (o : Option String) (s : TeamState)
    → (release_lost now worker_id o s).workers ≡ s.workers
release_lost-workers now worker_id none s = refl
release_lost-workers now worker_id (some task_id) s = ground arith

went_offline :
    (now : ℕ) (worker_id : String) (w : WorkerInfo) (s : TeamState)
    → get s.workers worker_id ≡ some w
    → is_offline w.status ≡ false
    → ltb worker_timeout_ms (now - w.last_heartbeat) ≡ true
    → get (check_worker now worker_id s).workers worker_id ≡ some (gone_offline w)
unfolding check_worker
went_offline now worker_id w s there live late =
    rw (there, late, live, check_worker)
      (rw (release_lost-workers now worker_id w.current_task_id)
        (get-alter_self s.workers worker_id gone_offline there))

reaped :
    (now : ℕ) (worker_id : String) (w : WorkerInfo) (s : TeamState)
    → get s.workers worker_id ≡ some w
    → is_offline w.status ≡ true
    → ltb worker_timeout_ms (now - w.last_heartbeat) ≡ true
    → get (check_worker now worker_id s).workers worker_id ≡ none
unfolding check_worker
reaped now worker_id w s there dead late =
    rw (there, late, dead, check_worker)
      (rw (get-remove s.workers worker_id worker_id) (rw (eq_refl worker_id)))

-- A worker that was not heard of for longer than the timeout is offline after one round of the
-- monitor and gone from the registry after two; one that was heard of in time stays as it is.
pub check_worker_twice :
    (now later : ℕ) (worker_id : String) (w : WorkerInfo) (s : TeamState)
    → get s.workers worker_id ≡ some w
    → is_offline w.status ≡ false
    → now ≤ later
    → ((now - w.last_heartbeat ≤ worker_timeout_ms) × (check_worker now worker_id s ≡ s))
      ⊎ ((get (check_worker now worker_id s).workers worker_id ≡ some (gone_offline w))
          × (get (check_worker later worker_id (check_worker now worker_id s)).workers worker_id
              ≡ none))
unfolding check_worker
check_worker_twice now later worker_id w s there live order =
    elim (Bool-cases (ltb worker_timeout_ms (now - w.last_heartbeat))) [
      | inr fresh ↦ inl (ground arith, rw (there, fresh, check_worker))
      | inl late ↦ inr (
        went_offline now worker_id w s there live late,
        reaped later worker_id (gone_offline w) (check_worker now worker_id s)
            (went_offline now worker_id w s there live late) refl (ground arith),
      )
    ]
