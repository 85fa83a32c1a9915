-- ===== src/Workers/Preservation.antt =====
-- The operations on workers keep the binding of tasks to workers.
use teamclaw.Prelude.{
  ℕ, String, ◌≡◌, ◌⊎◌, inl, inr, refl, true, false, Option, none, some, List, arith, Dict, get,
  get-put, get-alter, alter, eq_iff, str_eq, Bool-cases, Option-cases,
}
use teamclaw.Team.{WorkerStatus, TaskInfo, WorkerInfo, TeamState}
use teamclaw.Assignment.Invariant.{IsBound, Fits, FitsTask, HasWorker, IsBusyWith, is_held}
use teamclaw.Workers.{register_worker, heartbeat}
use teamclaw.Provisioning.{begin_termination, with_record, terminating_record}

-- No task that is under way is assigned to the worker.
abbrev pub IsFree : TeamState → String → Type 0
IsFree s worker_id =
    (j : String) (t : TaskInfo)
    → get s.tasks j ≡ some t
    → t.assigned_worker_id ≡ some worker_id
    → is_held t.status ≡ false

-- The workers change so that every bound task keeps its worker.
pub workers-IsBound :
    (s : TeamState) (ws : Dict WorkerInfo)
    → IsBound s
    → ((j : String) (t : TaskInfo)
        → get s.tasks j ≡ some t
        → is_held t.status ≡ true
        → (i : String) → t.assigned_worker_id ≡ some i
        → IsBusyWith j (get s.workers i)
        → IsBusyWith j (get ws i))
    → IsBound (record s { workers = ws })
workers-IsBound s ws b keep = record { at = at }
  where
    has :
        (j : String) (t : TaskInfo)
        → get s.tasks j ≡ some t
        → is_held t.status ≡ true
        → (o : Option String) → t.assigned_worker_id ≡ o
        → HasWorker j o s.workers
        → HasWorker j o ws
    has j t here held none e h = tt
    has j t here held (some i) e h = keep j t here held i e h

    at : (j : String) → Fits j (get s.tasks j) ws
    at j = elim (Option-cases (get s.tasks j)) [
      | inl gone ↦ rw gone tt
      | inr (t, here) ↦
          let fits : FitsTask j t s.workers = rw here at (b.at j) in
          rw here ((λ held. has j t here held t.assigned_worker_id refl (fits.0 held)), fits.1)
    ]

pub register_worker-IsBound :
    (now : ℕ) (worker_id role label url : String) (capabilities : List String) (s : TeamState)
    → IsFree s worker_id
    → IsBound s
    → IsBound (register_worker now worker_id role label url capabilities s)
unfolding register_worker
register_worker-IsBound now worker_id role label url capabilities s free b =
    workers-IsBound s _ b (λ j t here held i e busy. elim (Bool-cases (str_eq worker_id i)) [
      | inl same ↦
          let e' : t.assigned_worker_id ≡ some worker_id = ground (arith, eq_iff worker_id i) in
          absurd (ground (arith, free j t here e'))
      | inr other ↦ rw (get-put s.workers worker_id i) (rw other busy)
    ])

-- What a heartbeat reports agrees with the record, or no task under way is assigned to the worker.
abbrev pub IsHonest : TeamState → String → WorkerStatus → Option String → Type 0
IsHonest s worker_id status current =
    IsFree s worker_id
    ⊎ ((status ≡ WorkerStatus.busy)
        × ((w : WorkerInfo) → get s.workers worker_id ≡ some w → w.current_task_id ≡ current))

pub heartbeat-IsBound :
    (now : ℕ) (worker_id : String) (status : WorkerStatus) (current : Option String) (s : TeamState)
    → IsHonest s worker_id status current
    → IsBound s
    → IsBound (heartbeat now worker_id status current s)
unfolding heartbeat
heartbeat-IsBound now worker_id status current s honest b =
    workers-IsBound s _ b λ j t here held i e busy. elim (Bool-cases (str_eq worker_id i)) [
      | inr other ↦ rw (get-alter s.workers worker_id i) (rw other busy)
      | inl same ↦
          let e' : worker_id ≡ i = (eq_iff worker_id i).0 same in
          rw (get-alter s.workers worker_id i) (
            rw (same) (elim (Option-cases (get s.workers i)) [
              | inl away ↦ rw away tt
              | inr (w, there) ↦ rw there (elim honest [
                | inl free ↦ absurd (ground (arith, free j t here (ground arith)))
                | inr (fine, kept) ↦
                    let busy' : IsBusyWith j (some w) = rw there at busy in
                    (fine, ground (arith, kept w (rw e' there)))
              ])
            ]))
    ]

-- The termination of a managed worker that no task under way is assigned to.
pub begin_termination-IsBound :
    (now : ℕ) (worker_id : String) (s : TeamState)
    → IsFree s worker_id
    → IsBound s
    → IsBound (begin_termination now worker_id s)
unfolding begin_termination
begin_termination-IsBound now worker_id s free b =
    elim (Option-cases (get s.provisioning worker_id)) [
      | inl gone ↦ rw (gone, begin_termination) b
      | inr managed ↦
          rw (managed.1, begin_termination)
            (workers-IsBound (with_record worker_id (terminating_record now) s)
              (alter s.workers worker_id
                (λ w. record w { status = WorkerStatus.offline; current_task_id = none }))
              (record { at = b.at })
              (λ j t here held i e busy. elim (Bool-cases (str_eq worker_id i)) [
                | inl same ↦ absurd (ground (arith, eq_iff worker_id i, free j t here))
                | inr other ↦ rw (get-alter s.workers worker_id i) (rw other busy)
              ]))
    ]
