-- ===== src/Assignment/Invariant.antt =====
-- A task that is under way is bound to a worker that is busy with that very task.
use teamclaw.Prelude.{
  String, ◌≡◌, inl, inr, Bool, true, false, Option, none, some, Dict, get, alter, get-alter, eq_iff,
  str_eq, Bool-cases, Option-cases, map_option,
}
use teamclaw.Team.{WorkerStatus, TaskStatus, TaskInfo, WorkerInfo, TeamState}
use teamclaw.Assignment.{with_task, with_worker}

-- The statuses in which the assigned worker is at work on the task.
abbrev pub is_held : TaskStatus → Bool
is_held TaskStatus.assigned = true
is_held TaskStatus.in_progress = true
is_held TaskStatus.review = true
is_held _ = false

abbrev pub is_resting : TaskStatus → Bool
is_resting TaskStatus.pending = true
is_resting TaskStatus.blocked = true
is_resting _ = false

abbrev pub IsBusyWith : String → Option WorkerInfo → Type 0
IsBusyWith task_id none = Unit
IsBusyWith task_id (some w) = (w.status ≡ WorkerStatus.busy) × (w.current_task_id ≡ some task_id)

abbrev pub HasWorker : String → Option String → Dict WorkerInfo → Type 0
HasWorker task_id none workers = Unit
HasWorker task_id (some worker_id) workers = IsBusyWith task_id (get workers worker_id)

abbrev pub FitsTask : String → TaskInfo → Dict WorkerInfo → Type 0
FitsTask task_id t workers =
    (is_held t.status ≡ true → HasWorker task_id t.assigned_worker_id workers)
    × (is_resting t.status ≡ true → t.assigned_worker_id ≡ none)

abbrev pub Fits : String → Option TaskInfo → Dict WorkerInfo → Type 0
Fits task_id none workers = Unit
Fits task_id (some t) workers = FitsTask task_id t workers

-- For every task: while it is assigned, in progress or in review, its worker, if registered, is
-- busy with it; while it is pending or blocked, it has no worker.
pub record IsBound (s : TeamState) : Type 0 where
  pub at : (task_id : String) → Fits task_id (get s.tasks task_id) s.workers

-- `g` leaves a worker that is busy with the task busy with it.
abbrev pub Keeps : String → (WorkerInfo → WorkerInfo) → Option WorkerInfo → Type 0
Keeps task_id g o = IsBusyWith task_id o → IsBusyWith task_id (map_option g o)

HasWorker-alter :
    (j : String) (o : Option String) (ws : Dict WorkerInfo) (k : String)
    (g : WorkerInfo → WorkerInfo)
    → Keeps j g (get ws k)
    → HasWorker j o ws
    → HasWorker j o (alter ws k g)
HasWorker-alter j none ws k g keep h = tt
HasWorker-alter j (some i) ws k g keep h = elim (Bool-cases (str_eq k i)) [
  | inl same ↦
      rw (get-alter ws k i g)
        (rw same (let e : k ≡ i = (eq_iff k i).0 same in rw (← e) (keep (rw e h))))
  | inr other ↦ rw (get-alter ws k i g) (rw other h)
]

Fits-alter :
    (j : String) (o : Option TaskInfo) (ws : Dict WorkerInfo) (k : String)
    (g : WorkerInfo → WorkerInfo)
    → Keeps j g (get ws k)
    → Fits j o ws
    → Fits j o (alter ws k g)
Fits-alter j none ws k g keep h = tt
Fits-alter j (some t) ws k g keep h =
    (λ held. HasWorker-alter j t.assigned_worker_id ws k g keep (h.0 held), h.1)

-- The tasks change at one place, the workers not at all.
pub with_task-IsBound :
    (s : TeamState) (task_id : String) (f : TaskInfo → TaskInfo)
    → IsBound s
    → ((t : TaskInfo) → get s.tasks task_id ≡ some t → FitsTask task_id (f t) s.workers)
    → IsBound (with_task task_id f s)
with_task-IsBound s task_id f b fits = record { at = at }
  where
    at : (j : String) → Fits j (get (alter s.tasks task_id f) j) s.workers
    at j = elim (Bool-cases (str_eq task_id j)) [
      | inl same ↦
          let e : task_id ≡ j = (eq_iff task_id j).0 same in
          rw (get-alter s.tasks task_id j f) (
            rw same (elim (Option-cases (get s.tasks j)) [
              | inl gone ↦ rw gone tt
              | inr (t, here) ↦ rw here (rw (← e) (fits t (rw e here)))
            ]))
      | inr other ↦ rw (get-alter s.tasks task_id j f) (rw other (b.at j))
    ]

-- The tasks and the workers change at one place each.
pub with_both-IsBound :
    (s : TeamState) (task_id k : String) (f : TaskInfo → TaskInfo) (g : WorkerInfo → WorkerInfo)
    → IsBound s
    → ((t : TaskInfo) → get s.tasks task_id ≡ some t → FitsTask task_id (f t) (alter s.workers k g))
    → ((j : String) → str_eq task_id j ≡ false → Keeps j g (get s.workers k))
    → IsBound (with_worker k g (with_task task_id f s))
with_both-IsBound s task_id k f g b fits keep = record { at = at }
  where
    at : (j : String) → Fits j (get (alter s.tasks task_id f) j) (alter s.workers k g)
    at j = elim (Bool-cases (str_eq task_id j)) [
      | inl same ↦
          let e : task_id ≡ j = (eq_iff task_id j).0 same in
          rw (get-alter s.tasks task_id j f) (
            rw same (elim (Option-cases (get s.tasks j)) [
              | inl gone ↦ rw gone tt
              | inr (t, here) ↦ rw here (rw (← e) (fits t (rw e here)))
            ]))
      | inr other ↦
          rw (get-alter s.tasks task_id j f)
            (rw other (Fits-alter j (get s.tasks j) s.workers k g (keep j other) (b.at j)))
    ]
