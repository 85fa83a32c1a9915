-- ===== src/Workers/Timeouts.antt =====
-- Removal, timeouts and the clean-up at the start keep the binding of tasks to workers.
use teamclaw.Prelude.{
  ℕ, ◌-◌, ◌+◌, String, ◌≡◌, inl, inr, refl, false, ◌&&◌, not, Option, none, some, List, [], ◌∷◌,
  arith, Dict, get, remove, map_values, get-remove, get-alter, get-map_values, eq_iff, str_eq,
  str_truthy, Bool-cases, Option-cases, ltb, get_or,
}
use teamclaw.Team.{TaskInfo, WorkerInfo, TeamState, is_offline}
use teamclaw.Assignment.{with_task, with_worker, option_eq}
use teamclaw.Assignment.Invariant.{
  IsBound, Fits, FitsTask, HasWorker, IsBusyWith, with_both-IsBound,
}
use teamclaw.Assignment.Preservation.{HasWorker-alter_other}
use teamclaw.Workers.Preservation.{workers-IsBound}
use teamclaw.Workers.{
  remove_worker, check_worker, check_workers, resume_orphans, resume_orphan, dropped_task,
  lost_task, gone_offline, release_lost, is_settled, is_orphan, worker_timeout_ms,
  max_resume_attempts,
}

HasWorker-remove_other :
    (j : String) (o : Option String) (ws : Dict WorkerInfo) (k : String)
    → HasWorker j o ws
    → HasWorker j o (remove ws k)
HasWorker-remove_other j none ws k h = tt
HasWorker-remove_other j (some i) ws k h = elim (Bool-cases (str_eq k i)) [
  | inl same ↦ rw (get-remove ws k i) (rw same tt)
  | inr other ↦ rw (get-remove ws k i) (rw other h)
]

pub remove_worker-IsBound :
    (now : ℕ) (worker_id : String) (s : TeamState)
    → IsBound s
    → IsBound (remove_worker now worker_id s)
unfolding remove_worker
remove_worker-IsBound now worker_id s b = record { at = at }
  where
    drop_one :
        (j : String) (t : TaskInfo)
        → FitsTask j t s.workers
        → FitsTask j (dropped_task now worker_id t) (remove s.workers worker_id)
    drop_one j t (h, k) =
        elim (Bool-cases (option_eq t.assigned_worker_id worker_id && not (is_settled t.status))) [
          | inl mine ↦ rw mine ((λ held. cc), (λ rests. refl))
          | inr other ↦ rw other (
            (λ held. HasWorker-remove_other j t.assigned_worker_id s.workers worker_id (h held)),
            k,
          )
        ]

    at :
        (j : String)
        → Fits j
            (get (map_values (dropped_task now worker_id) s.tasks) j)
            (remove s.workers worker_id)
    at j = rw (get-map_values s.tasks j) (elim (Option-cases (get s.tasks j)) [
      | inl gone ↦ rw gone tt
      | inr (t, here) ↦ rw here (drop_one j t (rw here at (b.at j)))
    ])

-- A worker goes offline, and the task that it was busy with goes back to pending.
lose-IsBound :
    (now : ℕ) (worker_id task_id : String) (s : TeamState) (w : WorkerInfo)
    → get s.workers worker_id ≡ some w
    → w.current_task_id ≡ some task_id
    → IsBound s
    → IsBound (with_worker worker_id gone_offline (with_task task_id (lost_task now worker_id) s))
lose-IsBound now worker_id task_id s w there current b =
    with_both-IsBound s task_id worker_id _ _ b
      (λ t here.
        elim (Bool-cases (option_eq t.assigned_worker_id worker_id && not (is_settled t.status))) [
          | inl mine ↦ rw mine ((λ held. cc), (λ rests. refl))
          | inr other ↦
              let fits : FitsTask task_id t s.workers = rw here at (b.at task_id) in
              rw other (
                λ held.
                    HasWorker-alter_other task_id t.assigned_worker_id s.workers worker_id
                      gone_offline (ground arith) (fits.0 held),
                fits.1,
              )
        ])
      (λ j other. rw there (λ busy. absurd (ground (arith, eq_iff task_id j))))

-- A worker goes offline that is busy with no task of the state.
lose_idle-IsBound :
    (worker_id : String) (s : TeamState) (w : WorkerInfo)
    → get s.workers worker_id ≡ some w
    → ((j : String) (t : TaskInfo) → get s.tasks j ≡ some t → w.current_task_id ≡ some j → ⊥)
    → IsBound s
    → IsBound (with_worker worker_id gone_offline s)
lose_idle-IsBound worker_id s w there none_busy b = workers-IsBound s _ b λ j t here held i e busy.
    elim (Bool-cases (str_eq worker_id i)) [
      | inr other ↦ rw (get-alter s.workers worker_id i) (rw other busy)
      | inl same ↦
          let e' : worker_id ≡ i = (eq_iff worker_id i).0 same in
          let busy' : IsBusyWith j (some w) = rw there at (rw (← e') at busy) in
          absurd (none_busy j t here busy'.1)
    ]

str_falsy : (x : String) → str_truthy x ≡ false → x ≡ ""
str_falsy String.[] h = refl
str_falsy (String.◌∷◌ c x) h = cc

no_empty-release_lost :
    (now : ℕ) (worker_id : String) (o : Option String) (s : TeamState)
    → get s.tasks "" ≡ none
    → get (release_lost now worker_id o s).tasks "" ≡ none
no_empty-release_lost now worker_id none s h = h
no_empty-release_lost now worker_id (some task_id) s h =
    ground (arith, get-alter s.tasks task_id "" (lost_task now worker_id))

no_empty-check_worker :
    (now : ℕ) (worker_id : String) (s : TeamState)
    → get s.tasks "" ≡ none
    → get (check_worker now worker_id s).tasks "" ≡ none
unfolding check_worker
no_empty-check_worker now worker_id s h = elim (Option-cases (get s.workers worker_id)) [
  | inl away ↦ rw (away, check_worker) h
  | inr (w, there) ↦ ground (
    arith,
    no_empty-release_lost now worker_id w.current_task_id (with_worker worker_id gone_offline s) h,
  )
]

resume_orphan-FitsTask :
    (now : ℕ) (j : String) (t : TaskInfo) (ws : Dict WorkerInfo)
    → FitsTask j t ws
    → FitsTask j (resume_orphan now ws t) ws
unfolding resume_orphan
resume_orphan-FitsTask now j t ws h = elim (Bool-cases (not (is_orphan ws t))) [
  | inl fine ↦ rw (fine, resume_orphan) h
  | inr lost ↦ elim (Bool-cases (ltb max_resume_attempts (get_or t.resume_attempt 0 + 1))) [
    | inl many ↦ rw (lost, many, resume_orphan) ((λ held. cc), (λ rests. cc))
    | inr few ↦ rw (lost, few, resume_orphan) ((λ held. cc), (λ rests. refl))
  ]
]

pub check_worker-IsBound :
    (now : ℕ) (worker_id : String) (s : TeamState)
    → get s.tasks "" ≡ none
    → IsBound s
    → IsBound (check_worker now worker_id s)
unfolding check_worker
check_worker-IsBound now worker_id s no_empty b = elim (Option-cases (get s.workers worker_id)) [
  | inl away ↦ rw (away, check_worker) b
  | inr (w, there) ↦ elim (Bool-cases (not (ltb worker_timeout_ms (now - w.last_heartbeat)))) [
    | inl fresh ↦ rw (there, fresh, check_worker) b
    | inr late ↦ elim (Bool-cases (is_offline w.status)) [
      | inl dead ↦
          rw (there, late, dead, check_worker)
            (workers-IsBound s _ b (λ j t here held i e busy.
              HasWorker-remove_other j (some i) s.workers worker_id busy))
      | inr live ↦ rw (there, late, live, check_worker) (go w there w.current_task_id refl)
    ]
  ]
]
  where
    go :
        (w : WorkerInfo)
        → get s.workers worker_id ≡ some w
        → (o : Option String) → w.current_task_id ≡ o
        → IsBound (release_lost now worker_id o (with_worker worker_id gone_offline s))
    go w there none e = lose_idle-IsBound worker_id s w there (λ j t here current. ground arith) b
    go w there (some task_id) e = elim (Bool-cases (str_truthy task_id)) [
      | inl named ↦ rw named (lose-IsBound now worker_id task_id s w there e b)
      | inr empty ↦ rw empty (
          lose_idle-IsBound worker_id s w there
            (λ j t here current.
              let e' : j ≡ task_id = ground arith in
              let e'' : task_id ≡ "" = str_falsy task_id empty in
              let here' : get s.tasks "" ≡ some t = rw (← e'') (rw (← e') here) in ground arith)
            b)
    ]

pub check_workers-IsBound :
    (now : ℕ) (ids : List String) (s : TeamState)
    → get s.tasks "" ≡ none
    → IsBound s
    → IsBound (check_workers now ids s)
unfolding check_workers
check_workers-IsBound now [] s no_empty b = b
check_workers-IsBound now (worker_id ∷ rest) s no_empty b =
    check_workers-IsBound now rest (check_worker now worker_id s)
      (no_empty-check_worker now worker_id s no_empty)
      (check_worker-IsBound now worker_id s no_empty b)

pub resume_orphans-IsBound : (now : ℕ) (s : TeamState) → IsBound s → IsBound (resume_orphans now s)
unfolding resume_orphans
resume_orphans-IsBound now s b = record { at = at }
  where
    at : (j : String) → Fits j (get (map_values (resume_orphan now s.workers) s.tasks) j) s.workers
    at j = rw (get-map_values s.tasks j) (elim (Option-cases (get s.tasks j)) [
      | inl gone ↦ rw gone tt
      | inr (t, here) ↦ rw here (resume_orphan-FitsTask now j t s.workers (rw here at (b.at j)))
    ])
