-- ===== src/Runs/Stale.antt =====
-- Which runs are deleted as stale.
use teamclaw.Prelude.{
  ℕ, String, ◌≡◌, ◌≤◌, ◌+◌, ◌*◌, not, true, false, inl, inr, Bool-cases, Option, List, [], ◌∷◌,
  Bool, arith, any, leb, In, All, All-In, All-map, All-filter_holds, Dict, values,
}
use teamclaw.Team.{TeamState}
use teamclaw.Execution.{is_ended}
use teamclaw.Assignment.{option_eq}
use teamclaw.Runs.{
  ControllerRunInfo, can_delete_stale, stale_runs, insert_run, by_update, last_activity,
  is_open_task_of, is_open_question_of,
}

module _ (P : ControllerRunInfo → Type 0) where
  insert_run-All :
      (r : ControllerRunInfo) (rs : List ControllerRunInfo)
      → P r
      → All P rs
      → All P (insert_run r rs)
  insert_run-All r [] p h = (p, tt)
  insert_run-All r (q ∷ qs) p h = elim (Bool-cases (leb r.updated_at q.updated_at)) [
    | inl older ↦ rw older (p, h)
    | inr newer ↦ rw newer (h.0, insert_run-All r qs p h.1)
  ]

  by_update-All : (rs : List ControllerRunInfo) → All P rs → All P (by_update rs)
  by_update-All [] h = tt
  by_update-All (r ∷ rs) h = insert_run-All r (by_update rs) h.0 (by_update-All rs h.1)

-- A run that has not ended, that was idle for `age`, and that nothing open depends on.
abbrev pub IsStale : TeamState → ℕ → ℕ → ControllerRunInfo → Type 0
IsStale s now age run =
    (is_ended run.status ≡ false)
    × (last_activity run + age ≤ now)
    × (any (is_open_task_of run.id) (values s.tasks) ≡ false)
    × (any (is_open_question_of run.id) (values s.clarifications) ≡ false)

can_delete_stale-IsStale :
    (s : TeamState) (now age : ℕ) (run : ControllerRunInfo)
    → can_delete_stale s now age run ≡ true
    → IsStale s now age run
unfolding can_delete_stale
can_delete_stale-IsStale s now age run h = (ground arith, ground arith, ground arith, ground arith)

-- A registered run that is stale and is not the excluded one.
abbrev pub IsPruned :
    TeamState → ℕ → ℕ → Option String → Dict ControllerRunInfo → ControllerRunInfo → Type 0
IsPruned s now age exclude_run_id runs run =
    In run (values runs) × (option_eq exclude_run_id run.id ≡ false) × IsStale s now age run

not_lem : (b : Bool) → not b ≡ true → b ≡ false
not_lem b h = ground arith

-- Each run that the pruning chooses to delete is a registered run other than the excluded one, has not ended,
-- has shown no activity for twice the task timeout, and owns no task that is still open and no
-- clarification that waits for an answer.
pub stale_runs-IsStale :
    (s : TeamState) (now task_timeout_ms : ℕ) (exclude_run_id : Option String)
    (runs : Dict ControllerRunInfo)
    → All
        (IsPruned s now (task_timeout_ms * 2) exclude_run_id runs)
        (stale_runs s now task_timeout_ms exclude_run_id runs)
unfolding stale_runs
stale_runs-IsStale s now task_timeout_ms exclude_run_id runs =
    let age = task_timeout_ms * 2 in
    let others : ControllerRunInfo → Bool = λ r. not (option_eq exclude_run_id r.id) in
    by_update-All (IsPruned s now age exclude_run_id runs) _ (
      All-map
        (λ r. (In r (values runs) × (others r ≡ true)) × (can_delete_stale s now age r ≡ true))
        (IsPruned s now age exclude_run_id runs) _
        (λ r h. (
          h.0.0,
          not_lem (option_eq exclude_run_id r.id) h.0.1,
          can_delete_stale-IsStale s now age r h.1,
        ))
        (All-filter_holds (λ r. In r (values runs) × (others r ≡ true)) (can_delete_stale s now age)
          _
          (All-filter_holds (λ r. In r (values runs)) others (values runs) (All-In (values runs)))))
