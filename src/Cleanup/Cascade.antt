-- ===== src/Cleanup/Cascade.antt =====
-- What is left after a planning run was deleted.
use teamclaw.Prelude.{
  ℕ, String, ◌≡◌, refl, ◌∙◌, sym, inl, inr, Bool, Bool-cases, true, false, ◌||◌, none, some,
  Option-cases, List, [], ◌∷◌, ◌++◌, map, filter, any, get, values, get-remove, str_eq, eq_refl,
  eq_iff, arith, if◌then◌else◌, some_inj,
}
use teamclaw.Team.{TaskInfo, Clarification}
use teamclaw.Assignment.{option_eq}
use teamclaw.Contracts.Backfill.{unique_after}
use teamclaw.Runs.{ControllerRunInfo}
use teamclaw.Cleanup.{
  Store, Summary, empty_summary, delete_task_cascade, delete_task, delete_tasks, delete_run,
  delete_run_cascade, linked_task_ids, is_question_of_run, is_question_of_task,
}
use teamclaw.Cleanup.Purge.{
  IsKeyed, get-purge_before, get-purge_fails, In-get, any-ids, any-ids_found,
}

abbrev is_in : List String → String → Bool
is_in ids k = any (λ i. str_eq i k) ids

unique-in :
    (seen ids : List String) (k : String)
    → is_in ids k ≡ true
    → is_in seen k ≡ false
    → is_in (unique_after seen ids) k ≡ true
unique-in seen [] k h new = absurd (ground arith)
unique-in seen (i ∷ ids) k h new = elim (Bool-cases (is_in seen i)) [
  | inl old ↦
      rw old (unique-in (i ∷ seen) ids k (ground (arith, eq_iff i k)) (ground (arith, eq_iff i k)))
  | inr fresh ↦ rw fresh (elim (Bool-cases (str_eq i k)) [
    | inl here ↦ rw here refl
    | inr there ↦ rw there (unique-in (i ∷ seen) ids k (ground arith) (ground arith))
  ])
]

unique-only :
    (seen ids : List String) (k : String)
    → is_in (unique_after seen ids) k ≡ true
    → is_in ids k ≡ true
unique-only seen [] k h = h
unique-only seen (i ∷ ids) k h = elim (Bool-cases (is_in seen i)) [
  | inl old ↦ ground (arith, unique-only (i ∷ seen) ids k (rw old at h))
  | inr fresh ↦ elim (Bool-cases (str_eq i k)) [
    | inl here ↦ rw here refl
    | inr there ↦ rw there (unique-only (i ∷ seen) ids k (rw there at (rw fresh at h)))
  ]
]

is_in-append : (xs ys : List String) (k : String) → is_in (xs ++ ys) k ≡ is_in xs k || is_in ys k
is_in-append [] ys k = refl
is_in-append (x ∷ xs) ys k = ground (arith, is_in-append xs ys k)

tasks-delete_task_cascade :
    (isolated : Bool) (now : ℕ) (task_id : String) (s : Store) (m : Summary) (k : String)
    → get (delete_task_cascade isolated now task_id (s, m)).0.team.tasks k
      ≡ (if str_eq task_id k then none else get s.team.tasks k)
unfolding delete_task_cascade delete_task
tasks-delete_task_cascade isolated now task_id s m k =
    elim (Option-cases (get s.team.tasks task_id)) [
      | inl gone ↦ rw (gone, delete_task_cascade) (ground (arith, eq_iff task_id k, gone))
      | inr t ↦ rw (t.1, delete_task_cascade) (get-remove s.team.tasks task_id k)
    ]

tasks-delete_tasks :
    (isolated : Bool) (now : ℕ) (ids : List String) (s : Store) (m : Summary) (k : String)
    → get (delete_tasks isolated now ids (s, m)).0.team.tasks k
      ≡ (if is_in ids k then none else get s.team.tasks k)
unfolding delete_tasks
tasks-delete_tasks isolated now [] s m k = refl
tasks-delete_tasks isolated now (i ∷ ids) s m k =
    let q = delete_task_cascade isolated now i (s, m) in
    ground (
      arith,
      tasks-delete_tasks isolated now ids q.0 q.1 k,
      tasks-delete_task_cascade isolated now i s m k,
    )

questions-delete_task_cascade :
    (isolated : Bool) (now : ℕ) (task_id : String) (s : Store) (m : Summary) (k : String)
    (c : Clarification)
    → get (delete_task_cascade isolated now task_id (s, m)).0.team.clarifications k ≡ some c
    → get s.team.clarifications k ≡ some c
unfolding delete_task_cascade delete_task
questions-delete_task_cascade isolated now task_id s m k c h =
    elim (Option-cases (get s.team.tasks task_id)) [
      | inl gone ↦ rw (gone, delete_task_cascade) at h
      | inr t ↦
          get-purge_before (λ (x : Clarification). x.id) (is_question_of_task task_id)
            s.team.clarifications k c (rw (t.1, delete_task_cascade) at h)
    ]

questions-delete_tasks :
    (isolated : Bool) (now : ℕ) (ids : List String) (s : Store) (m : Summary) (k : String)
    (c : Clarification)
    → get (delete_tasks isolated now ids (s, m)).0.team.clarifications k ≡ some c
    → get s.team.clarifications k ≡ some c
unfolding delete_tasks
questions-delete_tasks isolated now [] s m k c h = h
questions-delete_tasks isolated now (i ∷ ids) s m k c h =
    let q = delete_task_cascade isolated now i (s, m) in
    questions-delete_task_cascade isolated now i s m k c
      (questions-delete_tasks isolated now ids q.0 q.1 k c h)

abbrev names_run : String → TaskInfo → Bool
names_run id t = option_eq t.controller_run_id id

linked_lem :
    (run : ControllerRunInfo) (s : Store) (k : String) (t : TaskInfo)
    → IsKeyed (λ (x : TaskInfo). x.id) s.team.tasks
    → get s.team.tasks k ≡ some t
    → is_in (linked_task_ids run s) k ≡ is_in run.created_task_ids k || names_run run.id t
linked_lem run s k t keyed h =
    let tasks = values s.team.tasks in
    let naming = map (λ (x : TaskInfo). x.id) (filter (names_run run.id) tasks) in
    let all_ids = run.created_task_ids ++ naming in
    let split = is_in-append run.created_task_ids naming k in
    let same = keyed.id_of k t h in
    elim (Bool-cases (is_in run.created_task_ids k || names_run run.id t)) [
      | inl linked ↦ rw linked (
          unique-in [] all_ids k
            (elim (Bool-cases (is_in run.created_task_ids k)) [
              | inl created ↦ rw split (rw created refl)
              | inr other ↦
                  let named : names_run run.id t ≡ true = ground arith in
                  let found : is_in naming k ≡ true = rw same at (
                    any-ids (λ (x : TaskInfo). x.id) (names_run run.id) tasks t
                      (In-get s.team.tasks k t h) named) in
                  rw split (rw (other, found) refl)
            ])
            refl)
      | inr free ↦ rw free (elim (Bool-cases (is_in (linked_task_ids run s) k)) [
        | inr out ↦ out
        | inl linked ↦
            let either : is_in run.created_task_ids k || is_in naming k ≡ true =
              sym split ∙ unique-only [] all_ids k linked in
            let found : is_in naming k ≡ true = ground arith in
            let r = any-ids_found (λ (x : TaskInfo). x.id) (names_run run.id) tasks k found in
            let task : r.0 ≡ t = some_inj (sym (rw r.3 at (keyed.found r.0 r.1)) ∙ h) in
            let named : names_run run.id t ≡ true = rw task at r.2 in absurd (ground arith)
      ])
    ]

-- When each task and each clarification stands under its id, and the run too, the cascade that
-- deletes a planning run removes the run; of the tasks it removes just those that the run created or
-- that name it; and no clarification that names the run is left.
pub delete_run_cascade_lem :
    (isolated : Bool) (now : ℕ) (preserves : Bool) (run_id : String) (s : Store)
    (run : ControllerRunInfo)
    → get s.runs run_id ≡ some run
    → run.id ≡ run_id
    → IsKeyed (λ (x : TaskInfo). x.id) s.team.tasks
    → IsKeyed (λ (x : Clarification). x.id) s.team.clarifications
    → let s' = (delete_run_cascade isolated now preserves run_id s).0 in
      (get s'.runs run_id ≡ none)
      × ((k : String) (t : TaskInfo)
          → get s.team.tasks k ≡ some t
          → get s'.team.tasks k ≡ (
              if any (λ i. str_eq i k) run.created_task_ids || option_eq t.controller_run_id run_id
              then none
              else some t))
      × ((k : String) (c : Clarification)
          → get s'.team.clarifications k ≡ some c
          → option_eq c.controller_run_id run_id ≡ false)
unfolding delete_run_cascade delete_run
delete_run_cascade_lem isolated now preserves run_id s run there same tasks questions =
    let ids = linked_task_ids run s in
    let p = delete_tasks isolated now ids (s, empty_summary) in
    rw (there, delete_run_cascade)
      (
        rw (get-remove p.0.runs run_id run_id) (rw (eq_refl run_id) refl),
        (λ k t h.
            rw
              (
                tasks-delete_tasks isolated now ids s empty_summary k,
                linked_lem run s k t tasks h,
                same,
                h,
              )
              refl),
        (λ k c h.
            get-purge_fails (λ (x : Clarification). x.id) (is_question_of_run run_id)
              p.0.team.clarifications
              (λ j x found.
                questions.id_of j x
                  (questions-delete_tasks isolated now ids s empty_summary j x found))
              k c h),
      )
