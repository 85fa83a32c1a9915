-- ===== src/Cleanup/Gone.antt =====
-- What is left after a task was deleted.
use teamclaw.Prelude.{
  ℕ, String, ◌≡◌, refl, inl, inr, Bool, Bool-cases, false, not, none, some, List, [], ◌∷◌, filter,
  any, All, filter-All, Dict, get, values, map_values, get-remove, str_eq, eq_refl, arith,
  if◌then◌else◌,
}
use teamclaw.Team.{TaskInfo, Clarification, TeamMessage}
use teamclaw.Assignment.{option_eq}
use teamclaw.Runs.{ControllerRunInfo}
use teamclaw.Cleanup.{
  Store, Summary, delete_task_cascade, delete_task, forget_task, is_question_of_task, is_message_of,
}
use teamclaw.Cleanup.Purge.{IsKeyed, get-purge_gone, get-purge_kept}

-- The run does not name the task.
abbrev pub IsFree : String → ControllerRunInfo → Type 0
IsFree task_id run =
    (option_eq run.source_task_id task_id ≡ false)
    × (any (λ id. str_eq id task_id) run.created_task_ids ≡ false)

any-filter :
    (id : String) (ss : List String)
    → any (λ s. str_eq s id) (filter (λ s. not (str_eq s id)) ss) ≡ false
any-filter id [] = refl
any-filter id (s ∷ ss) = ground (arith, any-filter id ss)

forget_task-IsFree :
    (now : ℕ) (task_id : String) (run : ControllerRunInfo)
    → IsFree task_id (forget_task now task_id run)
unfolding forget_task
forget_task-IsFree now task_id run = (
  elim (Bool-cases (option_eq run.source_task_id task_id)) [
    | inl named ↦ rw named refl
    | inr other ↦ rw other other
  ],
  elim (Bool-cases (any (λ id. str_eq id task_id) run.created_task_ids)) [
    | inl created ↦ rw created (any-filter task_id run.created_task_ids)
    | inr other ↦ rw other other
  ],
)

map_values-All {ℓ} :
    {V : Type ℓ} (P : V → Type 0) (f : V → V) (d : Dict V)
    → ((v : V) → P (f v))
    → All P (values (map_values f d))
map_values-All P f [] h = tt
map_values-All P f ((k, v) ∷ d) h = (h v, map_values-All P f d h)

kept_messages :
    (task_id : String) (ms : List TeamMessage)
    → All (λ m. is_message_of task_id m ≡ false) (filter (λ m. not (is_message_of task_id m)) ms)
kept_messages task_id ms =
    filter-All (λ m. is_message_of task_id m ≡ false) (λ m. not (is_message_of task_id m)) ms
      (λ m h. ground arith)

-- When each clarification stands under its id, the cascade that deletes a task of the state removes
-- the task and no other, removes the clarifications about the task and no other, leaves no message
-- about it, and leaves no run that names it as its source or among those it created.
pub delete_task_cascade_lem :
    (isolated : Bool) (now : ℕ) (task_id : String) (s : Store) (m : Summary) (t : TaskInfo)
    → get s.team.tasks task_id ≡ some t
    → IsKeyed (λ (c : Clarification). c.id) s.team.clarifications
    → let s' = (delete_task_cascade isolated now task_id (s, m)).0 in
      (get s'.team.tasks task_id ≡ none)
      × ((j : String) → str_eq task_id j ≡ false → get s'.team.tasks j ≡ get s.team.tasks j)
      × ((k : String) (c : Clarification)
          → get s.team.clarifications k ≡ some c
          → get s'.team.clarifications k ≡ (if str_eq c.task_id task_id then none else some c))
      × All (λ x. option_eq x.task_id task_id ≡ false) s'.messages
      × All (IsFree task_id) (values s'.runs)
unfolding delete_task_cascade delete_task
delete_task_cascade_lem isolated now task_id s m t there keyed =
    let about = is_question_of_task task_id in
    let clarifications = s.team.clarifications in
    rw (there, delete_task_cascade)
      (
        rw (get-remove s.team.tasks task_id task_id) (rw (eq_refl task_id) refl),
        (λ j other. rw (get-remove s.team.tasks task_id j) (rw other refl)),
        (λ k c h. elim (Bool-cases (str_eq c.task_id task_id)) [
          | inl yes_about ↦ rw yes_about (
              get-purge_gone (λ (x : Clarification). x.id) about clarifications keyed k c h
                yes_about)
          | inr other ↦
              rw other (
                get-purge_kept (λ (x : Clarification). x.id) about clarifications keyed k c h other)
        ]),
        kept_messages task_id s.messages,
        map_values-All (IsFree task_id) (forget_task now task_id) s.runs
            (forget_task-IsFree now task_id),
      )
