-- ===== src/Routing.antt =====
-- Choosing a worker for a task: src/src/controller/task-router.ts, and the role of a task:
-- src/src/controller/role-inference.ts. The table of roles of src/src/roles.ts is an argument.
pub mod Choice
use teamclaw.Prelude.{
  ℕ, zero, suc, ◌+◌, String, Bool, true, false, ◌&&◌, ◌||◌, not, Option, none, some, List, [], ◌∷◌,
  ◌++◌, ltb, leb, if◌then◌else◌, length, filter, find, any, count, head?, map, Dict, get, values,
  is_some, text_truthy, str_truthy, str_eq, Text, codes, text_eq, lower, includes, ◌<>◌,
}
use teamclaw.Team.{WorkerInfo, TaskInfo, is_idle, is_pending, is_assigned}
use teamclaw.Assignment.{option_eq}

-- The fields of `RoleDefinition` that the routing reads.
pub record RoleDefinition : Type 0 where
  pub id : String
  pub label : String
  pub capabilities : List String

abbrev is_alphanumeric : ℕ → Bool
is_alphanumeric c = leb b'0' c && leb c b'9' || leb b'a' c && leb c b'z'

-- s.split(/[^a-z0-9]+/), for the tokens that are not empty.
tokens_from : Text → Text → List Text
tokens_from [] cur = if text_eq cur [] then [] else cur ∷ []
tokens_from (c ∷ s) cur =
    let next = tokens_from s (if is_alphanumeric c then cur ++ c ∷ [] else []) in
    if not (is_alphanumeric c) && not (text_eq cur []) then cur ∷ next else next

unfoldable pub tokens : Text → List Text
unfolding tokens_from
tokens s = tokens_from (lower s) []

abbrev common_words : List String
common_words =
    "the" ∷ "a" ∷ "an" ∷ "and" ∷ "or" ∷ "but" ∷ "in" ∷ "on" ∷ "at" ∷ "to" ∷ "for" ∷ "of" ∷ "with"
    ∷ "by" ∷ "is" ∷ "are" ∷ "was" ∷ "were" ∷ "be" ∷ "been" ∷ "being" ∷ "have" ∷ "has" ∷ "had" ∷ "do"
    ∷ "does" ∷ "did" ∷ "will" ∷ "would" ∷ "could" ∷ "should" ∷ "may" ∷ "might" ∷ "must" ∷ "shall"
    ∷ "can" ∷ "this" ∷ "that" ∷ "these" ∷ "those" ∷ "it" ∷ "its" ∷ "we" ∷ "our" ∷ "you" ∷ "your"
    ∷ "they" ∷ "their" ∷ "create" ∷ "implement" ∷ "build" ∷ "make" ∷ "add" ∷ "update" ∷ "fix" ∷ []

-- `extractKeywords`
unfoldable pub extract_keywords : Text → List Text
unfolding tokens
extract_keywords text =
    filter (λ w. ltb 2 (length w) && not (any (λ c. text_eq w (codes c)) common_words))
      (tokens text)

-- `getRole(id)?.capabilities ?? []`
abbrev capabilities_of : List RoleDefinition → String → List String
capabilities_of roles id = elim (find (λ (r : RoleDefinition). str_eq r.id id) roles) [
  | none ↦ []
  | some r ↦ r.capabilities
]

unfoldable pub match_score : List RoleDefinition → List Text → WorkerInfo → ℕ
match_score roles keywords w =
    count
      (λ k. any (λ c. includes (codes c) k || includes k (codes c)) (capabilities_of roles w.role))
      keywords

-- scored.sort((a, b) => b.score - a.score), which is stable.
abbrev pub insert_scored : WorkerInfo × ℕ → List (WorkerInfo × ℕ) → List (WorkerInfo × ℕ)
insert_scored e [] = e ∷ []
insert_scored e (f ∷ es) =
    let rest = insert_scored e es in if leb f.1 e.1 then e ∷ f ∷ es else f ∷ rest

abbrev pub by_score : List (WorkerInfo × ℕ) → List (WorkerInfo × ℕ)
by_score [] = []
by_score (e ∷ es) = insert_scored e (by_score es)

abbrev pub idle_workers : Dict WorkerInfo → List WorkerInfo
idle_workers workers = filter (λ w. is_idle w.status) (values workers)

-- The idle workers with a positive score, best first.
unfoldable pub scored : List RoleDefinition → TaskInfo → Dict WorkerInfo → List (WorkerInfo × ℕ)
unfolding extract_keywords match_score
scored roles t workers =
    let keywords = extract_keywords (codes (t.description <> " " <> t.title)) in
    by_score (
      filter (λ (e : WorkerInfo × ℕ). ltb 0 e.1)
        (map (λ w. (w, match_score roles keywords w)) (idle_workers workers)))

abbrev pub idle_in_role : Option String → WorkerInfo → Bool
idle_in_role role w = option_eq role w.role && is_idle w.status

-- `routeTask`
unfoldable pub route_task : List RoleDefinition → TaskInfo → Dict WorkerInfo → Option WorkerInfo
unfolding scored
route_task roles t workers =
    if text_truthy t.assigned_role
    then head? (filter (idle_in_role t.assigned_role) (values workers))
    else elim (head? (scored roles t workers)) [
      | some (w, score) ↦ some w
      | none ↦ find (λ w. is_idle w.status) (values workers)
    ]

-- The task is waiting and has no worker that is registered.
abbrev pub awaits_worker : Dict WorkerInfo → TaskInfo → Bool
awaits_worker workers t =
    (is_pending t.status || is_assigned t.status)
    && not (elim t.assigned_worker_id [
      | none ↦ false
      | some worker_id ↦ str_truthy worker_id && is_some (get workers worker_id)
    ])

abbrev offer : TaskInfo → Option WorkerInfo → List (TaskInfo × WorkerInfo)
offer t none = []
offer t (some w) = (t, w) ∷ []

-- `autoAssignPendingTasks` of the router.
unfoldable pub offers :
    List RoleDefinition → List TaskInfo → Dict WorkerInfo → List (TaskInfo × WorkerInfo)
unfolding route_task
offers roles [] workers = []
offers roles (t ∷ ts) workers =
    (if awaits_worker workers t then offer t (route_task roles t workers) else [])
    ++ offers roles ts workers

-- `inferTaskRole`: how many of the tokens of a role, each counted once, the text holds.
abbrev distinct : List Text → List Text
distinct [] = []
distinct (x ∷ xs) = let rest = distinct xs in if any (λ y. text_eq x y) rest then rest else x ∷ rest

abbrev all_tokens : List String → List Text
all_tokens [] = []
all_tokens (s ∷ ss) = filter (λ w. ltb 2 (length w)) (tokens (codes s)) ++ all_tokens ss

abbrev pub role_score : Text → RoleDefinition → ℕ
role_score text r =
    count (λ token. includes text token) (distinct (all_tokens (r.id ∷ r.label ∷ r.capabilities)))

abbrev best_role : Text → List RoleDefinition → Option String → ℕ → Option String × ℕ
best_role text [] best score = (best, score)
best_role text (r ∷ roles) best score =
    let won = ltb score (role_score text r) in
    best_role text roles (if won then some r.id else best)
      (if won then role_score text r else score)

unfoldable pub infer_task_role : List RoleDefinition → TaskInfo → Option String
infer_task_role roles t =
    if text_truthy t.assigned_role
    then t.assigned_role
    else (best_role (lower (codes (t.title <> " " <> t.description))) roles none 0).0
