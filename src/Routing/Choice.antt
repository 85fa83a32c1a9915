-- ===== src/Routing/Choice.antt =====
-- Which worker a task gets.
use teamclaw.Prelude.{
  ℕ, ◌≡◌, ◌⊎◌, inl, inr, refl, ◌∙◌, Bool, true, false, ◌&&◌, ◌||◌, not, none, some, List, [], ◌∷◌,
  arith, any_ext, Bool-cases, Option-cases, Dict, values, text_truthy, head?, find, any, ltb, leb,
  map, All, All-In, All-head, All-filter_holds, All-filter, head?-filter, find_lem, In, codes, ◌<>◌,
}
use teamclaw.Team.{WorkerInfo, TaskInfo, is_idle}
use teamclaw.Assignment.{option_eq}
use teamclaw.Routing.{
  RoleDefinition, route_task, scored, insert_scored, by_score, idle_in_role, match_score,
  extract_keywords,
}

-- The worker is idle, and has the role that the task asks for, if it asks for one.
abbrev pub suits : TaskInfo → WorkerInfo → Bool
suits t w =
    is_idle w.status && (not (text_truthy t.assigned_role) || option_eq t.assigned_role w.role)

module _ (P : WorkerInfo × ℕ → Type 0) where
  insert-All :
      (e : WorkerInfo × ℕ) (es : List (WorkerInfo × ℕ))
      → P e
      → All P es
      → All P (insert_scored e es)
  insert-All e [] p h = (p, tt)
  insert-All e (f ∷ es) p h = elim (Bool-cases (leb f.1 e.1)) [
    | inl less ↦ rw less (p, h)
    | inr more ↦ rw more (h.0, insert-All e es p h.1)
  ]

  by_score-All : (es : List (WorkerInfo × ℕ)) → All P es → All P (by_score es)
  by_score-All [] h = tt
  by_score-All (e ∷ es) h = insert-All e (by_score es) h.0 (by_score-All es h.1)

abbrev IdleIn : Dict WorkerInfo → WorkerInfo × ℕ → Type 0
IdleIn workers e = In e.0 (values workers) × (is_idle e.0.status ≡ true)

map-IdleIn :
    (workers : Dict WorkerInfo) (f : WorkerInfo → ℕ) (ws : List WorkerInfo)
    → All (λ w. In w (values workers) × (is_idle w.status ≡ true)) ws
    → All (IdleIn workers) (map (λ w. (w, f w)) ws)
map-IdleIn workers f [] h = tt
map-IdleIn workers f (w ∷ ws) h = (h.0, map-IdleIn workers f ws h.1)

scored-IdleIn :
    (roles : List RoleDefinition) (t : TaskInfo) (workers : Dict WorkerInfo)
    → All (IdleIn workers) (scored roles t workers)
unfolding scored
scored-IdleIn roles t workers = by_score-All (IdleIn workers) _ (
    All-filter (IdleIn workers) (λ (e : WorkerInfo × ℕ). ltb 0 e.1) _
      (map-IdleIn workers
        (match_score roles (extract_keywords (codes (t.description <> " " <> t.title)))) _
        (All-filter_holds (λ w. In w (values workers)) (λ w. is_idle w.status) (values workers)
          (All-In (values workers)))))

route_by_role :
    (roles : List RoleDefinition) (t : TaskInfo) (workers : Dict WorkerInfo)
    → text_truthy t.assigned_role ≡ true
    → route_task roles t workers ≡ find (idle_in_role t.assigned_role) (values workers)
unfolding route_task
route_by_role roles t workers asks =
    rw (asks, route_task) (head?-filter (idle_in_role t.assigned_role) (values workers))

suits_by_role :
    (t : TaskInfo) (w : WorkerInfo)
    → text_truthy t.assigned_role ≡ true
    → suits t w ≡ idle_in_role t.assigned_role w
suits_by_role t w asks = ground arith

suits_idle :
    (t : TaskInfo) (w : WorkerInfo)
    → text_truthy t.assigned_role ≡ false
    → suits t w ≡ is_idle w.status
suits_idle t w free = ground arith

route_scored :
    (roles : List RoleDefinition) (t : TaskInfo) (workers : Dict WorkerInfo) (e : WorkerInfo × ℕ)
    → text_truthy t.assigned_role ≡ false
    → head? (scored roles t workers) ≡ some e
    → route_task roles t workers ≡ some e.0
unfolding route_task
route_scored roles t workers e free here = rw (free, here, route_task) refl

route_any :
    (roles : List RoleDefinition) (t : TaskInfo) (workers : Dict WorkerInfo)
    → text_truthy t.assigned_role ≡ false
    → head? (scored roles t workers) ≡ none
    → route_task roles t workers ≡ find (λ w. is_idle w.status) (values workers)
unfolding route_task
route_any roles t workers free gone = rw (free, gone, route_task) refl

-- A task gets a registered worker that is idle and has the role that the task asks for, if it asks
-- for one; it gets none only when no worker is so.
pub route_task_lem :
    (roles : List RoleDefinition) (t : TaskInfo) (workers : Dict WorkerInfo)
    → ((route_task roles t workers ≡ none) × (any (suits t) (values workers) ≡ false))
      ⊎ ((w : WorkerInfo) × (route_task roles t workers ≡ some w)
          × In w (values workers)
          × (suits t w ≡ true))
route_task_lem roles t workers = elim (Bool-cases (text_truthy t.assigned_role)) [
  | inl asks ↦ elim (find_lem (idle_in_role t.assigned_role) (values workers)) [
    | inl h ↦ inl (
      route_by_role roles t workers asks ∙ h.0,
      any_ext (suits t) (idle_in_role t.assigned_role) (values workers)
            (λ w. suits_by_role t w asks)
          ∙ h.1,
    )
    | inr h ↦
        inr (h.0, route_by_role roles t workers asks ∙ h.1, h.2, suits_by_role t h.0 asks ∙ h.3)
  ]
  | inr free ↦ elim (Option-cases (head? (scored roles t workers))) [
    | inr (e, here) ↦
        let found =
          All-head (IdleIn workers) (scored roles t workers) e (scored-IdleIn roles t workers)
            here in
        inr
          (e.0, route_scored roles t workers e free here, found.0, suits_idle t e.0 free ∙ found.1)
    | inl gone ↦ elim (find_lem (λ w. is_idle w.status) (values workers)) [
      | inl h ↦ inl (
        route_any roles t workers free gone ∙ h.0,
        any_ext (suits t) (λ w. is_idle w.status) (values workers) (λ w. suits_idle t w free) ∙ h.1,
      )
      | inr h ↦
          inr (h.0, route_any roles t workers free gone ∙ h.1, h.2, suits_idle t h.0 free ∙ h.3)
    ]
  ]
]
