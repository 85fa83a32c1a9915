-- ===== src/Messages/Router.antt =====
-- Who receives a message, and what.
use teamclaw.Prelude.{
  ℕ, suc, String, true, false, ◌&&◌, not, ◌≡◌, ◌⊎◌, inl, inr, refl, ap, none, some, List, [], ◌∷◌,
  map, filter, any, In, All, find_lem, Dict, values, text_truthy, str_eq, Bool-cases,
}
use teamclaw.Team.{WorkerInfo, TeamMessage, is_offline}
use teamclaw.Assignment.{option_eq}
use teamclaw.Messages.{
  route_direct_message, route_broadcast, copies, addressed, or_text, takes_direct, takes_broadcast,
}

-- A direct message goes to no one when it names no role or no worker in that role is online; else it goes to a registered worker that is online and has the role, with the worker's id
-- as the receiver and its content, sender and role unchanged.
pub route_direct_message_lem :
    (id : String) (now : ℕ) (m : TeamMessage) (workers : Dict WorkerInfo)
    → let to_role = m.to_role in
      let online_in_role = any (takes_direct to_role) (values workers) in
      ((route_direct_message id now m workers ≡ none)
        × (text_truthy to_role && online_in_role ≡ false))
      ⊎ ((w : WorkerInfo) × (copy : TeamMessage) × (route_direct_message id now m workers
            ≡ some (w, copy))
          × In w (values workers)
          × (option_eq to_role w.role && not (is_offline w.status) ≡ true)
          × (copy.to ≡ some w.id)
          × (copy.content ≡ m.content)
          × (copy.from ≡ m.from)
          × (copy.to_role ≡ to_role))
unfolding route_direct_message
route_direct_message_lem id now m workers = elim (Bool-cases (text_truthy m.to_role)) [
  | inr no_role ↦ inl (rw no_role refl, rw no_role refl)
  | inl role ↦ elim (find_lem (takes_direct m.to_role) (values workers)) [
    | inl h ↦ inl (rw role (rw h.0 refl), rw role (rw h.1 refl))
    | inr h ↦ inr (
      h.0,
      addressed (or_text m.id id) now m h.0,
      rw role (rw h.1 refl),
      h.2,
      h.3,
      refl,
      refl,
      refl,
      refl,
    )
  ]
]

receivers-copies :
    (ids : ℕ → String) (now : ℕ) (m : TeamMessage) (n : ℕ) (ws : List WorkerInfo)
    → map (λ (r : WorkerInfo × TeamMessage). r.0) (copies ids now m n ws) ≡ ws
unfolding copies
receivers-copies ids now m n [] = refl
receivers-copies ids now m n (w ∷ ws) = ap (λ l. w ∷ l) (receivers-copies ids now m (suc n) ws)

-- A copy as its receiver gets it.
abbrev pub IsCopy : TeamMessage → WorkerInfo × TeamMessage → Type 0
IsCopy m r =
    (r.1.to ≡ some r.0.id) × (r.1.content ≡ m.content) × (r.1.from ≡ m.from) × (r.1.type ≡ m.type)

copies-IsCopy :
    (ids : ℕ → String) (now : ℕ) (m : TeamMessage) (n : ℕ) (ws : List WorkerInfo)
    → All (IsCopy m) (copies ids now m n ws)
unfolding copies
copies-IsCopy ids now m n [] = tt
copies-IsCopy ids now m n (w ∷ ws) = ((refl, refl, refl, refl), copies-IsCopy ids now m (suc n) ws)

-- A broadcast reaches each registered worker that is online and is not the sender, once and in the
-- order of registration, and no one else; each copy names its receiver and keeps the content, the
-- sender and the type.
pub route_broadcast_lem :
    (ids : ℕ → String) (now : ℕ) (m : TeamMessage) (workers : Dict WorkerInfo)
    → (map (λ (r : WorkerInfo × TeamMessage). r.0) (route_broadcast ids now m workers)
        ≡ filter (λ w. not (is_offline w.status) && not (str_eq w.id m.from)) (values workers))
      × All (IsCopy m) (route_broadcast ids now m workers)
unfolding route_broadcast
route_broadcast_lem ids now m workers =
    let to = filter (takes_broadcast m.from) (values workers) in
    (receivers-copies ids now m 0 to, copies-IsCopy ids now m 0 to)
