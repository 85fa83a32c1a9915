-- ===== src/Dispatch/Rounds.antt =====
-- The rounds of the loop that assigns waiting tasks: what one may pick.
use teamclaw.Prelude.{
  some_inj, none-some, All-lookup, ℕ, suc, ◌*◌, ◌≤◌, ◌<◌, String, ◌≡◌, inl, inr, refl, ◌∙◌, sym, ap,
  Bool, true, false, not, Option, none, some, List, [], ◌∷◌, ◌++◌, arith, Bool-cases, Option-cases,
  Dict, values, map, length, count, find, head?, str_eq, eq_refl, In, first, later, All, All-head,
  All-map, All-filter_holds, All-append, All-if, find_lem, ◌<>◌, or_else, str_truthy, length-append,
}
use teamclaw.Team.{TaskInfo, WorkerInfo, TeamState}
use teamclaw.Assignment.{}
use teamclaw.Routing.{offers, route_task, RoleDefinition, awaits_worker}
use teamclaw.Routing.Choice.{route_task_lem}
use teamclaw.Dispatch.{
  Dispatcher, next_assignment, candidate_assignments, is_open_offer, holds, preferred_offer,
}

-- The keys of all pairs of a task and a worker.
abbrev pub with_each : String → List String → List String
with_each i [] = []
with_each i (j ∷ js) = (i <> ":" <> j) ∷ with_each i js

abbrev pub product : List String → List String → List String
product [] js = []
product (i ∷ is) js = with_each i js ++ product is js

abbrev pub task_ids : TeamState → List String
task_ids s = map (λ (t : TaskInfo). t.id) (values s.tasks)

abbrev pub worker_ids : TeamState → List String
worker_ids s = map (λ (w : WorkerInfo). w.id) (values s.workers)

length-with_each : (i : String) (js : List String) → length (with_each i js) ≡ length js
length-with_each i [] = refl
length-with_each i (j ∷ js) = ap suc (length-with_each i js)

pub length-product : (is js : List String) → length (product is js) ≡ length is * length js
length-product [] js = omega arith
length-product (i ∷ is) js = grind (
  arith,
  length-append (with_each i js) (product is js),
  length-with_each i js,
  length-product is js,
)

-- The keys that were not attempted.
abbrev pub left_over : List String → List String → ℕ
left_over attempted keys = count (λ k. not (holds attempted k)) keys

pub left_over-le :
    (key : String) (attempted keys : List String)
    → left_over (key ∷ attempted) keys ≤ left_over attempted keys
left_over-le key attempted [] = omega arith
left_over-le key attempted (k ∷ keys) = ground (arith, left_over-le key attempted keys)

pub left_over-lt :
    (key : String) (attempted keys : List String)
    → In key keys
    → holds attempted key ≡ false
    → left_over (key ∷ attempted) keys < left_over attempted keys
left_over-lt key attempted [] i new = elim i [ ]
left_over-lt key attempted (_ ∷ keys) first new =
    ground (arith, left_over-le key attempted keys, eq_refl key)
left_over-lt key attempted (k ∷ keys) (later i) new =
    ground (arith, left_over-lt key attempted keys i new)

In-append_left {ℓ} : {A : Type ℓ} {x : A} (xs ys : List A) → In x xs → In x (xs ++ ys)
In-append_left [] ys i = elim i [ ]
In-append_left (_ ∷ xs) ys first = first
In-append_left (y ∷ xs) ys (later i) = later (In-append_left xs ys i)

In-append_right {ℓ} : {A : Type ℓ} {x : A} (xs ys : List A) → In x ys → In x (xs ++ ys)
In-append_right [] ys i = i
In-append_right (y ∷ xs) ys i = later (In-append_right xs ys i)

pub In-map {ℓ κ} :
    {A : Type ℓ} {B : Type κ} (f : A → B) (xs : List A) (x : A) → In x xs → In (f x) (map f xs)
In-map f [] x i = elim i [ ]
In-map f (_ ∷ xs) x first = first
In-map f (y ∷ xs) x (later i) = later (In-map f xs x i)

In-with_each : (i j : String) (js : List String) → In j js → In (i <> ":" <> j) (with_each i js)
In-with_each i j [] m = elim m [ ]
In-with_each i j (_ ∷ js) first = first
In-with_each i j (k ∷ js) (later m) = later (In-with_each i j js m)

pub In-product :
    (i j : String) (is js : List String) → In i is → In j js → In (i <> ":" <> j) (product is js)
In-product i j [] js m n = elim m [ ]
In-product i j (_ ∷ is) js first n =
    In-append_left (with_each i js) (product is js) (In-with_each i j js n)
In-product i j (k ∷ is) js (later m) n =
    In-append_right (with_each k js) (product is js) (In-product i j is js m n)

-- An offer pairs a listed task with a registered worker.
abbrev pub Pairs : List TaskInfo → Dict WorkerInfo → TaskInfo × WorkerInfo → Type 0
Pairs ts workers o = In o.0 ts × In o.1 (values workers)

route_task-In :
    (roles : List RoleDefinition) (t : TaskInfo) (workers : Dict WorkerInfo) (w : WorkerInfo)
    → route_task roles t workers ≡ some w
    → In w (values workers)
route_task-In roles t workers w e = elim (route_task_lem roles t workers) [
  | inl h ↦ absurd (cc)
  | inr h ↦ let same : h.0 ≡ w = some_inj (sym h.1 ∙ e) in rw same at h.2
]

offers-Pairs :
    (roles : List RoleDefinition) (ts : List TaskInfo) (workers : Dict WorkerInfo)
    → All (Pairs ts workers) (offers roles ts workers)
unfolding offers
offers-Pairs roles [] workers = tt
offers-Pairs roles (t ∷ ts) workers =
    All-append (Pairs (t ∷ ts) workers) _ _
      (All-if (Pairs (t ∷ ts) workers) (awaits_worker workers t) _ (λ on.
        elim (Option-cases (route_task roles t workers)) [
          | inl gone ↦ rw gone tt
          | inr (w, here) ↦ rw here ((first, route_task-In roles t workers w here), tt)
        ]))
      (All-map (Pairs ts workers) (Pairs (t ∷ ts) workers) _ (λ o h. (later h.0, h.1))
        (offers-Pairs roles ts workers))

find-All {ℓ} :
    {A : Type ℓ} (P : A → Type 0) (p : A → Bool) (xs : List A) (x : A)
    → All P xs
    → find p xs ≡ some x
    → P x
find-All P p xs x h e = elim (find_lem p xs) [
  | inl gone ↦ absurd (none-some (sym gone.0 ∙ e))
  | inr hit ↦
      let same : hit.0 ≡ x = some_inj (sym hit.1 ∙ e) in rw same at (All-lookup P xs hit.0 h hit.2)
]

preferred-All :
    (P : TaskInfo × WorkerInfo → Type 0) (preferred : Option String)
    (os : List (TaskInfo × WorkerInfo)) (o : TaskInfo × WorkerInfo)
    → All P os
    → or_else (preferred_offer preferred os) (head? os) ≡ some o
    → P o
preferred-All P none os o h e = All-head P os o h e
preferred-All P (some worker_id) os o h e = elim (Bool-cases (str_truthy worker_id)) [
  | inr blank ↦ All-head P os o h (rw blank at e)
  | inl given ↦
      let e' = rw given at e in
      elim (Option-cases (find (λ (q : TaskInfo × WorkerInfo). str_eq q.1.id worker_id) os)) [
        | inl gone ↦ All-head P os o h (rw gone at e')
        | inr (q, here) ↦
            let same : q ≡ o = some_inj (rw here at e') in
            rw same at
              (find-All P (λ (q : TaskInfo × WorkerInfo). str_eq q.1.id worker_id) os q h here)
      ]
]

-- What the loop picks is a listed task with a registered worker, not attempted, on a free checkout.
pub next_assignment_lem :
    (d : Dispatcher) (attempted : List String) (s : TeamState) (o : TaskInfo × WorkerInfo)
    → next_assignment d attempted s ≡ some o
    → Pairs (values s.tasks) s.workers o × (is_open_offer s attempted o ≡ true)
unfolding next_assignment
next_assignment_lem d attempted s o e =
    preferred-All (λ o. Pairs (values s.tasks) s.workers o × (is_open_offer s attempted o ≡ true))
      d.preferred_worker_id (candidate_assignments d attempted s) o
      (All-filter_holds (Pairs (values s.tasks) s.workers) (is_open_offer s attempted)
        (offers d.roles (values s.tasks) s.workers)
        (offers-Pairs d.roles (values s.tasks) s.workers))
      e
