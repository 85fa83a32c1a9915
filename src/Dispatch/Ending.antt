-- ===== src/Dispatch/Ending.antt =====
-- The loop that assigns waiting tasks ends.
use teamclaw.Prelude.{
  ℕ, zero, suc, ◌+◌, ◌*◌, ◌<◌, String, ◌≡◌, inl, inr, refl, ◌∙◌, ap, true, false, ◌&&◌, not, Option,
  none, some, List, [], ◌∷◌, arith, Bool-cases, Option-cases, Dict, values, alter, map, length,
  str_eq, In, is_some, length-filter-le, get,
}
use teamclaw.Team.{TaskInfo, WorkerInfo, TeamState, WorkerStatus, EventInput}
use teamclaw.Execution.{append_event, reset_for_fresh_attempt}
use teamclaw.Assignment.{
  assign_task, revert_assignment, record_event, with_task, with_worker, can_assign, reverted_task,
  reverted_worker, assigned_task,
}
use teamclaw.Dispatch.{
  Dispatcher, auto_assign, next_assignment, pair_key, holds, assign_to_worker, after_dispatch,
  is_full, success_event, failure_event,
}
use teamclaw.Team.{is_idle}
use teamclaw.Dispatch.Rounds.{
  product, task_ids, worker_ids, length-product, left_over, left_over-lt, In-map, In-product,
  next_assignment_lem,
}

abbrev SameIds : TeamState → TeamState → Type 0
SameIds s s' = (task_ids s' ≡ task_ids s) × (worker_ids s' ≡ worker_ids s)

map-alter {ℓ} :
    {V : Type ℓ} (g : V → String) (d : Dict V) (k : String) (f : V → V)
    → ((v : V) → g (f v) ≡ g v)
    → map g (values (alter d k f)) ≡ map g (values d)
unfolding alter
map-alter g [] k f h = refl
map-alter g ((j, v) ∷ d) k f h = elim (Bool-cases (str_eq j k)) [
  | inl hit ↦ rw (hit, h v) refl
  | inr miss ↦ rw (miss, map-alter g d k f h) refl
]

with_task-SameIds :
    (k : String) (f : TaskInfo → TaskInfo) (s : TeamState)
    → ((t : TaskInfo) → (f t).id ≡ t.id)
    → SameIds s (with_task k f s)
with_task-SameIds k f s h = (map-alter (λ (t : TaskInfo). t.id) s.tasks k f h, refl)

with_worker-SameIds :
    (k : String) (f : WorkerInfo → WorkerInfo) (s : TeamState)
    → ((w : WorkerInfo) → (f w).id ≡ w.id)
    → SameIds s (with_worker k f s)
with_worker-SameIds k f s h = (refl, map-alter (λ (w : WorkerInfo). w.id) s.workers k f h)

assign_task-SameIds :
    (now : ℕ) (task_id worker_id : String) (role : Option String) (s : TeamState)
    → SameIds s (assign_task now task_id worker_id role s).0
unfolding assign_task reset_for_fresh_attempt
assign_task-SameIds now task_id worker_id role s = elim (Option-cases (get s.tasks task_id)) [
  | inl gone ↦ rw (gone, assign_task) (refl, refl)
  | inr (t, here) ↦ elim (Option-cases (get s.workers worker_id)) [
    | inl away ↦ rw (here, away, assign_task) (refl, refl)
    | inr (w, there) ↦ elim (Bool-cases (is_idle w.status && can_assign t worker_id)) [
      | inr stop ↦ rw (here, there, stop, assign_task) (refl, refl)
      | inl go ↦
          rw (here, there, go, assign_task)
            (
              (with_task-SameIds task_id (assigned_task now worker_id role) s (λ t. refl)).0,
              (with_worker-SameIds worker_id
                  (λ w. record w { status = WorkerStatus.busy; current_task_id = some task_id }) s
                  (λ w. refl)).1,
            )
    ]
  ]
]

record_event-SameIds :
    (event_id : String) (now : ℕ) (task_id : String) (i : EventInput) (s : TeamState)
    → SameIds s (record_event event_id now task_id i s)
unfolding record_event append_event
record_event-SameIds event_id now task_id i s =
    with_task-SameIds task_id (λ t. (append_event event_id now t i).0) s (λ t. refl)

reverted_task-id :
    (event_id : String) (now : ℕ) (worker_id : String) (t : TaskInfo)
    → (reverted_task event_id now worker_id t).id ≡ t.id
unfolding append_event
reverted_task-id event_id now worker_id t = ground arith

reverted_worker-id : (task_id : String) (w : WorkerInfo) → (reverted_worker task_id w).id ≡ w.id
reverted_worker-id task_id w = ground arith

revert_assignment-SameIds :
    (event_id : String) (now : ℕ) (task_id worker_id : String) (s : TeamState)
    → SameIds s (revert_assignment event_id now task_id worker_id s)
unfolding revert_assignment
revert_assignment-SameIds event_id now task_id worker_id s =
    elim (Option-cases (get s.tasks task_id)) [
      | inl gone ↦ rw (gone, revert_assignment) (refl, refl)
      | inr (t, here) ↦
          rw (here, revert_assignment)
            (
              (with_task-SameIds task_id (reverted_task event_id now worker_id) s
                  (reverted_task-id event_id now worker_id)).0,
              (with_worker-SameIds worker_id (reverted_worker task_id) s
                  (reverted_worker-id task_id)).1,
            )
    ]

SameIds-trans : (s s' s'' : TeamState) → SameIds s s' → SameIds s' s'' → SameIds s s''
SameIds-trans s s' s'' h k = (k.0 ∙ h.0, k.1 ∙ h.1)

after_dispatch-SameIds :
    (d : Dispatcher) (k : ℕ) (t : TaskInfo) (w : WorkerInfo) (error : Option String) (s : TeamState)
    → SameIds s (after_dispatch d k t w error s)
after_dispatch-SameIds d k t w none s =
    record_event-SameIds (d.event_id k) d.now t.id (success_event t w) s
after_dispatch-SameIds d k t w (some error) s =
    let mid = record_event (d.event_id k) d.now t.id (failure_event t w error) s in
    SameIds-trans s mid (revert_assignment (d.event_id k) d.now t.id w.id mid)
      (record_event-SameIds (d.event_id k) d.now t.id (failure_event t w error) s)
      (revert_assignment-SameIds (d.event_id k) d.now t.id w.id mid)

assign_to_worker-SameIds :
    (d : Dispatcher) (k : ℕ) (t : TaskInfo) (w : WorkerInfo) (s : TeamState)
    → SameIds s (assign_to_worker d k t w s)
unfolding assign_to_worker
assign_to_worker-SameIds d k t w s =
    let one = assign_task-SameIds d.now t.id w.id t.assigned_role s in
    elim (Bool-cases (assign_task d.now t.id w.id t.assigned_role s).1) [
      | inl applied ↦
          rw (applied, assign_to_worker)
            (SameIds-trans s (assign_task d.now t.id w.id t.assigned_role s).0
              (after_dispatch d k t w (d.dispatch_error k)
                (assign_task d.now t.id w.id t.assigned_role s).0)
              one
              (after_dispatch-SameIds d k t w (d.dispatch_error k)
                (assign_task d.now t.id w.id t.assigned_role s).0))
      | inr refused ↦ rw (refused, assign_to_worker) one
    ]

abbrev pairs : TeamState → List String
pairs s = product (task_ids s) (worker_ids s)

auto_assign_within :
    (fuel : ℕ) (d : Dispatcher) (k : ℕ) (attempted : List String) (s : TeamState)
    → left_over attempted (pairs s) < fuel
    → is_some (auto_assign fuel d k attempted s) ≡ true
unfolding auto_assign
auto_assign_within zero d k attempted s h = absurd (omega (arith, h))
auto_assign_within (suc fuel) d k attempted s h = elim (Bool-cases (is_full d s)) [
  | inl full ↦ rw (full, auto_assign) refl
  | inr room ↦ elim (Option-cases (next_assignment d attempted s)) [
    | inl done ↦ rw (room, done, auto_assign) refl
    | inr ((t, w), pick) ↦
        let (pair, is_open) = next_assignment_lem d attempted s (t, w) pick in
        let new : holds attempted (pair_key (t, w)) ≡ false = ground (arith, is_open) in
        let s' = assign_to_worker d k t w s in
        let same : pairs (assign_to_worker d k t w s) ≡ pairs s =
          (let ids = assign_to_worker-SameIds d k t w s in rw (ids.0, ids.1) refl) in
        let key_in : In (pair_key (t, w)) (pairs s) =
          In-product t.id w.id (task_ids s) (worker_ids s)
            (In-map (λ (t : TaskInfo). t.id) (values s.tasks) t pair.0)
            (In-map (λ (w : WorkerInfo). w.id) (values s.workers) w pair.1) in
        let less = left_over-lt (pair_key (t, w)) attempted (pairs s) key_in new in
        rw (room, pick, auto_assign)
          (auto_assign_within fuel d (k + 1) (pair_key (t, w) ∷ attempted)
            (assign_to_worker d k t w s) (rw same (omega (arith, less, h))))
  ]
]

length-map-values {ℓ} :
    {V : Type ℓ} (f : V → String) (d : Dict V) → length (map f (values d)) ≡ length d
length-map-values f [] = refl
length-map-values f ((k, v) ∷ d) = ap suc (length-map-values f d)

length-task_ids : (s : TeamState) → length (task_ids s) ≡ length s.tasks
length-task_ids s = length-map-values (λ (t : TaskInfo). t.id) s.tasks

length-worker_ids : (s : TeamState) → length (worker_ids s) ≡ length s.workers
length-worker_ids s = length-map-values (λ (w : WorkerInfo). w.id) s.workers

product_size : (s : TeamState) → length (pairs s) ≡ length s.tasks * length s.workers
product_size s =
    rw (length-product (task_ids s) (worker_ids s), length-task_ids s, length-worker_ids s) refl

-- The loop that assigns waiting tasks always ends: at most one round for each pair of a task and a
-- worker, and one more, whatever dispatches fail.
pub auto_assign_ends :
    (fuel : ℕ) (d : Dispatcher) (s : TeamState)
    → length s.tasks * length s.workers < fuel
    → is_some (auto_assign fuel d 0 [] s) ≡ true
auto_assign_ends fuel d s h =
    auto_assign_within fuel d 0 [] s
      (omega (arith, h, length-filter-le (λ k. not (holds [] k)) (pairs s), product_size s))
