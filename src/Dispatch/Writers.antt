-- ===== src/Dispatch/Writers.antt =====
-- At most one active write task per checkout, while waiting tasks are assigned.
use teamclaw.Prelude.{
  some_inj, none-some, ℕ, zero, suc, ◌+◌, String, ◌≡◌, refl, false, ◌&&◌, Option, none, some, List,
  [], ◌∷◌, arith, Bool-cases, Option-cases, get, inl, inr,
}
use teamclaw.Team.{TaskInfo, WorkerInfo, TeamState, EventInput, is_idle}
use teamclaw.Execution.{append_event, reset_for_fresh_attempt, starts_run}
use teamclaw.Assignment.{
  assign_task, revert_assignment, record_event, with_task, can_assign, reverted_task, assigned_task,
}
use teamclaw.Dispatch.{
  Dispatcher, auto_assign, next_assignment, pair_key, assign_to_worker, after_dispatch, is_full,
  is_root_busy, task_write_root, success_event, failure_event,
}
use teamclaw.Dispatch.Rounds.{next_assignment_lem}
use teamclaw.Dispatch.Exclusion.{
  IsKeyed, OneWriter, IsQuiet, get_listed, alter-IsKeyed, alter-OneWriter, reverted_task-id,
  reverted-IsQuiet, event-IsQuiet, assigned_one,
}

abbrev IsOrderly : TeamState → Type 0
IsOrderly s = OneWriter s.tasks × IsKeyed s.tasks

quiet-IsOrderly :
    (k : String) (f : TaskInfo → TaskInfo) (s : TeamState)
    → IsQuiet f
    → ((t : TaskInfo) → (f t).id ≡ t.id)
    → IsOrderly s
    → IsOrderly (with_task k f s)
quiet-IsOrderly k f s quiet ids h =
    (alter-OneWriter s.tasks k f quiet h.0, alter-IsKeyed s.tasks k f ids h.1)

record_event-IsOrderly :
    (event_id : String) (now : ℕ) (task_id : String) (i : EventInput) (s : TeamState)
    → starts_run i ≡ false
    → IsOrderly s
    → IsOrderly (record_event event_id now task_id i s)
unfolding record_event append_event
record_event-IsOrderly event_id now task_id i s calm h =
    quiet-IsOrderly task_id (λ t. (append_event event_id now t i).0) s
      (event-IsQuiet event_id now i calm) (λ t. refl) h

revert_assignment-IsOrderly :
    (event_id : String) (now : ℕ) (task_id worker_id : String) (s : TeamState)
    → IsOrderly s
    → IsOrderly (revert_assignment event_id now task_id worker_id s)
unfolding revert_assignment
revert_assignment-IsOrderly event_id now task_id worker_id s h =
    elim (Option-cases (get s.tasks task_id)) [
      | inl gone ↦ rw (gone, revert_assignment) h
      | inr (t, here) ↦
          rw (here, revert_assignment)
            (quiet-IsOrderly task_id (reverted_task event_id now worker_id) s
              (reverted-IsQuiet event_id now worker_id) (reverted_task-id event_id now worker_id) h)
    ]

assign_task-IsOrderly :
    (now : ℕ) (t : TaskInfo) (worker_id : String) (role : Option String) (s : TeamState)
    → get s.tasks t.id ≡ some t
    → is_root_busy s (task_write_root t) ≡ false
    → IsOrderly s
    → IsOrderly (assign_task now t.id worker_id role s).0
unfolding assign_task reset_for_fresh_attempt
assign_task-IsOrderly now t worker_id role s here idle h =
    elim (Option-cases (get s.workers worker_id)) [
      | inl away ↦ rw (here, away, assign_task) h
      | inr (w, there) ↦ elim (Bool-cases (is_idle w.status && can_assign t worker_id)) [
        | inr stop ↦ rw (here, there, stop, assign_task) h
        | inl go ↦
            rw (here, there, go, assign_task)
              (
                assigned_one s.tasks t.id (assigned_task now worker_id role) t here refl idle h.0,
                alter-IsKeyed s.tasks t.id (assigned_task now worker_id role) (λ u. refl) h.1,
              )
      ]
    ]

after_dispatch-IsOrderly :
    (d : Dispatcher) (k : ℕ) (t : TaskInfo) (w : WorkerInfo) (error : Option String) (s : TeamState)
    → IsOrderly s
    → IsOrderly (after_dispatch d k t w error s)
after_dispatch-IsOrderly d k t w none s h =
    record_event-IsOrderly (d.event_id k) d.now t.id (success_event t w) s refl h
after_dispatch-IsOrderly d k t w (some error) s h =
    let mid = record_event (d.event_id k) d.now t.id (failure_event t w error) s in
    revert_assignment-IsOrderly (d.event_id k) d.now t.id w.id mid
      (record_event-IsOrderly (d.event_id k) d.now t.id (failure_event t w error) s refl h)

assign_to_worker-IsOrderly :
    (d : Dispatcher) (k : ℕ) (t : TaskInfo) (w : WorkerInfo) (s : TeamState)
    → get s.tasks t.id ≡ some t
    → is_root_busy s (task_write_root t) ≡ false
    → IsOrderly s
    → IsOrderly (assign_to_worker d k t w s)
unfolding assign_to_worker
assign_to_worker-IsOrderly d k t w s here idle h =
    let one = assign_task-IsOrderly d.now t w.id t.assigned_role s here idle h in
    elim (Bool-cases (assign_task d.now t.id w.id t.assigned_role s).1) [
      | inl applied ↦
          rw (applied, assign_to_worker)
            (after_dispatch-IsOrderly d k t w (d.dispatch_error k)
              (assign_task d.now t.id w.id t.assigned_role s).0 one)
      | inr refused ↦ rw (refused, assign_to_worker) one
    ]

auto_assign-IsOrderly :
    (fuel : ℕ) (d : Dispatcher) (k : ℕ) (attempted : List String) (s s' : TeamState)
    → IsOrderly s
    → auto_assign fuel d k attempted s ≡ some s'
    → IsOrderly s'
unfolding auto_assign
auto_assign-IsOrderly zero d k attempted s s' h e = absurd (none-some e)
auto_assign-IsOrderly (suc fuel) d k attempted s s' h e = elim (Bool-cases (is_full d s)) [
  | inl full ↦ let same : s ≡ s' = some_inj (rw (full, auto_assign) at e) in rw same at h
  | inr room ↦ elim (Option-cases (next_assignment d attempted s)) [
    | inl done ↦ let same : s ≡ s' = some_inj (rw (room, done, auto_assign) at e) in rw same at h
    | inr ((t, w), pick) ↦
        let (pair, is_open) = next_assignment_lem d attempted s (t, w) pick in
        let idle : is_root_busy s (task_write_root t) ≡ false = ground (arith, is_open) in
        let next = assign_to_worker-IsOrderly d k t w s (get_listed s.tasks t h.1 pair.0) idle h in
        auto_assign-IsOrderly fuel d (k + 1) (pair_key (t, w) ∷ attempted)
          (assign_to_worker d k t w s) s' next (rw (room, pick, auto_assign) at e)
  ]
]

-- Assigning the waiting tasks keeps the rule of one writer per checkout: when no two tasks at work
-- may write to one checkout before, and tasks stand under their identifiers, then no two do so
-- after, whatever workers are offered and whatever dispatches fail.
pub auto_assign-OneWriter :
    (fuel : ℕ) (d : Dispatcher) (s s' : TeamState)
    → IsKeyed s.tasks
    → OneWriter s.tasks
    → auto_assign fuel d 0 [] s ≡ some s'
    → OneWriter s'.tasks
auto_assign-OneWriter fuel d s s' keyed one e =
    (auto_assign-IsOrderly fuel d 0 [] s s' (one, keyed) e).0
