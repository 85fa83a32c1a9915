-- ===== src/Execution/Events.antt =====
-- The log of a task stays bounded and keeps the newest events.
use teamclaw.Prelude.{
  ℕ, ◌≤◌, ◌+◌, ◌-◌, String, ◌≡◌, refl, Option, none, some, List, [], ◌∷◌, ◌++◌, arith, length, drop,
  length-append, length-take_last, last?, last?-concat, drop-concat, ltb, Bool-cases, inl, inr,
}
use teamclaw.Team.{Event, EventInput, Execution, TaskInfo}
use teamclaw.Execution.{max_task_execution_events, push_event, ensure_task_execution, append_event}

abbrev pub events_of : Option Execution → List Event
events_of none = []
events_of (some e) = e.events

pub length-push_event :
    (es : List Event) (e : Event) → length (push_event es e) ≤ max_task_execution_events
unfolding push_event
length-push_event es e = ground (arith, length-take_last 250 (es ++ e ∷ []))

-- The log loses its oldest events only, as many as pass the limit, and ends with the new one.
pub push_event_keeps :
    (es : List Event) (e : Event)
    → push_event es e ≡ drop (length es + 1 - max_task_execution_events) es ++ e ∷ []
unfolding push_event
push_event_keeps es e = elim (Bool-cases (ltb 250 (length (es ++ e ∷ [])))) [
  | inl more ↦
      rw more
        (rw (length-append es (e ∷ [])) (drop-concat (length es + 1 - 250) es e (ground arith)))
  | inr fits ↦ rw fits (
      let none_lost : length es + 1 - 250 ≡ 0 = ground (arith, length-append es (e ∷ [])) in
      rw none_lost refl)
]

pub events-append_event :
    (id : String) (clock : ℕ) (t : TaskInfo) (i : EventInput)
    → events_of (append_event id clock t i).0.execution
      ≡ push_event (events_of t.execution) (append_event id clock t i).1
unfolding append_event ensure_task_execution
events-append_event id clock t i = ground arith

-- Whatever event is appended to a task, the log of the task holds at most 250 events, the new event
-- is its last, and before it stand the earlier events in order, less only the oldest ones that pass
-- the limit.
pub append_event_log :
    (id : String) (clock : ℕ) (t : TaskInfo) (i : EventInput)
    → let (t', event) = append_event id clock t i in
      (length (events_of t'.execution) ≤ max_task_execution_events)
      × (last? (events_of t'.execution) ≡ some event)
      × (events_of t'.execution
          ≡ drop
              (length (events_of t.execution) + 1 - max_task_execution_events)
              (events_of t.execution)
            ++ event ∷ [])
append_event_log id clock t i =
    let old = events_of t.execution in
    let event = (append_event id clock t i).1 in
    rw (events-append_event id clock t i) (
      length-push_event old event,
      rw (push_event_keeps old event) (last?-concat (drop (length old + 1 - 250) old) event),
      push_event_keeps old event,
    )
