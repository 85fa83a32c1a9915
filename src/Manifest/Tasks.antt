-- ===== src/Manifest/Tasks.antt =====
-- The tasks of a plan are read again as they are.
use teamclaw.Prelude.{
  ◌≡◌, refl, inl, inr, Bool-cases, ◌&&◌, some, str_truthy, arith, some_inj, none-some,
}
use teamclaw.Value.{Value, text, object, with, end, option_text, field, is_object}
use teamclaw.Contracts.Fields.{trimmed}
use teamclaw.Contracts.Clean.{
  IsClean, IsRoleOption, trimmed-IsClean, contract_role-IsRole, trimmed-text,
  contract_role-option_text,
}
use teamclaw.Manifest.{
  CreatedTask, DeferredTask, Opportunity, created_task, deferred_task, opportunity,
}

abbrev pub created_value : CreatedTask → Value
created_value t = object (
    with "title" (text t.title) (
      with "assignedRole" (option_text t.assigned_role)
        (with "expectedOutcome" (text t.expected_outcome) end)))

abbrev pub deferred_value : DeferredTask → Value
deferred_value t = object (
    with "title" (text t.title) (
      with "assignedRole" (option_text t.assigned_role)
        (with "blockedBy" (text t.blocked_by) (with "whenReady" (text t.when_ready) end))))

abbrev pub opportunity_value : Opportunity → Value
opportunity_value o = object (
    with "title" (text o.title) (with "value" (text o.value) (with "summary" (text o.summary) end)))

abbrev pub IsCreated : CreatedTask → Type 0
IsCreated t = IsClean t.title × IsRoleOption t.assigned_role × IsClean t.expected_outcome

abbrev pub IsDeferred : DeferredTask → Type 0
IsDeferred t =
    IsClean t.title × IsRoleOption t.assigned_role × IsClean t.blocked_by × IsClean t.when_ready

abbrev pub IsOpportunity : Opportunity → Type 0
IsOpportunity o = IsClean o.title × IsClean o.value × IsClean o.summary

pub created_task-value : (t : CreatedTask) → IsCreated t → created_task (created_value t) ≡ some t
unfolding created_task
created_task-value t h =
    rw
      (
        trimmed-text t.title h.0,
        trimmed-text t.expected_outcome h.2,
        h.0.1,
        h.2.1,
        contract_role-option_text t.assigned_role h.1,
      )
      refl

pub created_task-IsCreated : (v : Value) (t : CreatedTask) → created_task v ≡ some t → IsCreated t
unfolding created_task
created_task-IsCreated v t h =
    elim (Bool-cases (
      is_object v
      && (str_truthy (trimmed (field v "title"))
          && str_truthy (trimmed (field v "expectedOutcome"))))) [
            | inr bad ↦ absurd (none-some (rw bad at h))
            | inl good ↦ rw (← some_inj (rw good at h)) (
              trimmed-IsClean (field v "title") (ground arith),
              contract_role-IsRole (field v "assignedRole"),
              trimmed-IsClean (field v "expectedOutcome") (ground arith),
            )
          ]

pub deferred_task-value :
    (t : DeferredTask) → IsDeferred t → deferred_task (deferred_value t) ≡ some t
unfolding deferred_task
deferred_task-value t h =
    rw
      (
        trimmed-text t.title h.0,
        trimmed-text t.blocked_by h.2,
        trimmed-text t.when_ready h.3,
        h.0.1,
        h.2.1,
        h.3.1,
        contract_role-option_text t.assigned_role h.1,
      )
      refl

pub deferred_task-IsDeferred :
    (v : Value) (t : DeferredTask) → deferred_task v ≡ some t → IsDeferred t
unfolding deferred_task
deferred_task-IsDeferred v t h =
    elim (Bool-cases (
      is_object v
      && (str_truthy (trimmed (field v "title"))
          && (str_truthy (trimmed (field v "blockedBy"))
              && str_truthy (trimmed (field v "whenReady")))))) [
                | inr bad ↦ absurd (none-some (rw bad at h))
                | inl good ↦ rw (← some_inj (rw good at h)) (
                  trimmed-IsClean (field v "title") (ground arith),
                  contract_role-IsRole (field v "assignedRole"),
                  trimmed-IsClean (field v "blockedBy") (ground arith),
                  trimmed-IsClean (field v "whenReady") (ground arith),
                )
              ]

pub opportunity-value :
    (o : Opportunity) → IsOpportunity o → opportunity (opportunity_value o) ≡ some o
unfolding opportunity
opportunity-value o h =
    rw
      (
        trimmed-text o.title h.0,
        trimmed-text o.value h.1,
        trimmed-text o.summary h.2,
        h.0.1,
        h.1.1,
        h.2.1,
      )
      refl

pub opportunity-IsOpportunity :
    (v : Value) (o : Opportunity) → opportunity v ≡ some o → IsOpportunity o
unfolding opportunity
opportunity-IsOpportunity v o h =
    elim (Bool-cases (
      is_object v
      && (str_truthy (trimmed (field v "title"))
          && (str_truthy (trimmed (field v "value"))
              && str_truthy (trimmed (field v "summary")))))) [
                | inr bad ↦ absurd (none-some (rw bad at h))
                | inl good ↦ rw (← some_inj (rw good at h)) (
                  trimmed-IsClean (field v "title") (ground arith),
                  trimmed-IsClean (field v "value") (ground arith),
                  trimmed-IsClean (field v "summary") (ground arith),
                )
              ]
