-- ===== src/Contracts/Results.antt =====
-- A result contract that was normalised once is read again without a change.
use teamclaw.Prelude.{
  String, ◌≡◌, refl, inl, inr, Bool-cases, ◌&&◌, Option, none, some, List, map, All, str_truthy,
  arith, ap, some_inj, none-some,
}
use teamclaw.Team.{Outcome, DeliverableKind, Deliverable, FollowUpType, FollowUp, ResultContract}
use teamclaw.Value.{
  Value, undefined, text, texts, option_text, object, array, with, end, field, is_object, of_list,
  list_of,
}
use teamclaw.Contracts.{
  result_outcome, outcome_name, deliverable_kind, kind_name, follow_up_type, follow_up_name,
  deliverable, follow_up, result_deliverables, result_follow_ups, result_contract, follow_up_of,
  plain_text,
}
use teamclaw.Contracts.Fields.{trimmed, string_list}
use teamclaw.Contracts.Clean.{
  IsClean, IsCleanOption, IsRoleOption, trimmed-IsClean, string_list-IsClean, optional_text-IsClean,
  contract_role-IsRole, version_of-IsClean, trimmed-text, string_list-texts, compact-All,
  compact_again, optional_text-option_text, contract_role-option_text, version_of-text,
}

result_outcome-text : (o : Outcome) → result_outcome (text (outcome_name o)) ≡ o
unfolding result_outcome
result_outcome-text Outcome.completed = refl
result_outcome-text Outcome.blocked = refl
result_outcome-text Outcome.failed = refl

deliverable_kind-text : (k : DeliverableKind) → deliverable_kind (text (kind_name k)) ≡ k
unfolding deliverable_kind
deliverable_kind-text DeliverableKind.file = refl
deliverable_kind-text DeliverableKind.directory = refl
deliverable_kind-text DeliverableKind.command = refl
deliverable_kind-text DeliverableKind.artifact = refl
deliverable_kind-text DeliverableKind.note = refl

follow_up_type-text : (t : FollowUpType) → follow_up_type (text (follow_up_name t)) ≡ some t
unfolding follow_up_type
follow_up_type-text FollowUpType.review = refl
follow_up_type-text FollowUpType.handoff = refl
follow_up_type-text FollowUpType.clarification = refl
follow_up_type-text FollowUpType.downstream_task = refl

plain_text-option_text : (o : Option String) → plain_text (option_text o) ≡ o
plain_text-option_text none = refl
plain_text-option_text (some s) = refl

-- The parts of a contract as the objects that stand for them.
abbrev pub deliverable_value : Deliverable → Value
deliverable_value d = object (
    with "kind" (text (kind_name d.kind)) (
      with "value" (text d.value) (
        with "summary" (option_text d.summary) (
          with "artifactType" (option_text d.artifact_type) (
            with "previewCommand" (option_text d.preview_command) (
              with "previewCwd" (option_text d.preview_cwd) (
                with "previewReadyPath" (option_text d.preview_ready_path)
                  (with "liveUrl" (option_text d.live_url) end))))))))

abbrev pub follow_up_value : FollowUp → Value
follow_up_value f = object (
    with "type" (text (follow_up_name f.type))
      (with "targetRole" (option_text f.target_role) (with "reason" (text f.reason) end)))

abbrev pub patterns_value : Option (List String) → Value
patterns_value none = undefined
patterns_value (some ss) = texts ss

abbrev pub result_value : ResultContract → Value
result_value c = object (
    with "version" (text c.version) (
      with "outcome" (text (outcome_name c.outcome)) (
        with "summary" (text c.summary) (
          with "deliverables" (array (of_list (map deliverable_value c.deliverables))) (
            with "keyPoints" (texts c.key_points) (
              with "blockers" (texts c.blockers) (
                with "followUps" (array (of_list (map follow_up_value c.follow_ups))) (
                  with "questions" (texts c.questions) (
                    with "notes" (option_text c.notes) (
                      with "discoveredPatterns" (patterns_value c.discovered_patterns) end))))))))))

record IsDeliverable (d : Deliverable) : Type 0 where
  value : IsClean d.value
  summary : IsCleanOption d.summary
  preview_command : IsCleanOption d.preview_command
  preview_cwd : IsCleanOption d.preview_cwd
  preview_ready_path : IsCleanOption d.preview_ready_path
  live_url : IsCleanOption d.live_url

abbrev IsFollowUp : FollowUp → Type 0
IsFollowUp f = IsRoleOption f.target_role × IsClean f.reason

abbrev HasPatterns : Option (List String) → Type 0
HasPatterns none = ⊥
HasPatterns (some ss) = All IsClean ss

record IsResult (c : ResultContract) : Type 0 where
  version : IsClean c.version
  summary : IsClean c.summary
  deliverables : All IsDeliverable c.deliverables
  key_points : All IsClean c.key_points
  blockers : All IsClean c.blockers
  follow_ups : All IsFollowUp c.follow_ups
  questions : All IsClean c.questions
  notes : IsCleanOption c.notes
  patterns : HasPatterns c.discovered_patterns

deliverable-value : (d : Deliverable) → IsDeliverable d → deliverable (deliverable_value d) ≡ some d
unfolding deliverable
deliverable-value d h =
    rw
      (
        trimmed-text d.value h.value,
        h.value.1,
        deliverable_kind-text d.kind,
        plain_text-option_text d.artifact_type,
        optional_text-option_text d.summary h.summary,
        optional_text-option_text d.preview_command h.preview_command,
        optional_text-option_text d.preview_cwd h.preview_cwd,
        optional_text-option_text d.preview_ready_path h.preview_ready_path,
        optional_text-option_text d.live_url h.live_url,
      )
      refl

deliverable-IsDeliverable : (v : Value) (d : Deliverable) → deliverable v ≡ some d → IsDeliverable d
unfolding deliverable
deliverable-IsDeliverable v d h =
    elim (Bool-cases (is_object v && str_truthy (trimmed (field v "value")))) [
      | inr bad ↦ absurd (none-some (rw bad at h))
      | inl good ↦ rw (← some_inj (rw good at h)) (record {
        value = trimmed-IsClean (field v "value") (ground arith);
        summary = optional_text-IsClean (field v "summary");
        preview_command = optional_text-IsClean (field v "previewCommand");
        preview_cwd = optional_text-IsClean (field v "previewCwd");
        preview_ready_path = optional_text-IsClean (field v "previewReadyPath");
        live_url = optional_text-IsClean (field v "liveUrl");
      })
    ]

follow_up-value : (f : FollowUp) → IsFollowUp f → follow_up (follow_up_value f) ≡ some f
unfolding follow_up follow_up_of
follow_up-value f h =
    rw
      (
        follow_up_type-text f.type,
        trimmed-text f.reason h.1,
        h.1.1,
        contract_role-option_text f.target_role h.0,
      )
      refl

follow_up_of-IsFollowUp :
    (o : Option FollowUpType) (v : Value) (f : FollowUp) → follow_up_of o v ≡ some f → IsFollowUp f
unfolding follow_up_of
follow_up_of-IsFollowUp none v f h = absurd (none-some h)
follow_up_of-IsFollowUp (some t) v f h =
    elim (Bool-cases (str_truthy (trimmed (field v "reason")))) [
      | inr bad ↦ absurd (none-some (rw bad at h))
      | inl good ↦
          rw (← some_inj (rw good at h))
            (contract_role-IsRole (field v "targetRole"), trimmed-IsClean (field v "reason") good)
    ]

follow_up-IsFollowUp : (v : Value) (f : FollowUp) → follow_up v ≡ some f → IsFollowUp f
unfolding follow_up
follow_up-IsFollowUp v f h = elim (Bool-cases (is_object v)) [
  | inr bad ↦ absurd (none-some (rw bad at h))
  | inl good ↦ follow_up_of-IsFollowUp (follow_up_type (field v "type")) v f (rw good at h)
]

patterns_again :
    (o : Option (List String)) → HasPatterns o → some (string_list (patterns_value o)) ≡ o
patterns_again none h = absurd h
patterns_again (some ss) h = ap (λ l. some l) (string_list-texts ss h)

result_contract-value :
    (c : ResultContract) → IsResult c → result_contract (result_value c) ≡ some c
unfolding result_contract result_deliverables result_follow_ups
result_contract-value c h =
    rw
      (
        trimmed-text c.summary h.summary,
        h.summary.1,
        version_of-text c.version h.version,
        result_outcome-text c.outcome,
        compact_again IsDeliverable deliverable deliverable_value c.deliverables deliverable-value
            h.deliverables,
        compact_again IsFollowUp follow_up follow_up_value c.follow_ups follow_up-value
            h.follow_ups,
        string_list-texts c.key_points h.key_points,
        string_list-texts c.blockers h.blockers,
        string_list-texts c.questions h.questions,
        optional_text-option_text c.notes h.notes,
        patterns_again c.discovered_patterns h.patterns,
      )
      refl

result_contract-IsResult :
    (raw : Value) (c : ResultContract) → result_contract raw ≡ some c → IsResult c
unfolding result_contract result_deliverables result_follow_ups
result_contract-IsResult raw c h =
    elim (Bool-cases (is_object raw && str_truthy (trimmed (field raw "summary")))) [
      | inr bad ↦ absurd (none-some (rw bad at h))
      | inl good ↦ rw (← some_inj (rw good at h)) (record {
        version = version_of-IsClean (field raw "version");
        summary = trimmed-IsClean (field raw "summary") (ground arith);
        deliverables =
            compact-All IsDeliverable deliverable (list_of (field raw "deliverables"))
              deliverable-IsDeliverable;
        key_points = string_list-IsClean (field raw "keyPoints");
        blockers = string_list-IsClean (field raw "blockers");
        follow_ups =
            compact-All IsFollowUp follow_up (list_of (field raw "followUps")) follow_up-IsFollowUp;
        questions = string_list-IsClean (field raw "questions");
        notes = optional_text-IsClean (field raw "notes");
        patterns = string_list-IsClean (field raw "discoveredPatterns");
      })
    ]

-- Whatever value a worker gives, if it normalises to a result contract, then that contract, taken as
-- a value again, normalises to itself, with its deliverables and follow-ups in order.
pub result_contract_again :
    (raw : Value) (c : ResultContract)
    → result_contract raw ≡ some c
    → result_contract (result_value c) ≡ some c
result_contract_again raw c h = result_contract-value c (result_contract-IsResult raw c h)
