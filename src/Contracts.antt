-- ===== src/Contracts.antt =====
-- The contracts between controller and workers: src/src/interaction-contracts.ts. The functions here
-- read a value of unknown shape, or fill a contract from plain text.
pub mod Fields
pub mod Backfill
pub mod Filled
pub mod Clean
pub mod Roundtrip
pub mod Results
use teamclaw.Prelude.{
  String, Bool, true, false, ◌&&◌, not, Option, none, some, List, [], ◌∷◌, map, str_truthy, str_eq,
  str_trim, if◌then◌else◌, or_else, get_or,
}
use teamclaw.Team.{
  Intent, MessageContract, ProgressStatus, ProgressContract, Handoff, Outcome, DeliverableKind,
  Deliverable, FollowUpType, FollowUp, ResultContract,
}
use teamclaw.Value.{Value, undefined, text, field, is_object, truthy, list_of}
use teamclaw.Contracts.Fields.{
  trimmed, string_list, optional_text, contract_role, version_of, compact,
}
use teamclaw.Contracts.Backfill.{default_handoff_summary, trimmed_texts}

abbrev pub intent_name : Intent → String
intent_name Intent.question = "question"
intent_name Intent.announcement = "announcement"
intent_name Intent.handoff = "handoff"
intent_name Intent.review_request = "review-request"
intent_name Intent.review_response = "review-response"
intent_name Intent.update = "update"
intent_name Intent.coordination = "coordination"

abbrev intents : List Intent
intents =
    Intent.question ∷ Intent.announcement ∷ Intent.handoff ∷ Intent.review_request
    ∷ Intent.review_response ∷ Intent.update ∷ Intent.coordination ∷ []

-- The member of an enumeration that a text names.
abbrev pub named {ℓ} : {A : Type ℓ} → (A → String) → List A → String → Option A
named name [] s = none
named name (a ∷ as1) s = let rest = named name as1 s in if str_eq (name a) s then some a else rest

-- `normalizeMessageIntent`
unfoldable pub message_intent : Value → Option Intent
unfolding str_trim
message_intent (text s) = named intent_name intents (str_trim s)
message_intent _ = none

abbrev pub progress_name : ProgressStatus → String
progress_name ProgressStatus.in_progress = "in_progress"
progress_name ProgressStatus.review = "review"

-- `normalizeProgressStatus`
unfoldable pub progress_status : Value → Option ProgressStatus
progress_status (text s) =
    named progress_name (ProgressStatus.in_progress ∷ ProgressStatus.review ∷ []) s
progress_status _ = none

abbrev pub outcome_name : Outcome → String
outcome_name Outcome.completed = "completed"
outcome_name Outcome.blocked = "blocked"
outcome_name Outcome.failed = "failed"

-- `normalizeResultOutcome`
unfoldable pub result_outcome : Value → Outcome
result_outcome (text s) =
    get_or (named outcome_name (Outcome.blocked ∷ Outcome.failed ∷ []) s) Outcome.completed
result_outcome _ = Outcome.completed

abbrev pub kind_name : DeliverableKind → String
kind_name DeliverableKind.file = "file"
kind_name DeliverableKind.directory = "directory"
kind_name DeliverableKind.command = "command"
kind_name DeliverableKind.artifact = "artifact"
kind_name DeliverableKind.note = "note"

abbrev kinds : List DeliverableKind
kinds =
    DeliverableKind.file ∷ DeliverableKind.directory ∷ DeliverableKind.command
    ∷ DeliverableKind.artifact ∷ DeliverableKind.note ∷ []

unfoldable pub deliverable_kind : Value → DeliverableKind
deliverable_kind (text s) = get_or (named kind_name kinds s) DeliverableKind.note
deliverable_kind _ = DeliverableKind.note

abbrev pub follow_up_name : FollowUpType → String
follow_up_name FollowUpType.review = "review"
follow_up_name FollowUpType.handoff = "handoff"
follow_up_name FollowUpType.clarification = "clarification"
follow_up_name FollowUpType.downstream_task = "downstream-task"

abbrev follow_up_types : List FollowUpType
follow_up_types =
    FollowUpType.review ∷ FollowUpType.handoff ∷ FollowUpType.clarification
    ∷ FollowUpType.downstream_task ∷ []

unfoldable pub follow_up_type : Value → Option FollowUpType
follow_up_type (text s) = named follow_up_name follow_up_types s
follow_up_type _ = none

-- typeof x === "string" ? x : undefined
abbrev pub plain_text : Value → Option String
plain_text (text s) = some s
plain_text _ = none

-- `normalizeTeamMessageContract`
unfoldable pub message_contract : Value → Option MessageContract
unfolding trimmed string_list optional_text contract_role version_of message_intent
message_contract raw =
    let summary = trimmed (field raw "summary") in
    if is_object raw && str_truthy summary
    then some (record {
      version = version_of (field raw "version");
      intent = get_or (message_intent (field raw "intent")) Intent.update;
      summary = summary;
      details = optional_text (field raw "details");
      requested_action = optional_text (field raw "requestedAction");
      requested_role = contract_role (field raw "requestedRole");
      needs_response = truthy (field raw "needsResponse");
      references = string_list (field raw "references");
    })
    else none

-- `normalizeWorkerProgressContract`
unfoldable pub progress_contract : Value → Option ProgressContract
unfolding trimmed string_list optional_text version_of progress_status
progress_contract raw =
    let summary = trimmed (field raw "summary") in
    if is_object raw && str_truthy summary
    then some (record {
      version = version_of (field raw "version");
      summary = summary;
      status = get_or (progress_status (field raw "status")) ProgressStatus.in_progress;
      current_step = optional_text (field raw "currentStep");
      next_step = optional_text (field raw "nextStep");
      blockers = string_list (field raw "blockers");
    })
    else none

-- The `fallback` of `normalizeTaskHandoffContract`.
pub record HandoffFallback : Type 0 where
  pub target_role : Option String
  pub reason : String
  pub summary : Option String
  pub expected_next_step : Option String
  pub artifacts : List String

-- s?.trim() || undefined
abbrev non_empty : Option String → Option String
non_empty none = none
non_empty (some s) = if str_truthy (str_trim s) then some (str_trim s) else none

unfoldable pub fallback_handoff : HandoffFallback → Handoff
unfolding str_trim default_handoff_summary trimmed_texts
fallback_handoff f = record {
  version = "1.0";
  summary = get_or (non_empty f.summary) (default_handoff_summary f.target_role f.reason);
  reason = str_trim f.reason;
  target_role = f.target_role;
  expected_next_step = non_empty f.expected_next_step;
  artifacts = trimmed_texts f.artifacts;
}

-- `normalizeTaskHandoffContract`
unfoldable pub handoff_contract : Value → HandoffFallback → Handoff
unfolding trimmed string_list optional_text contract_role version_of fallback_handoff
handoff_contract raw f =
    let summary = trimmed (field raw "summary") in
    let reason = trimmed (field raw "reason") in
    if is_object raw && (str_truthy summary && str_truthy reason)
    then record {
      version = version_of (field raw "version");
      summary = summary;
      reason = reason;
      target_role = or_else (contract_role (field raw "targetRole")) f.target_role;
      expected_next_step = optional_text (field raw "expectedNextStep");
      artifacts = string_list (field raw "artifacts");
    }
    else fallback_handoff f

unfoldable pub deliverable : Value → Option Deliverable
unfolding trimmed optional_text deliverable_kind
deliverable entry =
    let value = trimmed (field entry "value") in
    if is_object entry && str_truthy value
    then some (record {
      kind = deliverable_kind (field entry "kind");
      value = value;
      summary = optional_text (field entry "summary");
      artifact_type = plain_text (field entry "artifactType");
      preview_command = optional_text (field entry "previewCommand");
      preview_cwd = optional_text (field entry "previewCwd");
      preview_ready_path = optional_text (field entry "previewReadyPath");
      live_url = optional_text (field entry "liveUrl");
    })
    else none

unfoldable pub follow_up_of : Option FollowUpType → Value → Option FollowUp
unfolding trimmed contract_role
follow_up_of none entry = none
follow_up_of (some type) entry =
    let reason = trimmed (field entry "reason") in
    if str_truthy reason
    then some (record {
      type = type;
      target_role = contract_role (field entry "targetRole");
      reason = reason;
    })
    else none

unfoldable pub follow_up : Value → Option FollowUp
unfolding follow_up_type follow_up_of
follow_up entry =
    if is_object entry then follow_up_of (follow_up_type (field entry "type")) entry else none

-- `normalizeResultDeliverables` and `normalizeResultFollowUps`
unfoldable pub result_deliverables : Value → List Deliverable
unfolding deliverable
result_deliverables raw = compact (map deliverable (list_of raw))

unfoldable pub result_follow_ups : Value → List FollowUp
unfolding follow_up
result_follow_ups raw = compact (map follow_up (list_of raw))

-- `normalizeWorkerTaskResultContract`
unfoldable pub result_contract : Value → Option ResultContract
unfolding trimmed string_list optional_text version_of result_outcome result_deliverables
    result_follow_ups
result_contract raw =
    let summary = trimmed (field raw "summary") in
    if is_object raw && str_truthy summary
    then some (record {
      version = version_of (field raw "version");
      outcome = result_outcome (field raw "outcome");
      summary = summary;
      deliverables = result_deliverables (field raw "deliverables");
      key_points = string_list (field raw "keyPoints");
      blockers = string_list (field raw "blockers");
      follow_ups = result_follow_ups (field raw "followUps");
      questions = string_list (field raw "questions");
      notes = optional_text (field raw "notes");
      discovered_patterns = some (string_list (field raw "discoveredPatterns"));
    })
    else none
