-- ===== src/Contracts/Filled.antt =====
-- The contracts that src/src/interaction-contracts.ts fills in for a sender who gave none.
use teamclaw.Prelude.{
  String, Bool, true, false, not, ◌||◌, Option, none, some, List, [], ◌∷◌, ◌++◌, str_truthy, str_eq,
  str_trim, if◌then◌else◌, ◌<>◌, get_or, is_some, includes, codes, text_truthy,
}
use teamclaw.Team.{
  MessageType, Intent, MessageContract, ProgressStatus, ProgressContract, TaskInfo, Handoff,
  Outcome, FollowUpType, FollowUp, ResultContract,
}
use teamclaw.Value.{Value, text, undefined}
use teamclaw.Contracts.{message_contract, progress_status}
use teamclaw.Contracts.Backfill.{
  trimmed_texts, summarize, first_meaningful_line, unique, bullet_lines, is_blocker, is_question,
  inferred_deliverables,
}

-- The `fallback` of `ensureTeamMessageContract`.
pub record MessageFallback : Type 0 where
  pub type : MessageType
  pub content : String
  pub to_role : Option String
  pub task_id : Option String
  pub summary : Option String
  pub details : Option String
  pub requested_action : Option String
  pub needs_response : Option Bool
  pub references : List String
  pub intent : Option Intent

-- s?.trim() || other
abbrev trimmed_or : Option String → String → String
unfolding str_trim
trimmed_or none other = other
trimmed_or (some s) other = if str_truthy (str_trim s) then str_trim s else other

-- s || undefined
abbrev truthy_text : String → Option String
truthy_text s = if str_truthy s then some s else none

abbrev is_broadcast : MessageType → Bool
is_broadcast MessageType.broadcast = true
is_broadcast _ = false

abbrev is_review_request : MessageType → Bool
is_review_request MessageType.review_request = true
is_review_request _ = false

-- `inferMessageIntent`
unfoldable pub infer_intent : MessageType → String → Intent
infer_intent type content =
    if is_review_request type
    then Intent.review_request
    else if includes (codes content) (codes "?")
    then Intent.question
    else if is_broadcast type
    then Intent.announcement
    else Intent.update

-- `buildDefaultRequestedAction`
unfoldable pub default_requested_action : Intent → Option String → String
default_requested_action Intent.question role =
    "Answer the question so the sender can continue safely."
default_requested_action Intent.review_request role =
    if text_truthy role
    then "Review the referenced work as " <> (get_or role "" <> " and reply with findings.")
    else "Review the referenced work and reply with findings."
default_requested_action Intent.handoff role =
    "Take over the next step described in the handoff summary."
default_requested_action Intent.announcement role = "Read the update and align your work if needed."
default_requested_action _ role = ""

-- `deriveMessageDetails`
unfoldable pub derive_details : String → String → String
unfolding str_trim
derive_details summary content =
    let normalized = str_trim content in
    if not (str_truthy normalized) || str_eq normalized summary then "" else normalized

abbrev wants_response : Intent → Bool
wants_response Intent.question = true
wants_response Intent.review_request = true
wants_response Intent.handoff = true
wants_response _ = false

-- `buildBackfilledTeamMessageContract`
unfoldable pub backfilled_message : MessageFallback → MessageContract
unfolding summarize infer_intent default_requested_action derive_details trimmed_texts
backfilled_message f =
    let summary = trimmed_or f.summary (summarize 180 f.content) in
    let intent = get_or f.intent (infer_intent f.type f.content) in
    record {
      version = "1.0";
      intent = intent;
      summary = if str_truthy summary then summary else "TeamClaw message";
      details = truthy_text (trimmed_or f.details (derive_details summary f.content));
      requested_action =
          truthy_text (trimmed_or f.requested_action (default_requested_action intent f.to_role));
      requested_role = f.to_role;
      needs_response = get_or f.needs_response (wants_response intent);
      references = unique (
          trimmed_texts
            (f.references ++ (if text_truthy f.task_id then get_or f.task_id "" ∷ [] else [])));
    }

-- `ensureTeamMessageContract`
unfoldable pub ensure_message : Value → MessageFallback → MessageContract
unfolding message_contract backfilled_message
ensure_message raw f = get_or (message_contract raw) (backfilled_message f)

-- `backfillWorkerProgressContract`
unfoldable pub backfilled_progress : String → Option String → Option ProgressContract
unfolding str_trim summarize progress_status bullet_lines
backfilled_progress progress status =
    let normalized = str_trim progress in
    if str_truthy normalized
    then some (record {
      version = "1.0";
      summary = summarize 180 normalized;
      status =
          get_or (progress_status (elim status [ none ↦ undefined | some s ↦ text s ]))
            ProgressStatus.in_progress;
      current_step = some normalized;
      next_step = none;
      blockers = bullet_lines normalized 3 is_blocker;
    })
    else none

abbrev handoff_of : Option TaskInfo → Option Handoff
handoff_of none = none
handoff_of (some t) = t.last_handoff

-- a || b
abbrev first_of : String → String → String
first_of a b = if str_truthy a then a else b

abbrev summary_source : Option TaskInfo → String → String → String
unfolding first_meaningful_line
summary_source task error result =
    let unavailable : String = "Worker result summary unavailable." in
    first_of error (
      first_of (first_meaningful_line result) (
        first_of (elim (handoff_of task) [ none ↦ "" | some h ↦ h.summary ])
          (elim task [
            | none ↦ unavailable
            | some t ↦ first_of t.description (first_of t.title unavailable)
          ])))

abbrev outcome_of : String → Option Handoff → Outcome
outcome_of error handoff =
    if str_truthy error
    then Outcome.failed
    else if is_some handoff
    then Outcome.blocked
    else Outcome.completed

abbrev blockers_of : String → Option Handoff → List String
blockers_of error handoff =
    if str_truthy error then error ∷ [] else elim handoff [ none ↦ [] | some h ↦ h.reason ∷ [] ]

abbrev follow_ups_of : Option Handoff → List FollowUp
follow_ups_of none = []
follow_ups_of (some h) =
    record { type = FollowUpType.handoff; target_role = h.target_role; reason = h.reason } ∷ []

-- `backfillWorkerTaskResultContract`
unfoldable pub backfilled_result : Option TaskInfo → String → Option String → ResultContract
unfolding str_trim summarize bullet_lines inferred_deliverables is_question summary_source
backfilled_result task result error =
    let normalized = str_trim result in
    let message = trimmed_or error "" in
    record {
      version = "1.0";
      outcome = outcome_of message (handoff_of task);
      summary = summarize 180 (summary_source task message normalized);
      deliverables = inferred_deliverables normalized (truthy_text message);
      key_points = bullet_lines normalized 5 (λ l. true);
      blockers = blockers_of message (handoff_of task);
      follow_ups = follow_ups_of (handoff_of task);
      questions = bullet_lines normalized 5 is_question;
      notes =
          some
            "Backfilled by TeamClaw because the worker did not submit a structured result contract.";
      discovered_patterns = none;
    }
