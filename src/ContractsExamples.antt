-- ===== src/ContractsExamples.antt =====
-- Tests of the contracts and of the plan, and their theorems at concrete inputs.
use teamclaw.Prelude.{
  ◌≡◌, refl, true, false, none, some, [], ◌∷◌, str_trim, str_skip_spaces, str_trim_end, is_space,
  text_eq, starts_with, includes,
}
use teamclaw.Team.{
  Intent, MessageContract, Outcome, DeliverableKind, FollowUpType, ResultContract, QuestionKind,
}
use teamclaw.Value.{Value, null, number, text, texts, array, object, with, end, cons, nil, natural}
use teamclaw.Contracts.{
  message_contract, message_intent, result_contract, result_outcome, result_deliverables,
  result_follow_ups, deliverable, deliverable_kind, follow_up, follow_up_type, follow_up_of,
}
use teamclaw.Contracts.Fields.{
  trimmed, string_list, optional_text, contract_role, version_of, is_role,
}
use teamclaw.Contracts.Backfill.{
  summarize, str_length, bullet_lines, is_question, path_matches, is_web_html_path, file_name,
}
use teamclaw.Contracts.Roundtrip.{message_value, message_contract_again}
use teamclaw.Contracts.Results.{result_value, result_contract_again}
use teamclaw.Manifest.{
  ControllerManifest, controller_manifest, role_list, project_name, question_schemas,
  question_schema, question_kind, schema_of, question_options, question_option, created_task,
  deferred_task, opportunity,
}
use teamclaw.Manifest.Key.{project_key, drop_dashes_end, project_key_lem, IsKey}
use teamclaw.Manifest.Again.{manifest_value, controller_manifest_again}

abbrev raw_message : Value
raw_message = object (
    with "summary" (text "  Is the API stable? ") (
      with "intent" (text "question") (
        with "requestedRole" (text "architect ")
          (with "references" (texts ("t1" ∷ "  " ∷ [])) end))))

abbrev read_message : MessageContract
read_message = record {
  version = "1.0";
  intent = Intent.question;
  summary = "Is the API stable?";
  details = none;
  requested_action = none;
  requested_role = some "architect";
  needs_response = false;
  references = "t1" ∷ [];
}

reads_message : message_contract raw_message ≡ some read_message
unfolding message_contract message_intent trimmed string_list optional_text contract_role version_of
    is_role str_trim str_skip_spaces str_trim_end is_space
reads_message = refl

message_contract_example : message_contract (message_value read_message) ≡ some read_message
message_contract_example = message_contract_again raw_message read_message reads_message

abbrev raw_result : Value
raw_result = object (
    with "summary" (text "Built the page.") (
      with "outcome" (text "blocked") (
        with "deliverables"
          (array (
            cons (object (with "kind" (text "file") (with "value" (text " index.html ") end)))
              (cons (object (with "kind" (text "file") end)) (cons null nil))))
          (with "followUps"
            (array (
              cons
                (object
                  (with "type" (text "review") (with "reason" (text "Check the layout.") end)))
                nil))
            end))))

abbrev read_result : ResultContract
read_result = record {
  version = "1.0";
  outcome = Outcome.blocked;
  summary = "Built the page.";
  deliverables =
      record {
        kind = DeliverableKind.file;
        value = "index.html";
        summary = none;
        artifact_type = none;
        preview_command = none;
        preview_cwd = none;
        preview_ready_path = none;
        live_url = none;
      }
      ∷ [];
  key_points = [];
  blockers = [];
  follow_ups =
      record { type = FollowUpType.review; target_role = none; reason = "Check the layout." } ∷ [];
  questions = [];
  notes = none;
  discovered_patterns = some [];
}

reads_result : result_contract raw_result ≡ some read_result
unfolding result_contract result_outcome result_deliverables result_follow_ups deliverable
    deliverable_kind follow_up follow_up_type follow_up_of trimmed string_list optional_text
    contract_role version_of is_role str_trim str_skip_spaces str_trim_end is_space
reads_result = refl

result_contract_example : result_contract (result_value read_result) ≡ some read_result
result_contract_example = result_contract_again raw_result read_result reads_result

abbrev raw_plan : Value
raw_plan = object (
    with "projectName" (text "Todo  REST API!") (
      with "requirementSummary" (text "A list of tasks.") (
        with "requiredRoles" (texts ("qa" ∷ "wizard" ∷ "qa" ∷ "developer" ∷ [])) (
          with "clarificationSchemas"
            (array (
              cons
                (object (
                  with "kind" (text "number")
                    (with "title" (text "How many users?") (with "min" (number (natural 1)) end))))
                nil))
            (with "createdTasks"
              (array (
                cons
                  (object
                    (with "title" (text "Build it") (with "expectedOutcome" (text "It runs.") end)))
                  nil))
              end)))))

abbrev read_plan : ControllerManifest
read_plan = record {
  version = "1.0";
  project_name = some "todo-rest-api";
  requirement_summary = "A list of tasks.";
  required_roles = "qa" ∷ "developer" ∷ [];
  clarifications_needed = false;
  clarification_questions = "How many users?" ∷ [];
  clarification_schemas =
      record {
        kind = QuestionKind.number;
        title = "How many users?";
        description = none;
        required = true;
        options = [];
        allow_other = false;
        placeholder = none;
        unit = none;
        min = some (natural 1);
        max = none;
        step = none;
      }
      ∷ [];
  created_tasks =
      record { title = "Build it"; assigned_role = none; expected_outcome = "It runs." } ∷ [];
  deferred_tasks = [];
  handoff_plan = none;
  notes = none;
  completion_opportunities = [];
  requirement_fully_complete = false;
}

reads_plan : controller_manifest raw_plan ≡ some read_plan
unfolding controller_manifest role_list project_name question_schemas question_schema question_kind
    schema_of question_options question_option created_task deferred_task opportunity project_key
    drop_dashes_end trimmed string_list optional_text contract_role version_of is_role str_trim
    str_skip_spaces str_trim_end is_space
reads_plan = refl

controller_manifest_example : controller_manifest (manifest_value read_plan) ≡ some read_plan
controller_manifest_example = controller_manifest_again raw_plan read_plan reads_plan

project_key_example :
    IsKey (project_key "Stripe: Payment Integration")
    × (project_key (project_key "Stripe: Payment Integration")
        ≡ project_key "Stripe: Payment Integration")
project_key_example = project_key_lem "Stripe: Payment Integration"

cuts_text : summarize 5 "a  b\tc d" ≡ "a b c…"
unfolding summarize str_trim str_skip_spaces str_trim_end is_space str_length
cuts_text = refl

finds_paths :
    path_matches "see src/app.ts, `lib/index.html` and v1." ≡ "src/app.ts" ∷ "lib/index.html" ∷ []
unfolding path_matches str_length is_space
finds_paths = refl

finds_questions : bullet_lines "- Ready?\n- Done.\n* Ready?" 5 is_question ≡ "Ready?" ∷ []
unfolding bullet_lines is_question str_length str_trim str_skip_spaces str_trim_end is_space
finds_questions = refl

pages : is_web_html_path "site/index.html" ≡ true
unfolding is_web_html_path file_name text_eq starts_with includes
pages = refl
