-- ===== src/Manifest.antt =====
-- The plan that the controller's agent submits: src/src/controller/orchestration-manifest.ts.
pub mod Key
pub mod Roles
pub mod Questions
pub mod Tasks
pub mod Again
use teamclaw.Prelude.{
  ℕ, String, Bool, true, false, ◌&&◌, ◌||◌, not, Option, none, some, List, [], ◌∷◌, map, filter,
  str_truthy, if◌then◌else◌,
}
use teamclaw.Team.{QuestionKind}
use teamclaw.Value.{Value, undefined, null, number, text, field, is_object, truthy, list_of, Number}
use teamclaw.Contracts.{named}
use teamclaw.Contracts.Fields.{
  trimmed, string_list, optional_text, contract_role, is_role, version_of, compact,
}
use teamclaw.Contracts.Backfill.{unique}
use teamclaw.Manifest.Key.{project_key}

-- `normalizeManifestRoleList`
unfoldable pub role_list : Value → List String
unfolding trimmed is_role
role_list raw = unique (filter is_role (map trimmed (list_of raw)))

-- `ClarificationQuestionOption`
pub record QuestionOption : Type 0 where
  pub value : String
  pub label : String
  pub hint : Option String

abbrev pub question_kind_name : QuestionKind → String
question_kind_name QuestionKind.single_select = "single-select"
question_kind_name QuestionKind.multi_select = "multi-select"
question_kind_name QuestionKind.number = "number"
question_kind_name QuestionKind.text = "text"

abbrev question_kinds : List QuestionKind
question_kinds =
    QuestionKind.single_select ∷ QuestionKind.multi_select ∷ QuestionKind.number ∷ QuestionKind.text
    ∷ []

unfoldable pub question_kind : Value → Option QuestionKind
unfolding trimmed
question_kind raw = named question_kind_name question_kinds (trimmed raw)

-- `ClarificationQuestionSchema`
pub record QuestionSchema : Type 0 where
  pub kind : QuestionKind
  pub title : String
  pub description : Option String
  pub required : Bool
  pub options : List QuestionOption
  pub allow_other : Bool
  pub placeholder : Option String
  pub unit : Option String
  pub min : Option Number
  pub max : Option Number
  pub step : Option Number

unfoldable pub question_option : Value → Option QuestionOption
unfolding trimmed optional_text
question_option entry =
    let value = trimmed (field entry "value") in
    let label = trimmed (field entry "label") in
    if is_object entry && (str_truthy value && str_truthy label)
    then some (record { value = value; label = label; hint = optional_text (field entry "hint") })
    else none

-- `normalizeClarificationOptions`
unfoldable pub question_options : Value → List QuestionOption
unfolding question_option
question_options raw = compact (map question_option (list_of raw))

-- raw == null ? true : Boolean(raw)
abbrev pub unless_null : Value → Bool
unless_null undefined = true
unless_null null = true
unless_null v = truthy v

-- typeof raw === "number" && Number.isFinite(raw)
abbrev pub finite : Value → Option Number
finite (number n) = some n
finite _ = none

abbrev pub is_select : QuestionKind → Bool
is_select QuestionKind.single_select = true
is_select QuestionKind.multi_select = true
is_select _ = false

abbrev pub is_empty : List QuestionOption → Bool
is_empty [] = true
is_empty (o ∷ os) = false

unfoldable pub schema_of : Option QuestionKind → Value → Option QuestionSchema
unfolding trimmed optional_text question_options
schema_of none raw = none
schema_of (some kind) raw =
    let title = trimmed (field raw "title") in
    let options = question_options (field raw "options") in
    if str_truthy title && not (is_select kind && is_empty options)
    then some (record {
      kind = kind;
      title = title;
      description = optional_text (field raw "description");
      required = unless_null (field raw "required");
      options = options;
      allow_other = truthy (field raw "allowOther");
      placeholder = optional_text (field raw "placeholder");
      unit = optional_text (field raw "unit");
      min = finite (field raw "min");
      max = finite (field raw "max");
      step = finite (field raw "step");
    })
    else none

-- `normalizeClarificationQuestionSchema`; an absent list of options is an empty one here.
unfoldable pub question_schema : Value → Option QuestionSchema
unfolding question_kind schema_of
question_schema raw =
    if is_object raw then schema_of (question_kind (field raw "kind")) raw else none

-- `normalizeClarificationQuestionSchemas`
unfoldable pub question_schemas : Value → List QuestionSchema
unfolding question_schema
question_schemas raw = compact (map question_schema (list_of raw))

-- `ControllerManifestCreatedTask`
pub record CreatedTask : Type 0 where
  pub title : String
  pub assigned_role : Option String
  pub expected_outcome : String

-- `ControllerManifestDeferredTask`
pub record DeferredTask : Type 0 where
  pub title : String
  pub assigned_role : Option String
  pub blocked_by : String
  pub when_ready : String

-- `ControllerManifestCompletionOpportunity`
pub record Opportunity : Type 0 where
  pub title : String
  pub value : String
  pub summary : String

-- The role is `normalizeManifestRoleList([entry.assignedRole])[0]`.
unfoldable pub created_task : Value → Option CreatedTask
unfolding trimmed contract_role
created_task entry =
    let title = trimmed (field entry "title") in
    let outcome = trimmed (field entry "expectedOutcome") in
    if is_object entry && (str_truthy title && str_truthy outcome)
    then some (record {
      title = title;
      assigned_role = contract_role (field entry "assignedRole");
      expected_outcome = outcome;
    })
    else none

unfoldable pub deferred_task : Value → Option DeferredTask
unfolding trimmed contract_role
deferred_task entry =
    let title = trimmed (field entry "title") in
    let blocked_by = trimmed (field entry "blockedBy") in
    let when_ready = trimmed (field entry "whenReady") in
    if is_object entry && (str_truthy title && (str_truthy blocked_by && str_truthy when_ready))
    then some (record {
      title = title;
      assigned_role = contract_role (field entry "assignedRole");
      blocked_by = blocked_by;
      when_ready = when_ready;
    })
    else none

unfoldable pub opportunity : Value → Option Opportunity
unfolding trimmed
opportunity entry =
    let title = trimmed (field entry "title") in
    let value = trimmed (field entry "value") in
    let summary = trimmed (field entry "summary") in
    if is_object entry && (str_truthy title && (str_truthy value && str_truthy summary))
    then some (record { title = title; value = value; summary = summary })
    else none

-- `ControllerOrchestrationManifest`, without the kickoff plan.
pub record ControllerManifest : Type 0 where
  pub version : String
  pub project_name : Option String
  pub requirement_summary : String
  pub required_roles : List String
  pub clarifications_needed : Bool
  pub clarification_questions : List String
  pub clarification_schemas : List QuestionSchema
  pub created_tasks : List CreatedTask
  pub deferred_tasks : List DeferredTask
  pub handoff_plan : Option String
  pub notes : Option String
  pub completion_opportunities : List Opportunity
  pub requirement_fully_complete : Bool

unfoldable pub project_name : Value → Option String
unfolding trimmed project_key
project_name raw =
    let name = trimmed raw in
    if str_truthy name
    then some (if str_truthy (project_key name) then project_key name else name)
    else none

-- The questions of a plan, or the titles of its schemas when it has none.
abbrev pub questions_or_titles : List String → List QuestionSchema → List String
questions_or_titles [] schemas = map (λ (q : QuestionSchema). q.title) schemas
questions_or_titles (s ∷ ss) schemas = s ∷ ss

-- `normalizeControllerManifest`
unfoldable pub controller_manifest : Value → Option ControllerManifest
unfolding trimmed string_list optional_text version_of role_list project_name question_schemas
    created_task deferred_task opportunity
controller_manifest raw =
    let summary = trimmed (field raw "requirementSummary") in
    let schemas = question_schemas (field raw "clarificationSchemas") in
    if is_object raw && str_truthy summary
    then some (record {
      version = version_of (field raw "version");
      project_name = project_name (field raw "projectName");
      requirement_summary = summary;
      required_roles = role_list (field raw "requiredRoles");
      clarifications_needed = truthy (field raw "clarificationsNeeded");
      clarification_questions =
          questions_or_titles (string_list (field raw "clarificationQuestions")) schemas;
      clarification_schemas = schemas;
      created_tasks = compact (map created_task (list_of (field raw "createdTasks")));
      deferred_tasks = compact (map deferred_task (list_of (field raw "deferredTasks")));
      handoff_plan = optional_text (field raw "handoffPlan");
      notes = optional_text (field raw "notes");
      completion_opportunities =
          compact (map opportunity (list_of (field raw "completionOpportunities")));
      requirement_fully_complete = truthy (field raw "requirementFullyComplete");
    })
    else none
