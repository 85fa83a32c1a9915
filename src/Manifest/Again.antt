-- ===== src/Manifest/Again.antt =====
-- A plan that was normalised once is read again without a change.
use teamclaw.Prelude.{
  String, ◌≡◌, ◌⊎◌, refl, inl, inr, Bool-cases, false, ◌&&◌, Option, none, some, List, [], ◌∷◌, map,
  All, str_truthy, arith, some_inj, none-some,
}
use teamclaw.Value.{
  Value, boolean, text, texts, array, object, with, end, option_text, field, is_object, of_list,
  list_of,
}
use teamclaw.Contracts.Fields.{trimmed, string_list}
use teamclaw.Contracts.Clean.{
  IsClean, IsCleanOption, trimmed-IsClean, trimmed_again, optional_text-IsClean,
  string_list-IsClean, version_of-IsClean, trimmed-text, optional_text-option_text,
  string_list-texts, version_of-text, compact-All, compact_again,
}
use teamclaw.Manifest.{
  ControllerManifest, QuestionSchema, controller_manifest, project_name, questions_or_titles,
  question_schema, question_schemas, created_task, deferred_task, opportunity,
}
use teamclaw.Manifest.Key.{project_key, project_key_lem, project_key-trim}
use teamclaw.Manifest.Roles.{IsRoleList, role_list-IsRoleList, role_list-texts}
use teamclaw.Manifest.Questions.{
  IsSchema, schema_value, question_schema-value, question_schema-IsSchema,
}
use teamclaw.Manifest.Tasks.{
  IsCreated, IsDeferred, IsOpportunity, created_value, deferred_value, opportunity_value,
  created_task-value, created_task-IsCreated, deferred_task-value, deferred_task-IsDeferred,
  opportunity-value, opportunity-IsOpportunity,
}

-- A name of a project is its own key, or a clean text without a key.
abbrev IsProjectName : Option String → Type 0
IsProjectName none = Unit
IsProjectName (some s) = IsClean s × ((project_key s ≡ s) ⊎ (str_truthy (project_key s) ≡ false))

project_name-IsProjectName : (v : Value) → IsProjectName (project_name v)
unfolding project_name
project_name-IsProjectName v = elim (Bool-cases (str_truthy (trimmed v))) [
  | inr empty ↦ rw empty tt
  | inl full ↦ rw full (elim (Bool-cases (str_truthy (project_key (trimmed v)))) [
    | inl key ↦ rw key ((project_key-trim (trimmed v), key), inl (project_key_lem (trimmed v)).1)
    | inr no_key ↦ rw no_key ((trimmed_again v, full), inr no_key)
  ])
]

project_name-option_text : (o : Option String) → IsProjectName o → project_name (option_text o) ≡ o
unfolding project_name trimmed
project_name-option_text none h = refl
project_name-option_text (some s) h =
    rw h.0.0
      (rw h.0.1 (elim h.1 [ inl same ↦ rw same (rw h.0.1 refl) | inr no_key ↦ rw no_key refl ]))

-- The questions are clean, and there are some when there are schemas.
abbrev IsQuestions : List String → List QuestionSchema → Type 0
IsQuestions [] [] = Unit
IsQuestions [] (q ∷ qs) = ⊥
IsQuestions (s ∷ ss) qs = All IsClean (s ∷ ss)

titles-IsClean :
    (qs : List QuestionSchema)
    → All IsSchema qs
    → All IsClean (map (λ (q : QuestionSchema). q.title) qs)
titles-IsClean [] h = tt
titles-IsClean (q ∷ qs) h = (h.0.title, titles-IsClean qs h.1)

questions_or_titles-IsQuestions :
    (ss : List String) (qs : List QuestionSchema)
    → All IsClean ss
    → All IsSchema qs
    → IsQuestions (questions_or_titles ss qs) qs
questions_or_titles-IsQuestions [] [] clean schemas = tt
questions_or_titles-IsQuestions [] (q ∷ qs) clean schemas = titles-IsClean (q ∷ qs) schemas
questions_or_titles-IsQuestions (s ∷ ss) qs clean schemas = clean

IsQuestions-clean :
    (ss : List String) (qs : List QuestionSchema) → IsQuestions ss qs → All IsClean ss
IsQuestions-clean [] qs h = tt
IsQuestions-clean (s ∷ ss) qs h = h

questions_or_titles-same :
    (ss : List String) (qs : List QuestionSchema)
    → IsQuestions ss qs
    → questions_or_titles ss qs ≡ ss
questions_or_titles-same [] [] h = refl
questions_or_titles-same [] (q ∷ qs) h = absurd h
questions_or_titles-same (s ∷ ss) qs h = refl

-- A plan as the object that stands for it.
abbrev pub manifest_value : ControllerManifest → Value
manifest_value m = object (
    with "version" (text m.version) (
      with "projectName" (option_text m.project_name) (
        with "requirementSummary" (text m.requirement_summary) (
          with "requiredRoles" (texts m.required_roles) (
            with "clarificationsNeeded" (boolean m.clarifications_needed) (
              with "clarificationQuestions" (texts m.clarification_questions) (
                with "clarificationSchemas"
                  (array (of_list (map schema_value m.clarification_schemas)))
                  (with "createdTasks" (array (of_list (map created_value m.created_tasks))) (
                    with "deferredTasks" (array (of_list (map deferred_value m.deferred_tasks))) (
                      with "handoffPlan" (option_text m.handoff_plan) (
                        with "notes" (option_text m.notes) (
                          with "completionOpportunities"
                            (array (of_list (map opportunity_value m.completion_opportunities)))
                            (with "requirementFullyComplete" (boolean m.requirement_fully_complete)
                              end)))))))))))))

record IsManifest (m : ControllerManifest) : Type 0 where
  version : IsClean m.version
  project_name : IsProjectName m.project_name
  summary : IsClean m.requirement_summary
  roles : IsRoleList m.required_roles
  questions : IsQuestions m.clarification_questions m.clarification_schemas
  schemas : All IsSchema m.clarification_schemas
  created : All IsCreated m.created_tasks
  deferred : All IsDeferred m.deferred_tasks
  handoff_plan : IsCleanOption m.handoff_plan
  notes : IsCleanOption m.notes
  opportunities : All IsOpportunity m.completion_opportunities

controller_manifest-value :
    (m : ControllerManifest) → IsManifest m → controller_manifest (manifest_value m) ≡ some m
unfolding controller_manifest question_schemas
controller_manifest-value m h =
    rw
      (
        trimmed-text m.requirement_summary h.summary,
        h.summary.1,
        version_of-text m.version h.version,
        project_name-option_text m.project_name h.project_name,
        role_list-texts m.required_roles h.roles,
        compact_again IsSchema question_schema schema_value m.clarification_schemas
            question_schema-value h.schemas,
        string_list-texts m.clarification_questions
            (IsQuestions-clean m.clarification_questions m.clarification_schemas h.questions),
        questions_or_titles-same m.clarification_questions m.clarification_schemas h.questions,
        compact_again IsCreated created_task created_value m.created_tasks created_task-value
            h.created,
        compact_again IsDeferred deferred_task deferred_value m.deferred_tasks deferred_task-value
            h.deferred,
        compact_again IsOpportunity opportunity opportunity_value m.completion_opportunities
            opportunity-value h.opportunities,
        optional_text-option_text m.handoff_plan h.handoff_plan,
        optional_text-option_text m.notes h.notes,
      )
      refl

controller_manifest-IsManifest :
    (raw : Value) (m : ControllerManifest) → controller_manifest raw ≡ some m → IsManifest m
unfolding controller_manifest question_schemas
controller_manifest-IsManifest raw m h =
    let schemas =
      compact-All IsSchema question_schema (list_of (field raw "clarificationSchemas"))
        question_schema-IsSchema in
    elim (Bool-cases (is_object raw && str_truthy (trimmed (field raw "requirementSummary")))) [
      | inr bad ↦ absurd (none-some (rw bad at h))
      | inl good ↦ rw (← some_inj (rw good at h)) (record {
        version = version_of-IsClean (field raw "version");
        project_name = project_name-IsProjectName (field raw "projectName");
        summary = trimmed-IsClean (field raw "requirementSummary") (ground arith);
        roles = role_list-IsRoleList (field raw "requiredRoles");
        questions =
            questions_or_titles-IsQuestions (string_list (field raw "clarificationQuestions")) _
              (string_list-IsClean (field raw "clarificationQuestions")) schemas;
        schemas = schemas;
        created =
            compact-All IsCreated created_task (list_of (field raw "createdTasks"))
              created_task-IsCreated;
        deferred =
            compact-All IsDeferred deferred_task (list_of (field raw "deferredTasks"))
              deferred_task-IsDeferred;
        handoff_plan = optional_text-IsClean (field raw "handoffPlan");
        notes = optional_text-IsClean (field raw "notes");
        opportunities =
            compact-All IsOpportunity opportunity (list_of (field raw "completionOpportunities"))
              opportunity-IsOpportunity;
      })
    ]

-- Whatever value the controller's agent submits, if it normalises to a plan, then that plan, taken as
-- a value again, normalises to itself: the name of the project, the distinct roles, the questions,
-- the tasks and the opportunities stay as they are.
pub controller_manifest_again :
    (raw : Value) (m : ControllerManifest)
    → controller_manifest raw ≡ some m
    → controller_manifest (manifest_value m) ≡ some m
controller_manifest_again raw m h =
    controller_manifest-value m (controller_manifest-IsManifest raw m h)
