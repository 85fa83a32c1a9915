-- ===== src/Manifest/Questions.antt =====
-- The questions of a plan are read again as they are.
use teamclaw.Prelude.{
  ◌≡◌, refl, inl, inr, Bool-cases, true, not, ◌&&◌, Option, none, some, List, map, All, str_truthy,
  str_trim, arith, some_inj, none-some,
}
use teamclaw.Team.{QuestionKind}
use teamclaw.Value.{
  Value, Number, undefined, boolean, number, text, array, object, with, end, option_text, field,
  is_object, of_list, list_of,
}
use teamclaw.Contracts.Fields.{trimmed}
use teamclaw.Contracts.Clean.{
  IsClean, IsCleanOption, trimmed-IsClean, optional_text-IsClean, trimmed-text,
  optional_text-option_text, compact-All, compact_again,
}
use teamclaw.Manifest.{
  QuestionOption, QuestionSchema, question_kind, question_kind_name, question_option,
  question_options, schema_of, question_schema, is_select, is_empty, finite,
}

abbrev pub option_number : Option Number → Value
option_number none = undefined
option_number (some n) = number n

finite-option_number : (o : Option Number) → finite (option_number o) ≡ o
finite-option_number none = refl
finite-option_number (some n) = refl

abbrev pub option_value : QuestionOption → Value
option_value o = object (
    with "value" (text o.value)
      (with "label" (text o.label) (with "hint" (option_text o.hint) end)))

-- The options of a schema; the source leaves out an empty list, which reads the same.
abbrev pub options_value : List QuestionOption → Value
options_value os = array (of_list (map option_value os))

abbrev pub schema_value : QuestionSchema → Value
schema_value q = object (
    with "kind" (text (question_kind_name q.kind)) (
      with "title" (text q.title) (
        with "description" (option_text q.description) (
          with "required" (boolean q.required) (
            with "allowOther" (boolean q.allow_other) (
              with "placeholder" (option_text q.placeholder) (
                with "unit" (option_text q.unit) (
                  with "options" (options_value q.options) (
                    with "min" (option_number q.min) (
                      with "max" (option_number q.max)
                        (with "step" (option_number q.step) end)))))))))))

abbrev pub IsOption : QuestionOption → Type 0
IsOption o = IsClean o.value × IsClean o.label × IsCleanOption o.hint

pub question_option-value :
    (o : QuestionOption) → IsOption o → question_option (option_value o) ≡ some o
unfolding question_option
question_option-value o h =
    rw
      (
        trimmed-text o.value h.0,
        trimmed-text o.label h.1,
        h.0.1,
        h.1.1,
        optional_text-option_text o.hint h.2,
      )
      refl

question_option-IsOption :
    (v : Value) (o : QuestionOption) → question_option v ≡ some o → IsOption o
unfolding question_option
question_option-IsOption v o h =
    elim (Bool-cases (
      is_object v
      && (str_truthy (trimmed (field v "value")) && str_truthy (trimmed (field v "label"))))) [
        | inr bad ↦ absurd (none-some (rw bad at h))
        | inl good ↦ rw (← some_inj (rw good at h)) (
          trimmed-IsClean (field v "value") (ground arith),
          trimmed-IsClean (field v "label") (ground arith),
          optional_text-IsClean (field v "hint"),
        )
      ]

pub record IsSchema (q : QuestionSchema) : Type 0 where
  pub title : IsClean q.title
  pub description : IsCleanOption q.description
  pub options : All IsOption q.options
  pub placeholder : IsCleanOption q.placeholder
  pub unit : IsCleanOption q.unit
  pub choice : not (is_select q.kind && is_empty q.options) ≡ true

question_kind-text : (k : QuestionKind) → question_kind (text (question_kind_name k)) ≡ some k
unfolding question_kind trimmed str_trim
question_kind-text QuestionKind.single_select = refl
question_kind-text QuestionKind.multi_select = refl
question_kind-text QuestionKind.number = refl
question_kind-text QuestionKind.text = refl

pub question_schema-value :
    (q : QuestionSchema) → IsSchema q → question_schema (schema_value q) ≡ some q
unfolding question_schema schema_of question_options
question_schema-value q h =
    rw
      (
        question_kind-text q.kind,
        trimmed-text q.title h.title,
        h.title.1,
        compact_again IsOption question_option option_value q.options question_option-value
            h.options,
        h.choice,
        optional_text-option_text q.description h.description,
        optional_text-option_text q.placeholder h.placeholder,
        optional_text-option_text q.unit h.unit,
        finite-option_number q.min,
        finite-option_number q.max,
        finite-option_number q.step,
      )
      refl

schema_of-IsSchema :
    (k : Option QuestionKind) (v : Value) (q : QuestionSchema) → schema_of k v ≡ some q → IsSchema q
unfolding schema_of question_options
schema_of-IsSchema none v q h = absurd (none-some h)
schema_of-IsSchema (some k) v q h =
    let options = question_options (field v "options") in
    elim (Bool-cases
      (str_truthy (trimmed (field v "title")) && not (is_select k && is_empty options))) [
        | inr bad ↦ absurd (none-some (rw bad at h))
        | inl good ↦ rw (← some_inj (rw good at h)) (record {
          title = trimmed-IsClean (field v "title") (ground arith);
          description = optional_text-IsClean (field v "description");
          options =
              compact-All IsOption question_option (list_of (field v "options"))
                question_option-IsOption;
          placeholder = optional_text-IsClean (field v "placeholder");
          unit = optional_text-IsClean (field v "unit");
          choice = ground arith;
        })
      ]

pub question_schema-IsSchema :
    (v : Value) (q : QuestionSchema) → question_schema v ≡ some q → IsSchema q
unfolding question_schema
question_schema-IsSchema v q h = elim (Bool-cases (is_object v)) [
  | inr bad ↦ absurd (none-some (rw bad at h))
  | inl good ↦ schema_of-IsSchema (question_kind (field v "kind")) v q (rw good at h)
]
