-- ===== src/Contracts/Roundtrip.antt =====
-- A contract that was normalised once is read again without a change, as the controller reads what a
-- worker has already normalised.
use teamclaw.Prelude.{
  ◌≡◌, refl, inl, inr, Bool-cases, ◌&&◌, some, All, str_truthy, str_trim, arith, some_inj,
  none-some,
}
use teamclaw.Team.{Intent, MessageContract}
use teamclaw.Value.{Value, text, texts, option_text, boolean, object, with, end, field, is_object}
use teamclaw.Contracts.{message_contract, message_intent, intent_name}
use teamclaw.Contracts.Fields.{trimmed}
use teamclaw.Contracts.Clean.{
  IsClean, IsCleanOption, IsRoleOption, trimmed-IsClean, string_list-IsClean, optional_text-IsClean,
  contract_role-IsRole, version_of-IsClean, trimmed-text, string_list-texts,
  optional_text-option_text, contract_role-option_text, version_of-text,
}

message_intent-text : (i : Intent) → message_intent (text (intent_name i)) ≡ some i
unfolding message_intent str_trim
message_intent-text Intent.question = refl
message_intent-text Intent.announcement = refl
message_intent-text Intent.handoff = refl
message_intent-text Intent.review_request = refl
message_intent-text Intent.review_response = refl
message_intent-text Intent.update = refl
message_intent-text Intent.coordination = refl

-- A contract as the object that stands for it.
abbrev pub message_value : MessageContract → Value
message_value c = object (
    with "version" (text c.version) (
      with "intent" (text (intent_name c.intent)) (
        with "summary" (text c.summary) (
          with "details" (option_text c.details) (
            with "requestedAction" (option_text c.requested_action) (
              with "requestedRole" (option_text c.requested_role) (
                with "needsResponse" (boolean c.needs_response)
                  (with "references" (texts c.references) end))))))))

pub record IsMessage (c : MessageContract) : Type 0 where
  pub version : IsClean c.version
  pub summary : IsClean c.summary
  pub details : IsCleanOption c.details
  pub requested_action : IsCleanOption c.requested_action
  pub requested_role : IsRoleOption c.requested_role
  pub references : All IsClean c.references

message_contract-value :
    (c : MessageContract) → IsMessage c → message_contract (message_value c) ≡ some c
unfolding message_contract
message_contract-value c h =
    rw
      (
        trimmed-text c.summary h.summary,
        h.summary.1,
        version_of-text c.version h.version,
        message_intent-text c.intent,
        optional_text-option_text c.details h.details,
        optional_text-option_text c.requested_action h.requested_action,
        contract_role-option_text c.requested_role h.requested_role,
        string_list-texts c.references h.references,
      )
      refl

message_contract-IsMessage :
    (raw : Value) (c : MessageContract) → message_contract raw ≡ some c → IsMessage c
unfolding message_contract
message_contract-IsMessage raw c h =
    elim (Bool-cases (is_object raw && str_truthy (trimmed (field raw "summary")))) [
      | inr bad ↦ absurd (none-some (rw bad at h))
      | inl good ↦
          let same = some_inj (rw good at h) in
          rw (← same) (record {
            version = version_of-IsClean (field raw "version");
            summary = trimmed-IsClean (field raw "summary") (ground arith);
            details = optional_text-IsClean (field raw "details");
            requested_action = optional_text-IsClean (field raw "requestedAction");
            requested_role = contract_role-IsRole (field raw "requestedRole");
            references = string_list-IsClean (field raw "references");
          })
    ]

-- Whatever value a sender gives, if it normalises to a message contract, then that contract, taken as
-- a value again, normalises to itself.
pub message_contract_again :
    (raw : Value) (c : MessageContract)
    → message_contract raw ≡ some c
    → message_contract (message_value c) ≡ some c
message_contract_again raw c h = message_contract-value c (message_contract-IsMessage raw c h)
