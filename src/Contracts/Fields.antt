-- ===== src/Contracts/Fields.antt =====
-- The readers of single fields in src/src/interaction-contracts.ts.
use teamclaw.Prelude.{
  String, Bool, Option, none, some, List, [], ◌∷◌, map, filter, any, str_truthy, str_eq, str_trim,
  if◌then◌else◌,
}
use teamclaw.Value.{Value, text, list_of}

-- typeof raw === "string" ? raw.trim() : ""
unfoldable pub trimmed : Value → String
unfolding str_trim
trimmed (text s) = str_trim s
trimmed _ = ""

-- `normalizeContractStringList`
unfoldable pub string_list : Value → List String
unfolding trimmed
string_list raw = filter (λ s. str_truthy s) (map trimmed (list_of raw))

-- `normalizeOptionalContractText`
unfoldable pub optional_text : Value → Option String
unfolding trimmed
optional_text raw = let s = trimmed raw in if str_truthy s then some s else none

-- The ids of src/src/roles.ts, of `VALID_ROLES` and of `TEAMCLAW_ROLE_IDS`.
abbrev pub role_ids : List String
role_ids =
    "pm" ∷ "architect" ∷ "developer" ∷ "qa" ∷ "release-engineer" ∷ "infra-engineer" ∷ "devops"
    ∷ "security-engineer" ∷ "designer" ∷ "marketing" ∷ "data-engineer" ∷ []

unfoldable pub is_role : String → Bool
is_role s = any (λ r. str_eq r s) role_ids

-- `normalizeContractRole`; the empty text is no role.
unfoldable pub contract_role : Value → Option String
unfolding trimmed is_role
contract_role raw = let s = trimmed raw in if is_role s then some s else none

-- The version that a contract names, or `CONTRACT_VERSION`.
unfoldable pub version_of : Value → String
unfolding trimmed
version_of raw = let s = trimmed raw in if str_truthy s then s else "1.0"

-- xs.filter((x) => !!x)
abbrev pub compact {ℓ} : {A : Type ℓ} → List (Option A) → List A
compact [] = []
compact (none ∷ xs) = compact xs
compact (some x ∷ xs) = x ∷ compact xs
