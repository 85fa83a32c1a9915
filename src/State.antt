-- ===== src/State.antt =====
-- src/src/state.ts: the saved state of the team is checked and brought to the current version when it is
-- loaded. Reading, parsing and writing the file is not modelled. An array to which the code adds fields
-- becomes the object of its fields, as which the program reads it.
pub mod Setting
pub mod Complete
pub mod Readiness
pub mod Again
use teamclaw.Prelude.{
  ℕ, ◌+◌, decimal, String, Bool, true, false, ◌&&◌, ◌||◌, not, Option, none, some, List, [], ◌∷◌,
  ltb, ◌==◌, if◌then◌else◌, str_eq, str_trim, str_truthy,
}
use teamclaw.Value.{
  Value, Number, Items, nil, cons, Fields, end, with, undefined, null, boolean, number, text, array,
  object, field, lookup, truthy, is_object, list_of, natural, at_least, texts,
}

abbrev pub state_version : ℕ
state_version = 2

-- state.name = value
unfoldable pub set : Fields → String → Value → Fields
set end name v = with name v end
set (with k w fs) name v =
    let rest = set fs name v in if str_eq k name then with k v fs else with k w rest

-- delete state.name
unfoldable pub unset : Fields → String → Fields
unset end name = end
unset (with k w fs) name = let rest = unset fs name in if str_eq k name then rest else with k w rest

abbrev pub is_undefined : Value → Bool
is_undefined undefined = true
is_undefined _ = false

-- state.name = value, where the value may be undefined: such a field reads as one that is not there, is
-- not written to a file, and is left out.
unfoldable pub assign : Fields → String → Value → Fields
unfolding set unset
assign fs name v = if is_undefined v then unset fs name else set fs name v

abbrev pub is_text : Value → Bool
is_text (text s) = true
is_text _ = false

abbrev pub is_number : Value → Bool
is_number (number n) = true
is_number _ = false

abbrev pub is_array : Value → Bool
is_array (array vs) = true
is_array _ = false

-- The guard on the structure.
abbrev pub is_state : Fields → Bool
is_state fs =
    is_text (lookup fs "teamName")
    && is_number (lookup fs "createdAt")
    && is_number (lookup fs "updatedAt")
    && truthy (lookup fs "workers")
    && truthy (lookup fs "tasks")

unfoldable pub with_object : String → Fields → Fields
unfolding set
with_object name fs = if is_object (lookup fs name) then fs else set fs name (object end)

unfoldable pub with_messages : Fields → Fields
unfolding set
with_messages fs = if is_array (lookup fs "messages") then fs else set fs "messages" (texts [])

unfoldable pub without_bad_repo : Fields → Fields
unfolding unset
without_bad_repo fs =
    if truthy (lookup fs "repo") && not (is_object (lookup fs "repo")) then unset fs "repo" else fs

-- The texts of a list, as they are.
unfoldable pub only_texts : List Value → List String
only_texts [] = []
only_texts (v ∷ vs) = let rest = only_texts vs in elim v [ text s ↦ s ∷ rest | _ ↦ rest ]

abbrev pub known_status : Value → Bool
known_status (text s) = str_eq s "checking" || str_eq s "ready" || str_eq s "degraded"
known_status _ = false

abbrev pub attempts_of : Value → ℕ
attempts_of (number n) = if at_least 0 n then n.whole else 0
attempts_of _ = 0

abbrev pub message_of : Value → Value
message_of (text s) = if str_truthy (str_trim s) then text s else undefined
message_of _ = undefined

-- A record of the readiness.
abbrev pub readiness_of : Value → Value → Value → ℕ → List String → List String → Value → Value
readiness_of status started_at checked_at attempts required_roles ready_worker_ids message =
    object (
      with "status" status (
        with "startedAt" started_at (
          with "checkedAt" checked_at (
            with "attempts" (number (natural attempts)) (
              with "requiredRoles" (texts required_roles)
                (with "readyWorkerIds" (texts ready_worker_ids) (with "message" message end)))))))

-- `normalizeStartupReadiness`
unfoldable pub startup_readiness : Value → Value
unfolding only_texts
startup_readiness raw =
    if known_status (field raw "status")
      && is_number (field raw "startedAt")
      && is_number (field raw "checkedAt")
    then readiness_of (field raw "status") (field raw "startedAt") (field raw "checkedAt")
        (attempts_of (field raw "attempts")) (only_texts (list_of (field raw "requiredRoles")))
        (only_texts (list_of (field raw "readyWorkerIds"))) (message_of (field raw "message"))
    else undefined

-- The fields of an array: its indices.
unfoldable pub indexed : ℕ → Items → Fields
indexed n nil = end
indexed n (cons v vs) = with (decimal n) v (indexed (n + 1) vs)

-- The branch of an object, or of an array.
unfoldable pub with_readiness : Fields → Fields
unfolding with_object startup_readiness assign
with_readiness fs =
    assign (with_object "workers" fs) "startupReadiness"
      (startup_readiness (lookup fs "startupReadiness"))

unfoldable pub provisioning_state : Value → Value
unfolding with_readiness indexed
provisioning_state (object fs) = object (with_readiness fs)
provisioning_state (array vs) = object (with_readiness (indexed 0 vs))
provisioning_state _ = object (with "workers" (object end) end)

abbrev pub saved_version : Fields → Number
saved_version fs = elim (lookup fs "version") [ number n ↦ n | _ ↦ natural 1 ]

-- version > STATE_VERSION
abbrev pub is_newer : Number → Bool
is_newer n =
    not n.is_negative && (ltb state_version n.whole || n.whole == state_version && ltb 0 n.fraction)

-- The nested objects and lists that must be there.
unfoldable pub with_parts : Fields → Fields
unfolding set provisioning_state with_object with_messages without_bad_repo
with_parts fs =
    let s = without_bad_repo (
      with_object "clarifications"
        (with_messages (with_object "projects" (with_object "controllerRuns" fs)))) in
    set s "provisioning" (provisioning_state (lookup s "provisioning"))

pub data Migrated : Type 0 where
  rejected : Migrated
  unsupported : Number → Migrated
  migrated : Value → Migrated

-- `migrateState`
unfoldable pub migrate_state : Value → Migrated
unfolding with_parts set
migrate_state (object fs) =
    if is_state fs
    then if is_newer (saved_version fs)
      then unsupported (saved_version fs)
      else migrated (object (set (with_parts fs) "version" (number (natural state_version))))
    else rejected
migrate_state _ = rejected

-- `loadTeamState`; none is given for a file that cannot be read or parsed.
unfoldable pub load_team_state : Option Value → Option Value
unfolding migrate_state
load_team_state none = none
load_team_state (some raw) = elim (migrate_state raw) [ migrated v ↦ some v | _ ↦ none ]

-- `loadWorkerIdentity`
unfoldable pub load_worker_identity : Option Value → Option Value
load_worker_identity none = none
load_worker_identity (some raw) =
    if is_text (field raw "workerId")
      && is_text (field raw "role")
      && is_text (field raw "controllerUrl")
      && is_number (field raw "registeredAt")
    then some raw
    else none
