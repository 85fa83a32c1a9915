-- ===== src/Provisioning/Gate.antt =====
-- The gate of src/src/controller/http-server.ts that refuses new work until the workers that the start
-- needs are there, or a check of the start has found them once.
use teamclaw.Prelude.{
  ℕ, String, Bool, false, ◌&&◌, not, Option, none, some, List, [], ◌∷◌, ◌==◌, if◌then◌else◌, get_or,
  ◌<>◌, join, str_truthy, length,
}
use teamclaw.Team.{TeamState}
use teamclaw.Provisioning.Startup.{
  ReadinessStatus, Readiness, is_ready, startup_roles, ready_worker, ready_message,
}

-- The workers found for the roles; an empty id counts as none.
unfoldable pub named_ids : TeamState → List String → List String
named_ids s [] = []
named_ids s (role ∷ roles) =
    let rest = named_ids s roles in
    elim (ready_worker s role) [
      | none ↦ rest
      | some w ↦ if str_truthy w.id then w.id ∷ rest else rest
    ]

abbrev pub was_ready : Option Readiness → Bool
was_ready none = false
was_ready (some r) = is_ready r.status

-- `getEffectiveStartupReadiness` of an enabled manager; `recorded` is the record of the last check.
unfoldable pub effective_readiness : List String → ℕ → ℕ → Option Readiness → TeamState → Readiness
unfolding named_ids
effective_readiness configured created_at now recorded s =
    let required = startup_roles configured in
    let ids = named_ids s required in
    if length ids == length required
    then record {
      status = ReadinessStatus.ready;
      started_at = elim recorded [ none ↦ created_at | some r ↦ r.started_at ];
      checked_at = now;
      attempts = elim recorded [ none ↦ 0 | some r ↦ r.attempts ];
      required_roles = required;
      ready_worker_ids = ids;
      message = elim recorded [
        | none ↦ ready_message ids
        | some r ↦ if is_ready r.status then r.message else ready_message ids
      ];
    }
    else get_or recorded record {
      status = ReadinessStatus.checking;
      started_at = created_at;
      checked_at = now;
      attempts = 0;
      required_roles = required;
      ready_worker_ids = ids;
      message = some (
          "Startup provisioning warm-up is still initializing for " <> (join ", " required <> "."));
    }

-- `buildStartupReadinessMessage`
unfoldable pub readiness_message : Readiness → String
readiness_message r =
    let roles : String = elim r.required_roles [
      | [] ↦ "configured startup roles"
      | _ ∷ _ ↦ join ", " r.required_roles
    ] in
    let default : String = elim r.status [
      | ReadinessStatus.ready ↦ "Startup provisioning is ready."
      | ReadinessStatus.checking ↦
          "Startup provisioning is still warming workers for " <> (roles <> ".")
      | ReadinessStatus.degraded ↦
          "Startup provisioning is degraded for "
          <> (roles <> ". Check provisioning logs and fix worker startup before retrying.")
    ] in
    get_or r.message default

-- `shouldBlockControllerUntilProvisioningReady`
unfoldable pub is_startup_blocked : Bool → List String → ℕ → ℕ → Option Readiness → TeamState → Bool
unfolding effective_readiness
is_startup_blocked enabled configured created_at now recorded s =
    enabled && not (is_ready (effective_readiness configured created_at now recorded s).status)
