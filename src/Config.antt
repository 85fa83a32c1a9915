-- ===== src/Config.antt =====
-- The configuration of the plugin: `parsePluginConfig` of src/src/types.ts and the questions that
-- src/src/controller/controller-capacity.ts asks of it.
pub mod Parts
pub mod Checked
use teamclaw.Prelude.{
  ℕ, String, Bool, true, false, ◌&&◌, ◌||◌, not, Option, none, some, List, [], Dict, max, leb,
  length, ◌==◌, str_truthy, str_eq, if◌then◌else◌,
}
use teamclaw.Team.{TeamState, ProvisioningType}
use teamclaw.Value.{
  Value, Number, undefined, number, text, boolean, field, natural, at_least, is_below, is_positive,
  is_integer,
}
use teamclaw.Contracts.Fields.{trimmed, is_role}
use teamclaw.Config.Parts.{
  trimmed_or_default, number_from, floor_from, string_array, string_record, role_array, role_models,
  first_text, flag_or, is_true,
}

-- `TeamClawMode`
pub data Mode : Type 0 where
  controller worker : Mode

-- `ProcessModel`
pub data ProcessModel : Type 0 where
  multi : ProcessModel

-- `AgentIsolationMode`
pub data IsolationMode : Type 0 where
  independent main : IsolationMode

pub record PluginConfig : Type 0 where
  pub mode : Mode
  pub port : Number
  pub role : String
  pub controller_url : String
  pub team_name : String
  pub heartbeat_interval_ms : Number
  pub process_model : ProcessModel
  pub role_model_overrides : Option (Dict String)
  pub task_timeout_ms : Number
  pub git_enabled : Bool
  pub git_remote_url : String
  pub git_default_branch : String
  pub git_author_name : String
  pub git_author_email : String
  pub github_client_id : String
  pub github_client_secret : String
  pub agent_isolation_mode : IsolationMode
  pub worker_provisioning_type : ProvisioningType
  pub worker_provisioning_disabled : Bool
  pub worker_provisioning_controller_url : String
  pub worker_provisioning_roles : List String
  pub worker_provisioning_min_per_role : ℕ
  pub worker_provisioning_max_per_role : ℕ
  pub worker_provisioning_idle_ttl_ms : Number
  pub worker_provisioning_startup_timeout_ms : Number
  pub worker_provisioning_image : String
  pub worker_provisioning_pass_env : List String
  pub worker_provisioning_extra_env : Dict String
  pub worker_provisioning_docker_network : String
  pub worker_provisioning_docker_mounts : List String
  pub worker_provisioning_workspace_root : String
  pub worker_provisioning_docker_workspace_volume : String
  pub worker_provisioning_kubernetes_namespace : String
  pub worker_provisioning_kubernetes_context : String
  pub worker_provisioning_kubernetes_service_account : String
  pub worker_provisioning_kubernetes_image_pull_secrets : List String
  pub worker_provisioning_kubernetes_workspace_persistent_volume_claim : String
  pub worker_provisioning_kubernetes_labels : Dict String
  pub worker_provisioning_kubernetes_annotations : Dict String
  pub max_concurrent_tasks : ℕ

abbrev default_github_client_id : String
default_github_client_id = "Iv23liqWmzrS3swGiIvK"

abbrev published_runtime_image : String
published_runtime_image = "ghcr.io/topcheer/teamclaw-openclaw:latest"

abbrev mode_of : Value → Mode
mode_of (text s) = if str_eq s "controller" then Mode.controller else Mode.worker
mode_of _ = Mode.worker

abbrev port_of : Value → Number
port_of (number n) = if is_positive n && is_below 65536 n then n else natural 9527
port_of _ = natural 9527

abbrev role_of : Value → String
unfolding is_role
role_of (text s) = if is_role s then s else "developer"
role_of _ = "developer"

-- `parseProcessModel`: both of its branches give "multi".
abbrev process_model_of : Value → ProcessModel
process_model_of raw = ProcessModel.multi

abbrev isolation_of : Value → IsolationMode
isolation_of (text s) = if str_eq s "main" then IsolationMode.main else IsolationMode.independent
isolation_of _ = IsolationMode.independent

-- `parseProvisioningType`
abbrev provisioning_type_of : Value → ProvisioningType
provisioning_type_of (text s) =
    if str_eq s "process"
    then ProvisioningType.process
    else if str_eq s "docker"
    then ProvisioningType.docker
    else if str_eq s "kubernetes"
    then ProvisioningType.kubernetes
    else ProvisioningType.none
provisioning_type_of _ = ProvisioningType.none

abbrev pub is_controller : Mode → Bool
is_controller Mode.controller = true
is_controller Mode.worker = false

abbrev pub is_none : ProvisioningType → Bool
is_none ProvisioningType.none = true
is_none _ = false

abbrev pub runs_containers : ProvisioningType → Bool
runs_containers ProvisioningType.docker = true
runs_containers ProvisioningType.kubernetes = true
runs_containers _ = false

-- A controller without provisioning starts processes, unless provisioning is disabled.
abbrev effective_type : Mode → ProvisioningType → Bool → ProvisioningType
effective_type mode type disabled =
    if is_controller mode && (is_none type && not disabled) then ProvisioningType.process else type

-- The outcome of `parsePluginConfig`; the error holds the value that its message names.
pub data Parsed : Type 0 where
  parsed : PluginConfig → Parsed
  bad_max_concurrent_tasks : Value → Parsed

abbrev pub fits_concurrency : Number → Bool
fits_concurrency n = is_integer n && (at_least 1 n && leb n.whole 50)

unfoldable pub max_concurrent : Value → Option ℕ
max_concurrent undefined = some 5
max_concurrent (number n) = if fits_concurrency n then some n.whole else none
max_concurrent _ = none

unfoldable pub config_of : Value → ℕ → PluginConfig
unfolding trimmed trimmed_or_default number_from floor_from string_array role_array string_record
    role_models role_of
config_of raw max_concurrent_tasks =
    let mode = mode_of (field raw "mode") in
    let disabled = is_true (field raw "workerProvisioningDisabled") in
    let type =
      effective_type mode (provisioning_type_of (field raw "workerProvisioningType")) disabled in
    let min_per_role = floor_from 0 0 (field raw "workerProvisioningMinPerRole") in
    let volume = trimmed (field raw "workerProvisioningDockerWorkspaceVolume") in
    let claim = trimmed (field raw "workerProvisioningKubernetesWorkspacePersistentVolumeClaim") in
    record {
      mode = mode;
      port = port_of (field raw "port");
      role = role_of (field raw "role");
      controller_url = trimmed (field raw "controllerUrl");
      team_name = trimmed_or_default "TeamClaw" (field raw "teamName");
      heartbeat_interval_ms = number_from 1000 10000 (field raw "heartbeatIntervalMs");
      process_model = process_model_of (field raw "processModel");
      role_model_overrides = role_models (field raw "roleModelOverrides");
      task_timeout_ms = number_from 1000 600000 (field raw "taskTimeoutMs");
      git_enabled = flag_or true (field raw "gitEnabled");
      git_remote_url = trimmed (field raw "gitRemoteUrl");
      git_default_branch = trimmed_or_default "main" (field raw "gitDefaultBranch");
      git_author_name = trimmed_or_default "TeamClaw" (field raw "gitAuthorName");
      git_author_email = trimmed_or_default "teamclaw@local" (field raw "gitAuthorEmail");
      github_client_id = trimmed_or_default default_github_client_id (field raw "githubClientId");
      github_client_secret = trimmed (field raw "githubClientSecret");
      agent_isolation_mode = isolation_of (field raw "agentIsolationMode");
      worker_provisioning_type = type;
      worker_provisioning_disabled = disabled;
      worker_provisioning_controller_url = trimmed (field raw "workerProvisioningControllerUrl");
      worker_provisioning_roles = role_array (field raw "workerProvisioningRoles");
      worker_provisioning_min_per_role = min_per_role;
      worker_provisioning_max_per_role =
          max (floor_from 1 3 (field raw "workerProvisioningMaxPerRole")) min_per_role;
      worker_provisioning_idle_ttl_ms =
          number_from 1000 120000 (field raw "workerProvisioningIdleTtlMs");
      worker_provisioning_startup_timeout_ms =
          number_from 1000 120000 (field raw "workerProvisioningStartupTimeoutMs");
      worker_provisioning_image =
          first_text (trimmed (field raw "workerProvisioningImage"))
            (if runs_containers type then published_runtime_image else "");
      worker_provisioning_pass_env = string_array (field raw "workerProvisioningPassEnv");
      worker_provisioning_extra_env = string_record (field raw "workerProvisioningExtraEnv");
      worker_provisioning_docker_network = trimmed (field raw "workerProvisioningDockerNetwork");
      worker_provisioning_docker_mounts = string_array (field raw "workerProvisioningDockerMounts");
      worker_provisioning_workspace_root =
          first_text (trimmed (field raw "workerProvisioningWorkspaceRoot"))
            (if str_truthy volume || str_truthy claim then "/workspace-root" else "");
      worker_provisioning_docker_workspace_volume = volume;
      worker_provisioning_kubernetes_namespace =
          trimmed_or_default "default" (field raw "workerProvisioningKubernetesNamespace");
      worker_provisioning_kubernetes_context =
          trimmed (field raw "workerProvisioningKubernetesContext");
      worker_provisioning_kubernetes_service_account =
          trimmed (field raw "workerProvisioningKubernetesServiceAccount");
      worker_provisioning_kubernetes_image_pull_secrets =
          string_array (field raw "workerProvisioningKubernetesImagePullSecrets");
      worker_provisioning_kubernetes_workspace_persistent_volume_claim = claim;
      worker_provisioning_kubernetes_labels =
          string_record (field raw "workerProvisioningKubernetesLabels");
      worker_provisioning_kubernetes_annotations =
          string_record (field raw "workerProvisioningKubernetesAnnotations");
      max_concurrent_tasks = max_concurrent_tasks;
    }

-- `parsePluginConfig`
unfoldable pub parse_plugin_config : Value → Parsed
unfolding max_concurrent config_of
parse_plugin_config raw = elim (max_concurrent (field raw "maxConcurrentTasks")) [
  | none ↦ bad_max_concurrent_tasks (field raw "maxConcurrentTasks")
  | some n ↦ parsed (config_of raw n)
]

-- `hasOnDemandWorkerProvisioning`
abbrev pub has_on_demand_provisioning : PluginConfig → Bool
has_on_demand_provisioning c =
    not (is_none c.worker_provisioning_type) && not c.worker_provisioning_disabled

-- `shouldBlockControllerWithoutWorkers`
unfoldable pub blocks_without_workers : PluginConfig → Option TeamState → Bool
blocks_without_workers c none = false
blocks_without_workers c (some s) = length s.workers == 0 && not (has_on_demand_provisioning c)
