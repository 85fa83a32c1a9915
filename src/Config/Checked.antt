-- ===== src/Config/Checked.antt =====
-- What the rest of the program may rely on in a configuration.
use teamclaw.Prelude.{
  ℕ, String, ◌≡◌, ◌≤◌, ◌⊎◌, inl, inr, refl, Bool, Bool-cases, true, false, ◌&&◌, ◌||◌, none, some,
  [], map, filter, All, All-map, All-filter_holds, All_lem, str_truthy, arith, if◌then◌else◌,
}
use teamclaw.Team.{ProvisioningType}
use teamclaw.Value.{
  Value, undefined, null, boolean, number, text, array, object, field, at_least, is_below,
  is_positive, is_integer, list_of,
}
use teamclaw.Contracts.{plain_text}
use teamclaw.Contracts.Fields.{is_role, compact, trimmed}
use teamclaw.Manifest.Roles.{Distinct, unique_after-Distinct, unique_after-All}
use teamclaw.Config.{
  PluginConfig, Mode, parsed, bad_max_concurrent_tasks, parse_plugin_config, config_of,
  max_concurrent, fits_concurrency, is_controller, is_none, runs_containers, effective_type,
  mode_of, port_of, role_of, provisioning_type_of, published_runtime_image,
}
use teamclaw.Config.Parts.{number_from, floor_from, role_array, first_text, is_true}

-- The setting is absent, or a whole number from 1 to 50.
abbrev pub IsConcurrency : Value → Type 0
IsConcurrency undefined = Unit
IsConcurrency (number n) =
    (is_integer n ≡ true) × (n.is_negative ≡ false) × (1 ≤ n.whole) × (n.whole ≤ 50)
IsConcurrency _ = ⊥

max_concurrent-cases :
    (v : Value)
    → ((max_concurrent v ≡ none) × ¬ (IsConcurrency v))
      ⊎ ((m : ℕ) × (max_concurrent v ≡ some m) × IsConcurrency v × (1 ≤ m) × (m ≤ 50))
unfolding max_concurrent
max_concurrent-cases undefined = inr (5, refl, tt, omega arith, omega arith)
max_concurrent-cases (number n) = elim (Bool-cases (fits_concurrency n)) [
  | inl fits ↦ inr (
    n.whole,
    rw fits refl,
    (ground arith, ground arith, ground arith, ground arith),
    ground arith,
    ground arith,
  )
  | inr unfit ↦ inl (rw unfit refl, λ h. ground (arith, h))
]
max_concurrent-cases null = inl (refl, λ h. h)
max_concurrent-cases (boolean b) = inl (refl, λ h. h)
max_concurrent-cases (text s) = inl (refl, λ h. h)
max_concurrent-cases (array vs) = inl (refl, λ h. h)
max_concurrent-cases (object fs) = inl (refl, λ h. h)

at_least-number_from :
    (least other : ℕ) (v : Value)
    → least ≤ other
    → at_least least (number_from least other v) ≡ true
unfolding number_from
at_least-number_from least other (number n) h = ground arith
at_least-number_from least other undefined h = ground arith
at_least-number_from least other null h = ground arith
at_least-number_from least other (boolean b) h = ground arith
at_least-number_from least other (text s) h = ground arith
at_least-number_from least other (array vs) h = ground arith
at_least-number_from least other (object fs) h = ground arith

floor_from-le : (least other : ℕ) (v : Value) → least ≤ other → least ≤ floor_from least other v
unfolding floor_from
floor_from-le least other (number n) h = ground arith
floor_from-le least other undefined h = ground arith
floor_from-le least other null h = ground arith
floor_from-le least other (boolean b) h = ground arith
floor_from-le least other (text s) h = ground arith
floor_from-le least other (array vs) h = ground arith
floor_from-le least other (object fs) h = ground arith

port_lem : (v : Value) → is_positive (port_of v) && is_below 65536 (port_of v) ≡ true
port_lem (number n) = elim (Bool-cases (is_positive n && is_below 65536 n)) [
  | inl fits ↦ rw fits fits
  | inr unfit ↦ rw unfit refl
]
port_lem undefined = refl
port_lem null = refl
port_lem (boolean b) = refl
port_lem (text s) = refl
port_lem (array vs) = refl
port_lem (object fs) = refl

role_lem : (v : Value) → is_role (role_of v) ≡ true
unfolding role_of is_role
role_lem (text s) = elim (Bool-cases (is_role s)) [
  | inl role ↦ rw role role
  | inr other ↦ rw other refl
]
role_lem undefined = refl
role_lem null = refl
role_lem (number n) = refl
role_lem (boolean b) = refl
role_lem (array vs) = refl
role_lem (object fs) = refl

-- The settings agree with each other and are in their ranges.
pub record IsConfig (c : PluginConfig) : Type 0 where
  pub port : is_positive c.port && is_below 65536 c.port ≡ true
  pub role : is_role c.role ≡ true
  pub heartbeat : at_least 1000 c.heartbeat_interval_ms ≡ true
  pub task_timeout : at_least 1000 c.task_timeout_ms ≡ true
  pub idle_ttl : at_least 1000 c.worker_provisioning_idle_ttl_ms ≡ true
  pub startup_timeout : at_least 1000 c.worker_provisioning_startup_timeout_ms ≡ true
  pub roles : All (λ r. is_role r ≡ true) c.worker_provisioning_roles
  pub distinct : Distinct [] c.worker_provisioning_roles
  pub min_max : c.worker_provisioning_min_per_role ≤ c.worker_provisioning_max_per_role
  pub some_per_role : 1 ≤ c.worker_provisioning_max_per_role
  pub provisions :
      is_controller c.mode ≡ true
      → is_none c.worker_provisioning_type ≡ true
      → c.worker_provisioning_disabled ≡ true
  pub image :
      runs_containers c.worker_provisioning_type ≡ true
      → str_truthy c.worker_provisioning_image ≡ true
  pub root :
      str_truthy c.worker_provisioning_docker_workspace_volume
          || str_truthy c.worker_provisioning_kubernetes_workspace_persistent_volume_claim
        ≡ true
      → str_truthy c.worker_provisioning_workspace_root ≡ true
  pub concurrency : (1 ≤ c.max_concurrent_tasks) × (c.max_concurrent_tasks ≤ 50)

role_array-All : (v : Value) → All (λ r. is_role r ≡ true) (role_array v)
unfolding role_array
role_array-All v =
    let entries = compact (map plain_text (list_of v)) in
    unique_after-All (λ r. is_role r ≡ true) [] (filter is_role entries)
      (All-map (λ r. Unit {0} × (is_role r ≡ true)) (λ r. is_role r ≡ true) _ (λ r h. h.1)
        (All-filter_holds (λ r. Unit {0}) is_role entries
          (All_lem (λ r. Unit {0}) entries (λ r. tt))))

role_array-Distinct : (v : Value) → Distinct [] (role_array v)
unfolding role_array
role_array-Distinct v =
    unique_after-Distinct [] (filter is_role (compact (map plain_text (list_of v))))

provisions_lem :
    (mode : Mode) (type : ProvisioningType) (disabled : Bool)
    → is_controller mode ≡ true
    → is_none (effective_type mode type disabled) ≡ true
    → disabled ≡ true
provisions_lem mode type true h k = refl
provisions_lem Mode.controller ProvisioningType.none false h k = ground arith
provisions_lem Mode.controller ProvisioningType.process false h k = ground arith
provisions_lem Mode.controller ProvisioningType.docker false h k = ground arith
provisions_lem Mode.controller ProvisioningType.kubernetes false h k = ground arith
provisions_lem Mode.worker type false h k = ground arith

first_text_lem :
    (b : Bool) (s t : String)
    → str_truthy t ≡ true
    → b ≡ true
    → str_truthy (first_text s (if b then t else "")) ≡ true
first_text_lem b s t h k = elim (Bool-cases (str_truthy s)) [
  | inl given ↦ rw given given
  | inr empty ↦ rw empty (rw k h)
]

config_of-IsConfig : (raw : Value) (m : ℕ) → 1 ≤ m → m ≤ 50 → IsConfig (config_of raw m)
unfolding config_of
config_of-IsConfig raw m low high =
    let type =
      effective_type (mode_of (field raw "mode"))
        (provisioning_type_of (field raw "workerProvisioningType"))
        (is_true (field raw "workerProvisioningDisabled")) in
    record {
      port = port_lem (field raw "port");
      role = role_lem (field raw "role");
      heartbeat = at_least-number_from 1000 10000 (field raw "heartbeatIntervalMs") (omega arith);
      task_timeout = at_least-number_from 1000 600000 (field raw "taskTimeoutMs") (omega arith);
      idle_ttl =
          at_least-number_from 1000 120000 (field raw "workerProvisioningIdleTtlMs") (omega arith);
      startup_timeout =
          at_least-number_from 1000 120000 (field raw "workerProvisioningStartupTimeoutMs")
            (omega arith);
      roles = role_array-All (field raw "workerProvisioningRoles");
      distinct = role_array-Distinct (field raw "workerProvisioningRoles");
      min_max = omega arith;
      some_per_role = omega (arith, floor_from-le 1 3 (field raw "workerProvisioningMaxPerRole"));
      provisions =
          provisions_lem (mode_of (field raw "mode"))
            (provisioning_type_of (field raw "workerProvisioningType"))
            (is_true (field raw "workerProvisioningDisabled"));
      image =
          first_text_lem (runs_containers type) (trimmed (field raw "workerProvisioningImage"))
            published_runtime_image refl;
      root =
          first_text_lem _ (trimmed (field raw "workerProvisioningWorkspaceRoot")) "/workspace-root"
            refl;
      concurrency = (low, high);
    }

-- The parser fails exactly when maxConcurrentTasks is given and is no whole number from 1 to 50, and
-- its error names the value given; else it returns a configuration whose settings are in their ranges
-- and agree with each other, whatever the other settings hold.
pub parse_plugin_config_lem :
    (raw : Value)
    → ((parse_plugin_config raw ≡ bad_max_concurrent_tasks (field raw "maxConcurrentTasks"))
        × ¬ (IsConcurrency (field raw "maxConcurrentTasks")))
      ⊎ ((c : PluginConfig) × (parse_plugin_config raw ≡ parsed c)
          × IsConcurrency (field raw "maxConcurrentTasks")
          × IsConfig c)
unfolding parse_plugin_config
parse_plugin_config_lem raw = elim (max_concurrent-cases (field raw "maxConcurrentTasks")) [
  | inl h ↦ inl (rw (h.0, parse_plugin_config) refl, h.1)
  | inr h ↦ inr (
    config_of raw h.0,
    rw (h.1, parse_plugin_config) refl,
    h.2,
    config_of-IsConfig raw h.0 h.3 h.4,
  )
]
