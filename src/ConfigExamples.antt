-- ===== src/ConfigExamples.antt =====
-- Tests of the configuration, and its theorem at a concrete input.
use teamclaw.Prelude.{◌≡◌, ◌⊎◌, refl, false, some, none, Option}
use teamclaw.Team.{ProvisioningType}
use teamclaw.Value.{Value, text, number, object, with, end, natural}
use teamclaw.Config.{
  PluginConfig, Parsed, parsed, bad_max_concurrent_tasks, parse_plugin_config, max_concurrent,
  config_of, blocks_without_workers,
}
use teamclaw.Config.Checked.{IsConcurrency, IsConfig, parse_plugin_config_lem}
use teamclaw.Fixtures.{team}

abbrev settings : Value
settings = object (
    with "mode" (text "controller") (
      with "workerProvisioningMinPerRole" (number (natural 4))
        (with "maxConcurrentTasks" (number (natural 50)) end)))

abbrev type_of : Parsed → Option ProvisioningType
type_of (parsed c) = some c.worker_provisioning_type
type_of (bad_max_concurrent_tasks v) = none

starts_processes : type_of (parse_plugin_config settings) ≡ some ProvisioningType.process
unfolding parse_plugin_config max_concurrent config_of
starts_processes = refl

refuses_text :
    parse_plugin_config (object (with "maxConcurrentTasks" (text "5") end))
    ≡ bad_max_concurrent_tasks (text "5")
unfolding parse_plugin_config max_concurrent
refuses_text = refl

waits_for_no_one : blocks_without_workers (config_of settings 50) (some team) ≡ false
unfolding blocks_without_workers config_of
waits_for_no_one = refl

parse_plugin_config_example :
    ((parse_plugin_config settings ≡ bad_max_concurrent_tasks (number (natural 50)))
      × ¬ (IsConcurrency (number (natural 50))))
    ⊎ ((c : PluginConfig) × (parse_plugin_config settings ≡ parsed c)
        × IsConcurrency (number (natural 50))
        × IsConfig c)
parse_plugin_config_example = parse_plugin_config_lem settings
