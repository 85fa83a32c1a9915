-- ===== src/Provisioning/Demand.antt =====
-- How many workers a role gets.
use teamclaw.Prelude.{◌+◌, ◌≤◌, ◌⊎◌, String, List, arith, max}
use teamclaw.Team.{TeamState}
use teamclaw.Routing.{RoleDefinition}
use teamclaw.Provisioning.{
  Limits, role_demand, live_count, idle_count, launching_count, pending_count,
}

-- New launches of a role never take its workers, active and launching, above the limit per role; when
-- the limit admits it they bring them to the minimum, and give each waiting task of the role an idle
-- or launching worker.
pub role_demand_lem :
    (limits : Limits) (roles : List RoleDefinition) (s : TeamState) (role : String)
    → let n = role_demand limits roles s role in
      let have = live_count s role + launching_count s role in
      (have + n ≤ max have limits.max_per_role)
      × ((limits.max_per_role ≤ have + n)
          ⊎ ((limits.min_per_role ≤ have + n)
              × (pending_count roles s role ≤ idle_count s role + launching_count s role + n)))
unfolding role_demand
role_demand_lem limits roles s role = omega arith
