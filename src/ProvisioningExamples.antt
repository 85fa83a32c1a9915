-- ===== src/ProvisioningExamples.antt =====
-- The theorems on managed workers at concrete inputs.
use teamclaw.Prelude.{
  false, ℕ, suc, ◌*◌, Option, arith, String, ◌+◌, ◌≤◌, ◌<◌, ◌≡◌, ◌⊎◌, refl, some, none, [], ◌∷◌,
  List, String, get, alter, max, min, true, not, ◌&&◌, all,
}
use teamclaw.Team.{WorkerStatus, TeamState, ProvisionRecord, ProvisionStatus}
use teamclaw.Fixtures.{team}
use teamclaw.Provisioning.{
  Limits, role_demand, live_count, idle_count, launching_count, pending_count,
  validate_registration, wrong_role, wrong_token, closed, begin_termination, end_termination,
  on_worker_heartbeat, launched_record,
}
use teamclaw.Provisioning.Demand.{role_demand_lem}
use teamclaw.Provisioning.Reconcile.{Launch, launch_role, scale_down_role}
use teamclaw.Provisioning.Bounds.{launch_role_lem, scale_down_role_lem}
use teamclaw.Provisioning.Gate.{was_ready, is_startup_blocked}
use teamclaw.Provisioning.Startup.{Readiness, Poll, run_startup_check, startup_roles}
use teamclaw.Provisioning.Ready.{
  IsEnded, IsTicking, is_named, run_startup_check_lem, is_startup_blocked_lem,
}
use teamclaw.Provisioning.Records.{IsUnique}
use teamclaw.Provisioning.Closed.{done, more, ends, beats, terminated_refused}

abbrev limits : Limits
limits = record {
  min_per_role = 0;
  max_per_role = 2;
  idle_ttl_ms = 1000;
  startup_timeout_ms = 1000;
}

role_demand_example :
    let n = role_demand limits [] team "developer" in
    let have = live_count team "developer" + launching_count team "developer" in
    (have + n ≤ max have limits.max_per_role)
    × ((limits.max_per_role ≤ have + n)
        ⊎ ((limits.min_per_role ≤ have + n)
            × (pending_count [] team "developer"
                ≤ idle_count team "developer" + launching_count team "developer" + n)))
role_demand_example = role_demand_lem limits [] team "developer"

abbrev launched : ProvisionRecord
launched = launched_record 5 "w1" "developer" "secret"

abbrev managing : TeamState
managing = record team { provisioning = ("w1", launched) ∷ [] }

abbrev later_on : TeamState
later_on =
    on_worker_heartbeat 8 "w1" WorkerStatus.idle
      (end_termination 7 "w1" none (begin_termination 6 "w1" managing))

abbrev kept : ProvisionRecord
kept = record launched { status = ProvisionStatus.terminated; updated_at = 8; idle_since = some 8 }

managing_before : get managing.provisioning "w1" ≡ some launched
unfolding get
managing_before = refl

managing-IsUnique : IsUnique managing.provisioning
unfolding get
managing-IsUnique = (refl, tt)

kept_after : get later_on.provisioning "w1" ≡ some kept
unfolding get alter on_worker_heartbeat end_termination begin_termination
kept_after = refl

terminated_example :
    (validate_registration "w1" "developer" (some "secret") later_on ≡ wrong_role)
    ⊎ ((validate_registration "w1" "developer" (some "secret") later_on ≡ wrong_token)
        ⊎ (validate_registration "w1" "developer" (some "secret") later_on ≡ closed))
terminated_example =
    terminated_refused 6 "w1" "developer" (some "secret") managing later_on kept launched
      managing-IsUnique managing_before
      (more (more done (ends 7 "w1" none)) (beats 8 "w1" WorkerStatus.idle)) kept_after

-- One launch that fails and one that is never tried, as the failure is recent.
abbrev launches : List Launch
launches =
    record { worker_id = "w2"; token = "secret"; failure = some "no image" }
    ∷ record { worker_id = "w3"; token = "secret"; failure = none }
    ∷ []

abbrev warm : Limits
warm = record limits { min_per_role = 2 }

launch_role_example :
    let s' = (launch_role 9 "tester" (role_demand warm [] team "tester") launches team).0 in
    let have = live_count team "tester" + launching_count team "tester" in
    (s'.workers ≡ team.workers)
    × (live_count s' "tester" + launching_count s' "tester" ≤ max have warm.max_per_role)
launch_role_example = launch_role_lem warm [] 9 "tester" launches team

-- The worker has been idle since 3, for longer than it may.
abbrev idling : TeamState
idling = record team {
  tasks = [];
  provisioning =
      ("w1", record launched { status = ProvisionStatus.registered; idle_since = some 3 }) ∷ [];
}

scale_down_role_example :
    let s' = scale_down_role limits [] 5000 "developer" idling in
    (min (live_count idling "developer") limits.min_per_role ≤ live_count s' "developer")
    × (0 < pending_count [] idling "developer" → s' ≡ idling)
scale_down_role_example = scale_down_role_lem limits [] 5000 "developer" idling

-- No tester is ever there; the loop turns once a second.
abbrev turns : ℕ → Poll
turns i = record { now = 10 + i * 1000; is_stopped = false; launches = launches; between = λ s. s }

turns-IsTicking : IsTicking 10 turns
turns-IsTicking = (omega arith, λ i. omega arith)

run_startup_check_example :
    let o =
      run_startup_check
        (suc limits.startup_timeout_ms)
        limits
        ("tester" ∷ [])
        0
        5
        10
        1020
        none
        launches
        turns
        team in
    IsEnded (startup_roles ("tester" ∷ [])) o
    × ((Path (Option String) none none) ⊎ ((r : Readiness) × (o ≡ some (team, r))))
run_startup_check_example =
    run_startup_check_lem limits ("tester" ∷ []) 0 5 10 1020 none launches turns team
      turns-IsTicking

is_startup_blocked_example : is_startup_blocked true ("tester" ∷ "developer" ∷ []) 1 5 none team ≡ (
    true
    && (not (was_ready none)
        && not (all (is_named team) (startup_roles ("tester" ∷ "developer" ∷ [])))))
is_startup_blocked_example = is_startup_blocked_lem true ("tester" ∷ "developer" ∷ []) 1 5 none team
