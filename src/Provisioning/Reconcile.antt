-- ===== src/Provisioning/Reconcile.antt =====
-- The reconcile loop of src/src/controller/worker-provisioning.ts: stalled launches are ended, roles in
-- demand get new workers, idle ones are sent away. No other handler runs in between and the clock
-- stands still; what each launch comes to is an argument.
use teamclaw.Prelude.{
  ℕ, zero, suc, ◌+◌, ◌-◌, String, Bool, true, false, ◌&&◌, ◌||◌, not, Option, none, some, List, [],
  ◌∷◌, ◌++◌, map, filter, any, ltb, leb, if◌then◌else◌, get, values, str_eq, num_truthy, get_or,
  is_some, ◌<>◌, decimal, str_truthy, length,
}
use teamclaw.Team.{
  WorkerInfo, TaskInfo, TeamState, ProvisionStatus, ProvisionRecord, is_idle, is_offline,
  is_pending, is_assigned,
}
use teamclaw.Contracts.Backfill.{unique}
use teamclaw.Routing.{RoleDefinition, infer_task_role}
use teamclaw.Provisioning.{
  Limits, begin_launch, fail_launch, finish_launch, begin_termination, end_termination, refresh,
  role_demand, pending_count, is_launching, is_registered, is_past,
}

-- What a call of `launchWorker` draws and how the back end answers: the message of its failure, or none.
pub record Launch : Type 0 where
  pub worker_id : String
  pub token : String
  pub failure : Option String

-- `launchWorker`
unfoldable pub launch_worker : ℕ → String → Launch → TeamState → TeamState
unfolding begin_launch fail_launch finish_launch
launch_worker now role l s =
    let s' = begin_launch now l.worker_id role l.token s in
    elim l.failure [
      | none ↦ finish_launch now l.worker_id s'
      | some message ↦ fail_launch now l.worker_id message s'
    ]

abbrev pub failure_cooldown_ms : ℕ
failure_cooldown_ms = 30000

abbrev is_failed_record : ProvisionStatus → Bool
is_failed_record ProvisionStatus.failed = true
is_failed_record _ = false

-- `hasRecentProvisioningFailure`
unfoldable pub has_recent_failure : ℕ → String → TeamState → Bool
has_recent_failure now role s =
    any
      (λ (r : ProvisionRecord).
        str_eq r.role role
        && is_failed_record r.status
        && ltb now (r.updated_at + failure_cooldown_ms))
      (values s.provisioning)

-- The loop of launches for a role: `demand` of them, until one has failed of late. The launches to come
-- are a list; the state and those left over are returned.
unfoldable pub launch_role : ℕ → String → ℕ → List Launch → TeamState → TeamState × List Launch
unfolding launch_worker has_recent_failure
launch_role now role zero ls s = (s, ls)
launch_role now role (suc n) [] s = (s, [])
launch_role now role (suc n) (l ∷ ls) s =
    let rest = launch_role now role n ls (launch_worker now role l s) in
    if has_recent_failure now role s then (s, l ∷ ls) else rest

-- `terminateManagedWorker`; `error` is the reason of a failure.
unfoldable pub terminate_worker : ℕ → Option String → String → TeamState → TeamState
unfolding begin_termination end_termination
terminate_worker now error worker_id s =
    if is_some (get s.provisioning worker_id)
    then end_termination now worker_id error (begin_termination now worker_id s)
    else s

-- `onWorkerRemoved`
unfoldable pub on_worker_removed : ℕ → String → TeamState → TeamState
unfolding terminate_worker
on_worker_removed now worker_id s = elim (get s.provisioning worker_id) [
  | none ↦ s
  | some r ↦ if is_past r.status then s else terminate_worker now none worker_id s
]

terminate_workers : ℕ → Option String → List String → TeamState → TeamState
unfolding terminate_worker
terminate_workers now error [] s = s
terminate_workers now error (i ∷ is) s =
    terminate_workers now error is (terminate_worker now error i s)

abbrev is_stalled : Limits → ℕ → ProvisionRecord → Bool
is_stalled limits now r =
    is_launching r.status && ltb (r.requested_at + limits.startup_timeout_ms) now

-- `expireStalledLaunches`
unfoldable pub expire_stalled : Limits → ℕ → TeamState → TeamState
unfolding terminate_workers
expire_stalled limits now s =
    terminate_workers now
      (some ("startup timeout exceeded (" <> (decimal limits.startup_timeout_ms <> "ms)")))
      (map (λ (r : ProvisionRecord). r.worker_id)
        (filter (is_stalled limits now) (values s.provisioning)))
      s

-- `getProvisionableRoles`, for the configured roles.
abbrev option_list : Option String → List String
option_list none = []
option_list (some r) = if str_truthy r then r ∷ [] else []

task_roles : List RoleDefinition → List TaskInfo → List String
task_roles roles [] = []
task_roles roles (t ∷ ts) =
    let rest = task_roles roles ts in
    if is_pending t.status || is_assigned t.status
    then option_list (infer_task_role roles t) ++ rest
    else rest

unfoldable pub provisionable_roles : List String → List RoleDefinition → TeamState → List String
unfolding task_roles
provisionable_roles configured roles s =
    let base : List String = elim configured [
      | [] ↦ map (λ (r : RoleDefinition). r.id) roles
      | r ∷ rs ↦ r ∷ rs
    ] in
    unique (
      base
      ++ (task_roles roles (values s.tasks)
          ++ (map (λ (w : WorkerInfo). w.role) (values s.workers)
              ++ map (λ (r : ProvisionRecord). r.role) (values s.provisioning))))

launch_roles : Limits → List RoleDefinition → ℕ → List String → List Launch → TeamState → TeamState
unfolding launch_role role_demand
launch_roles limits roles now [] ls s = s
launch_roles limits roles now (role ∷ rest) ls s =
    let p = launch_role now role (role_demand limits roles s role) ls s in
    launch_roles limits roles now rest p.1 p.0

abbrev pub is_active_in : String → WorkerInfo → Bool
is_active_in role w = str_eq w.role role && not (is_offline w.status)

-- The registered record of an idle worker, with the worker's id.
abbrev pub managed_idle : TeamState → WorkerInfo → Bool
managed_idle s w =
    is_idle w.status
    && elim (get s.provisioning w.id) [ none ↦ false | some r ↦ is_registered r.status ]

abbrev pub idle_since_of : TeamState → String → Option ℕ
idle_since_of s worker_id = elim (get s.provisioning worker_id) [
  | none ↦ none
  | some r ↦ r.idle_since
]

-- The longest idle first: a stable sort by idleSince ?? Number.MAX_SAFE_INTEGER.
abbrev idle_key : TeamState → WorkerInfo → ℕ
idle_key s w = get_or (idle_since_of s w.id) 9007199254740991

insert_idle : TeamState → WorkerInfo → List WorkerInfo → List WorkerInfo
insert_idle s w [] = w ∷ []
insert_idle s w (v ∷ vs) =
    let rest = insert_idle s w vs in
    if leb (idle_key s w) (idle_key s v) then w ∷ v ∷ vs else v ∷ rest

unfoldable pub by_idle : TeamState → List WorkerInfo → List WorkerInfo
unfolding insert_idle
by_idle s [] = []
by_idle s (w ∷ ws) = insert_idle s w (by_idle s ws)

abbrev pub has_idled : Limits → ℕ → Option ℕ → Bool
has_idled limits now none = false
has_idled limits now (some t) = num_truthy (some t) && not (ltb now (t + limits.idle_ttl_ms))

-- The loop over the idle workers of a role, of which `active` are left.
unfoldable pub send_away : Limits → ℕ → ℕ → List WorkerInfo → TeamState → TeamState
unfolding terminate_worker
send_away limits now active [] s = s
send_away limits now active (w ∷ ws) s =
    let idled = has_idled limits now (idle_since_of s w.id) in
    let rest =
      send_away limits now (if idled then active - 1 else active) ws
        (if idled then terminate_worker now none w.id s else s) in
    if leb active limits.min_per_role then s else rest

-- The step of `scaleDownIdleWorkers` for a role.
unfoldable pub scale_down_role : Limits → List RoleDefinition → ℕ → String → TeamState → TeamState
unfolding send_away by_idle
scale_down_role limits roles now role s =
    let active = filter (is_active_in role) (values s.workers) in
    if ltb 0 (pending_count roles s role)
    then s
    else send_away limits now (length active) (by_idle s (filter (managed_idle s) active)) s

scale_down_roles : Limits → List RoleDefinition → ℕ → List String → TeamState → TeamState
unfolding scale_down_role
scale_down_roles limits roles now [] s = s
scale_down_roles limits roles now (r ∷ rs) s =
    scale_down_roles limits roles now rs (scale_down_role limits roles now r s)

-- `scaleDownIdleWorkers`
unfoldable pub scale_down : Limits → List String → List RoleDefinition → ℕ → TeamState → TeamState
unfolding scale_down_roles provisionable_roles
scale_down limits configured roles now s =
    scale_down_roles limits roles now (provisionable_roles configured roles s) s

-- `reconcileOnce`
unfoldable pub reconcile :
    Limits → List String → List RoleDefinition → ℕ → List Launch → TeamState → TeamState
unfolding refresh expire_stalled provisionable_roles launch_roles scale_down
reconcile limits configured roles now ls s =
    let s1 = expire_stalled limits now (refresh now s) in
    scale_down limits configured roles now
      (launch_roles limits roles now (provisionable_roles configured roles s1) ls s1)
