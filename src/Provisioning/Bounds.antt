-- ===== src/Provisioning/Bounds.antt =====
-- How far a reconcile goes: it neither launches too many workers of a role nor sends too many away.
use teamclaw.Prelude.{
  ℕ, zero, suc, ◌+◌, ◌-◌, ◌≤◌, ◌<◌, ◌≡◌, refl, ◌∙◌, inl, inr, String, Bool, Bool-cases,
  Option-cases, true, ◌&&◌, Option, none, some, List, [], ◌∷◌, filter, count, length, ltb, leb,
  Dict, get, put, alter, values, str_eq, arith, max, min,
}
use teamclaw.Team.{WorkerInfo, TeamState, ProvisionStatus, ProvisionRecord}
use teamclaw.Routing.{RoleDefinition}
use teamclaw.Provisioning.{
  finish_launch, Limits, live_count, launching_count, pending_count, is_launching, begin_launch,
  fail_launch, launched_record, begin_termination, end_termination, role_demand,
}
use teamclaw.Provisioning.Demand.{role_demand_lem}
use teamclaw.Provisioning.Reconcile.{
  Launch, launch_worker, launch_role, has_recent_failure, terminate_worker, send_away,
  scale_down_role, is_active_in, has_idled, idle_since_of, managed_idle, by_idle,
}

module _ {ℓ} {V : Type ℓ} (p : V → Bool) where
  count-put_le :
      (d : Dict V) (k : String) (v : V) → count p (values (put d k v)) ≤ count p (values d) + 1
  unfolding put
  count-put_le [] k v = ground arith
  count-put_le ((j, w) ∷ d) k v = ground (arith, count-put_le d k v)

  -- A change of one value changes a count by one at most.
  count-alter_ge :
      (d : Dict V) (k : String) (f : V → V)
      → count p (values d) ≤ count p (values (alter d k f)) + 1
  unfolding alter
  count-alter_ge [] k f = ground arith
  count-alter_ge ((j, w) ∷ d) k f = ground (arith, count-alter_ge d k f)

  count-alter_le :
      (d : Dict V) (k : String) (f : V → V)
      → ((v : V) → p (f v) ≡ true → p v ≡ true)
      → count p (values (alter d k f)) ≤ count p (values d)
  unfolding alter
  count-alter_le [] k f h = ground arith
  count-alter_le ((j, w) ∷ d) k f h = ground (arith, h w, count-alter_le d k f)

launching-launch_worker :
    (now : ℕ) (role role' : String) (l : Launch) (s : TeamState)
    → launching_count (launch_worker now role l s) role' ≤ launching_count s role' + 1
unfolding launch_worker begin_launch fail_launch finish_launch
launching-launch_worker now role role' l s =
    let p : ProvisionRecord → Bool = λ r. str_eq r.role role' && is_launching r.status in
    let d = put s.provisioning l.worker_id (launched_record now l.worker_id role l.token) in
    let added =
      count-put_le p s.provisioning l.worker_id (launched_record now l.worker_id role l.token) in
    elim (Option-cases l.failure) [
      | inl fine ↦
          rw (fine, launch_worker)
            (omega (
              arith,
              added,
              count-alter_le p d l.worker_id (λ r. record r { updated_at = now }) (λ v h. h),
            ))
      | inr failed ↦
          rw (failed.1, launch_worker)
            (omega (
              arith,
              added,
              count-alter_le p d l.worker_id
                  (λ r. record r {
                    status = ProvisionStatus.failed;
                    updated_at = now;
                    last_error = some failed.0;
                  })
                  (λ v h. ground arith),
            ))
    ]

workers-launch_worker :
    (now : ℕ) (role : String) (l : Launch) (s : TeamState)
    → (launch_worker now role l s).workers ≡ s.workers
unfolding launch_worker begin_launch fail_launch finish_launch
workers-launch_worker now role l s = elim (Option-cases l.failure) [
  | inl fine ↦ rw (fine, launch_worker) refl
  | inr failed ↦ rw (failed.1, launch_worker) refl
]

launching-launch_role :
    (now : ℕ) (role : String) (n : ℕ) (ls : List Launch) (s : TeamState)
    → (launching_count (launch_role now role n ls s).0 role ≤ launching_count s role + n)
      × ((launch_role now role n ls s).0.workers ≡ s.workers)
unfolding launch_role
launching-launch_role now role zero ls s = (omega arith, refl)
launching-launch_role now role (suc n) [] s = (omega arith, refl)
launching-launch_role now role (suc n) (l ∷ ls) s =
    elim (Bool-cases (has_recent_failure now role s)) [
      | inl recent ↦ rw recent (omega arith, refl)
      | inr fine ↦
          let ih = launching-launch_role now role n ls (launch_worker now role l s) in
          rw fine (
            omega (arith, ih.0, launching-launch_worker now role role l s),
            ih.1 ∙ workers-launch_worker now role l s,
          )
    ]

live_count-workers :
    (s s' : TeamState) (role : String)
    → s'.workers ≡ s.workers
    → live_count s' role ≡ live_count s role
live_count-workers s s' role h = rw h refl

-- The launches that a reconcile makes for a role, whether they succeed or fail, leave its workers as
-- they are and never take them, active and launching, above the limit per role, or above what they
-- were where that is more.
pub launch_role_lem :
    (limits : Limits) (roles : List RoleDefinition) (now : ℕ) (role : String) (ls : List Launch)
    (s : TeamState)
    → let s' = (launch_role now role (role_demand limits roles s role) ls s).0 in
      let have = live_count s role + launching_count s role in
      (s'.workers ≡ s.workers)
      × (live_count s' role + launching_count s' role ≤ max have limits.max_per_role)
launch_role_lem limits roles now role ls s =
    let n = role_demand limits roles s role in
    let r = launching-launch_role now role n ls s in
    let same = live_count-workers s (launch_role now role n ls s).0 role r.1 in
    (r.1, omega (arith, r.0, same, (role_demand_lem limits roles s role).0))

live-terminate_worker :
    (now : ℕ) (error : Option String) (worker_id : String) (s : TeamState) (role : String)
    → live_count s role ≤ live_count (terminate_worker now error worker_id s) role + 1
unfolding terminate_worker begin_termination end_termination
live-terminate_worker now error worker_id s role =
    elim (Option-cases (get s.provisioning worker_id)) [
      | inl gone ↦ rw (gone, terminate_worker) (omega arith)
      | inr r ↦
          rw (r.1, terminate_worker)
            (rw (r.1, begin_termination) (count-alter_ge _ s.workers worker_id _))
    ]

live-send_away :
    (limits : Limits) (now active : ℕ) (ws : List WorkerInfo) (s : TeamState) (role : String)
    → active ≤ live_count s role
    → min (live_count s role) limits.min_per_role
      ≤ live_count (send_away limits now active ws s) role
unfolding send_away
live-send_away limits now active [] s role h = omega arith
live-send_away limits now active (w ∷ ws) s role h =
    let idled = has_idled limits now (idle_since_of s w.id) in
    let s' = terminate_worker now none w.id s in
    let less = live-terminate_worker now none w.id s role in
    elim (Bool-cases (leb active limits.min_per_role)) [
      | inl enough ↦ rw enough (omega arith)
      | inr more ↦ rw more (elim (Bool-cases idled) [
        | inl gone ↦
            let left : active - 1 ≤ live_count s' role = omega (arith, less) in
            let ih = live-send_away limits now (active - 1) ws s' role left in
            rw gone (ground (arith, ih, less))
        | inr stays ↦ rw stays (live-send_away limits now active ws s role h)
      ])
    ]

-- Sending idle workers of a role away leaves at least the minimum per role of them online, or as many
-- as there were where that is fewer; and it sends none away while a task waits for the role.
pub scale_down_role_lem :
    (limits : Limits) (roles : List RoleDefinition) (now : ℕ) (role : String) (s : TeamState)
    → let s' = scale_down_role limits roles now role s in
      (min (live_count s role) limits.min_per_role ≤ live_count s' role)
      × (0 < pending_count roles s role → s' ≡ s)
unfolding scale_down_role
scale_down_role_lem limits roles now role s =
    let active = filter (is_active_in role) (values s.workers) in
    elim (Bool-cases (ltb 0 (pending_count roles s role))) [
      | inl waits ↦ rw waits (omega arith, λ h. refl)
      | inr idle ↦ rw idle (
        live-send_away limits now (length active) (by_idle s (filter (managed_idle s) active)) s
            role (omega arith),
        (λ h. absurd (ground arith)),
      )
    ]
