-- ===== src/Provisioning/Ready.antt =====
-- What a start that is reported ready promises, and when new work is refused.
use teamclaw.Prelude.{
  ℕ, zero, suc, ◌⊎◌, ◌+◌, ◌≤◌, ◌*◌, ◌||◌, ◌≡◌, ◌≢◌, refl, ◌∙◌, sym, inl, inr, String, Bool,
  Bool-cases, Option-cases, true, false, ◌&&◌, not, Option, none, some, List, [], ◌∷◌, length, all,
  ltb, leb, ◌==◌, if◌then◌else◌, is_some, str_truthy, arith,
}
use teamclaw.Team.{TeamState}
use teamclaw.Provisioning.Gate.{named_ids, was_ready, effective_readiness, is_startup_blocked}
use teamclaw.Provisioning.Startup.{
  Readiness, ReadinessStatus, Poll, missing_roles, poll_startup, ready_worker, is_ready,
  startup_roles, give_up, all_ready, warm_workers, retry_interval_ms, poll_interval_ms,
  run_startup_check, begin_check, is_none_left,
}
use teamclaw.Provisioning.{Limits}
use teamclaw.Provisioning.Reconcile.{Launch}

-- A role has a worker at hand.
abbrev pub is_staffed : TeamState → String → Bool
is_staffed s role = is_some (ready_worker s role)

-- What the end of a check says: it is no longer under way, and if it is ready, every role has a worker.
abbrev pub IsSound : List String → TeamState → ReadinessStatus → Type 0
IsSound roles s st =
    (st ≢ ReadinessStatus.checking) × (st ≡ ReadinessStatus.ready → all (is_staffed s) roles ≡ true)

all-missing_roles :
    (s : TeamState) (roles : List String)
    → is_none_left (missing_roles s roles) ≡ true
    → all (is_staffed s) roles ≡ true
unfolding missing_roles
all-missing_roles s [] h = refl
all-missing_roles s (r ∷ rs) h = ground (arith, all-missing_roles s rs)

degraded-IsSound : (roles : List String) (s : TeamState) → IsSound roles s ReadinessStatus.degraded
degraded-IsSound roles s = ((λ h. ground arith), λ h. ground arith)

ready-IsSound :
    (roles : List String) (s : TeamState)
    → all (is_staffed s) roles ≡ true
    → IsSound roles s ReadinessStatus.ready
ready-IsSound roles s here = ((λ h. ground arith), λ h. here)

-- The clock of the loop: it starts after the warm-up, and a turn sleeps for a second at least.
abbrev pub IsTicking : ℕ → (ℕ → Poll) → Type 0
IsTicking warmed turn =
    (warmed ≤ (turn 0).now) × ((i : ℕ) → (turn i).now + poll_interval_ms ≤ (turn (i + 1)).now)

abbrev pub IsEnded : List String → Option (TeamState × Readiness) → Type 0
IsEnded roles o = (r : TeamState × Readiness) × (o ≡ some r) × IsSound roles r.0 r.1.status

-- What a turn that does not end the loop leaves to the next.
abbrev rest_of :
    ℕ → Readiness → ℕ → ℕ → ℕ → ℕ → (ℕ → Poll) → TeamState → Option (TeamState × Readiness)
unfolding poll_startup
rest_of fuel begun deadline ended last i turn s =
    let p = turn i in
    let due = leb (last + retry_interval_ms) p.now in
    poll_startup fuel begun deadline ended (if due then p.now else last) (i + 1) turn (
      p.between (
        if due
        then (warm_workers p.now (missing_roles s begun.required_roles) p.launches s).0
        else s))

poll_startup_turn :
    (fuel : ℕ) (begun : Readiness) (deadline ended last i : ℕ) (turn : ℕ → Poll) (s : TeamState)
    → (((turn i).is_stopped || not (ltb (turn i).now deadline)) ≡ false
        → IsEnded begun.required_roles (rest_of fuel begun deadline ended last i turn s))
    → IsEnded begun.required_roles (poll_startup (suc fuel) begun deadline ended last i turn s)
unfolding poll_startup give_up all_ready
poll_startup_turn fuel begun deadline ended last i turn s go_on =
    let missing = missing_roles s begun.required_roles in
    elim (Bool-cases ((turn i).is_stopped || not (ltb (turn i).now deadline))) [
      | inl over ↦
          rw over ((s, give_up begun ended s), refl, degraded-IsSound begun.required_roles s)
      | inr early ↦ elim (Bool-cases (is_none_left missing)) [
        | inl done ↦
            rw (early, done)
              (
                (s, all_ready begun (turn i).now s),
                refl,
                ready-IsSound begun.required_roles s
                    (all-missing_roles s begun.required_roles done),
              )
        | inr left ↦ rw (early, left) (go_on early)
      ]
    ]

poll_startup-IsEnded :
    (fuel : ℕ) (begun : Readiness) (deadline ended last i : ℕ) (turn : ℕ → Poll) (s : TeamState)
    → ((i : ℕ) → (turn i).now + poll_interval_ms ≤ (turn (i + 1)).now)
    → deadline ≤ (turn i).now + fuel * poll_interval_ms
    → IsEnded begun.required_roles (poll_startup (suc fuel) begun deadline ended last i turn s)
unfolding rest_of poll_startup
poll_startup-IsEnded zero begun deadline ended last i turn s ticks enough =
    poll_startup_turn zero begun deadline ended last i turn s
      (λ early. absurd (ground (arith, enough)))
poll_startup-IsEnded (suc fuel) begun deadline ended last i turn s ticks enough =
    poll_startup_turn (suc fuel) begun deadline ended last i turn s (λ early.
      poll_startup-IsEnded fuel begun deadline ended _ (i + 1) turn _ ticks
        (omega (arith, ticks i, enough)))

-- A check of the start comes to an end, whatever the other handlers do between its looks at the state:
-- as each turn of its loop takes a second at least, the loop takes no more turns than the timeout has
-- milliseconds, and one. The result is not that the check is still under way, and if it is ready, each
-- required role has a worker at hand in the state in which it ended. If a prerequisite failed, the
-- state is as it was.
pub run_startup_check_lem :
    (limits : Limits) (configured : List String) (attempts now warmed ended : ℕ)
    (broken : Option String) (ls : List Launch) (turn : ℕ → Poll) (s : TeamState)
    → IsTicking warmed turn
    → let o =
        run_startup_check
          (suc limits.startup_timeout_ms)
          limits
          configured
          attempts
          now
          warmed
          ended
          broken
          ls
          turn
          s in
      IsEnded (startup_roles configured) o
      × ((broken ≡ none) ⊎ ((r : Readiness) × (o ≡ some (s, r))))
unfolding run_startup_check
run_startup_check_lem limits configured attempts now warmed ended broken ls turn s ticks =
    elim (Option-cases broken) [
      | inr e ↦ rw e.1 ((_, refl, degraded-IsSound (startup_roles configured) s), inr (_, refl))
      | inl fine ↦ rw fine (
        poll_startup-IsEnded limits.startup_timeout_ms (begin_check attempts now configured)
            (warmed + limits.startup_timeout_ms) ended 0 0 turn _ ticks.1 (omega (arith, ticks.0)),
        inl refl,
      )
    ]

-- The worker found for a role has a name.
abbrev pub is_named : TeamState → String → Bool
is_named s role = elim (ready_worker s role) [ none ↦ false | some w ↦ str_truthy w.id ]

suc-eq : (a b : ℕ) → (suc a == suc b) ≡ (a == b)
suc-eq a b = ground arith

length-named_ids :
    (s : TeamState) (roles : List String)
    → (length (named_ids s roles) ≤ length roles)
      × ((length (named_ids s roles) == length roles) ≡ all (is_named s) roles)
unfolding named_ids
length-named_ids s [] = (omega arith, refl)
length-named_ids s (r ∷ rs) =
    let ih = length-named_ids s rs in
    elim (Option-cases (ready_worker s r)) [
      | inl lost ↦ rw (lost, length, all, is_named) (omega (arith, ih.0), ground (arith, ih.0))
      | inr w ↦
          rw (w.1, length, all, is_named)
            (elim (Bool-cases (str_truthy w.0.id)) [
              | inl named ↦ rw named (omega (arith, ih.0), suc-eq _ _ ∙ ih.1)
              | inr nameless ↦ rw nameless (omega (arith, ih.0), ground (arith, ih.0))
            ])
    ]

-- New work is refused exactly while the manager is enabled, the last check was not ready, and some
-- required role has no worker at hand (the first one found has no name).
pub is_startup_blocked_lem :
    (enabled : Bool) (configured : List String) (created_at now : ℕ) (recorded : Option Readiness)
    (s : TeamState)
    → is_startup_blocked enabled configured created_at now recorded s
      ≡ (enabled && (not (was_ready recorded) && not (all (is_named s) (startup_roles configured))))
unfolding is_startup_blocked effective_readiness
is_startup_blocked_lem enabled configured created_at now recorded s =
    let required = startup_roles configured in
    let staffed = sym (length-named_ids s required).1 in
    elim (Bool-cases (length (named_ids s required) == length required)) [
      | inl full ↦
          rw (full, staffed ∙ full)
            (elim (Bool-cases (was_ready recorded)) [
              | inl was ↦ rw was refl
              | inr was ↦ rw was refl
            ])
      | inr short ↦
          rw (short, staffed ∙ short)
            (elim (Option-cases recorded) [
              | inl none_yet ↦ rw none_yet refl
              | inr r ↦ rw r.1 (elim (Bool-cases (is_ready r.0.status)) [
                | inl was ↦ rw was refl
                | inr was ↦ rw was refl
              ])
            ])
    ]
