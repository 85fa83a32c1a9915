-- ===== src/TeamAuto/Scheduler/Once.antt =====
-- A candidate has at most one active task and at most six attempts.
use Prim.Native.Nat.pow
use teamclaw.Prelude.{
  ℕ, ◌+◌, ◌*◌, ◌-◌, ◌^◌, zero, suc, ◌≤◌, min, String, ◌≡◌, ◌⊎◌, inl, inr, refl, true, false, ◌||◌,
  none, arith, Bool-cases, get, values, count, any, leb, count-put, any-put, count-any,
  includes_third, join, ◌<>◌,
}
use teamclaw.Team.{TeamState}
use teamclaw.TeamAuto.Store.{Repo}
use teamclaw.TeamAuto.Scanner.{Candidate}
use teamclaw.TeamAuto.Scheduler.Enqueue.{
  enqueue_candidate, enqueued, duplicate, is_about, is_active, failed_attempt, new_task, more_lines,
  failed_attempt_count, hard_attempt_count, dead_letter_attempts, dead_letter_transient_attempts,
  sweep_backoff_minutes, idempotency_marker,
}

-- The active tasks of a candidate, and all its tasks that did not complete.
abbrev pub active_count : TeamState → Candidate → ℕ
active_count s c = count (is_active c) (values s.tasks)

abbrev pub attempt_count : TeamState → Candidate → ℕ
attempt_count s c = active_count s c + failed_attempt_count s c

new_task-is_about :
    (id : String) (now : ℕ) (repo : Repo) (c : Candidate)
    → is_about c (new_task id now repo c) ≡ true
unfolding join more_lines
new_task-is_about id now repo c =
    includes_third ("TeamAuto autonomous work for " <> c.repo_id <> ".") "\n" (idempotency_marker c)
      _

new_task-is_active :
    (id : String) (now : ℕ) (repo : Repo) (c : Candidate)
    → (is_active c (new_task id now repo c) ≡ true)
      × (failed_attempt c (new_task id now repo c) ≡ false)
new_task-is_active id now repo c = ground (arith, new_task-is_about id now repo c)

-- Enqueueing keeps a candidate at one active task and at six attempts at most, when the identifier of
-- the new task is fresh; and once it made a task, the same candidate is a duplicate and changes
-- nothing.
pub enqueue_candidate_once :
    (id other : String) (now later : ℕ) (repo : Repo) (c : Candidate) (s : TeamState)
    → get s.tasks id ≡ none
    → active_count s c ≤ 1
    → attempt_count s c ≤ dead_letter_transient_attempts
    → let (s', outcome) = enqueue_candidate id now repo c s in
      (active_count s' c ≤ 1)
      × (attempt_count s' c ≤ dead_letter_transient_attempts)
      × (((outcome ≡ enqueued)
            × (active_count s' c ≡ 1)
            × (enqueue_candidate other later repo c s' ≡ (s', duplicate)))
          ⊎ (s' ≡ s))
unfolding enqueue_candidate
enqueue_candidate_once id other now later repo c s fresh one six =
    elim (Bool-cases (any (is_active c) (values s.tasks))) [
      | inl busy ↦ rw (busy, enqueue_candidate) (one, six, inr refl)
      | inr free ↦
          elim (Bool-cases (
            leb dead_letter_attempts (hard_attempt_count s c)
            || leb dead_letter_transient_attempts (failed_attempt_count s c))) [
              | inl dead ↦ rw (free, dead, enqueue_candidate) (one, six, inr refl)
              | inr go ↦
                  let (live, new) = new_task-is_active id now repo c in
                  let a = count-put (is_active c) s.tasks id (new_task id now repo c) fresh in
                  let f = count-put (failed_attempt c) s.tasks id (new_task id now repo c) fresh in
                  let none_yet = count-any (is_active c) (values s.tasks) free in
                  rw (free, go, enqueue_candidate)
                    (
                      ground (arith, a, none_yet, live),
                      ground (arith, a, f, none_yet, live, new, go),
                      inl (
                        refl,
                        ground (arith, a, none_yet, live),
                        rw (any-put (is_active c) s.tasks id (new_task id now repo c) live) refl,
                      ),
                    )
            ]
    ]

pow_step : (n : ℕ) → 2 ^ (n + 1) ≡ 2 * 2 ^ n
pow_step n = let next : n + 1 ≡ suc n = omega arith in rw (next, pow.suc) (omega arith)

pow_pos : (n : ℕ) → 1 ≤ 2 ^ n
pow_pos zero = omega arith
pow_pos (suc n) = omega (arith, pow_pos n, pow_step n)

-- The pause after a failure is between half an hour and four hours, is half an hour after the first,
-- and doubles with each further failure until it reaches four hours.
pub sweep_backoff_lem :
    (failures : ℕ)
    → (30 ≤ sweep_backoff_minutes failures)
      × (sweep_backoff_minutes failures ≤ 240)
      × (sweep_backoff_minutes (failures + 2) ≡ min (2 * sweep_backoff_minutes (failures + 1)) 240)
unfolding sweep_backoff_minutes
sweep_backoff_lem failures =
    let two : failures + 2 - 1 ≡ failures + 1 = omega arith in
    let one : failures + 1 - 1 ≡ failures = omega arith in
    (
      omega (arith, pow_pos (failures - 1)),
      omega arith,
      rw (two, one, pow_step failures) (omega arith),
    )
