-- ===== src/TeamAuto/Scheduler/Counting.antt =====
-- A sweep keeps to the daily budget.
use teamclaw.Prelude.{
  ℕ, ◌+◌, ◌≤◌, String, ◌≡◌, inl, inr, refl, true, false, ◌||◌, List, [], ◌∷◌, arith, Bool-cases,
  length, leb, length-put_le, eq_iff, eq_refl, max, any, values, ◌∙◌,
}
use teamclaw.Team.{TeamState}
use teamclaw.TeamAuto.Store.{Repo, Store, Budget, consume_budget, roll_over, push_activity}
use teamclaw.TeamAuto.Scanner.{Issue, Pull, Candidate, sweep_repo}
use teamclaw.TeamAuto.Scheduler.Enqueue.{
  is_active, dead_letter_attempts, dead_letter_transient_attempts, hard_attempt_count,
  failed_attempt_count, new_task, enqueue_candidate, Enqueued, enqueued, dead_lettered, duplicate,
  is_auto_pause,
}
use teamclaw.TeamAuto.Scheduler.Run.{
  Env, Place, Listing, listed, thrown, enqueue_all, record_outcome, act, healthy, do_work, swept,
  conclude, complete, fail, run_sweep, is_gated, is_dry, capped, register_writeback,
}

-- The tasks counted for the day of the sweep.
abbrev pub counted : Env → Budget → ℕ
counted env b = (roll_over env.today b).tasks_today

record_outcome-budget :
    (env : Env) (id : String) (repo : Repo) (c : Candidate) (o : Enqueued) (s : Store)
    → (record_outcome env id repo c o s).budget ≡ s.budget
unfolding record_outcome register_writeback push_activity
record_outcome-budget env id repo c enqueued s = ground arith
record_outcome-budget env id repo c dead_lettered s = refl
record_outcome-budget env id repo c duplicate s = refl

length-enqueue_candidate :
    (id : String) (now : ℕ) (repo : Repo) (c : Candidate) (s : TeamState)
    → length (enqueue_candidate id now repo c s).0.tasks ≤ length s.tasks + 1
unfolding enqueue_candidate
length-enqueue_candidate id now repo c s = elim (Bool-cases (any (is_active c) (values s.tasks))) [
  | inl busy ↦ rw (busy, enqueue_candidate) (omega arith)
  | inr free ↦
      elim (Bool-cases (
        leb dead_letter_attempts (hard_attempt_count s c)
        || leb dead_letter_transient_attempts (failed_attempt_count s c))) [
          | inl dead ↦ rw (free, dead, enqueue_candidate) (omega arith)
          | inr go ↦
              rw (free, go, enqueue_candidate) (length-put_le s.tasks id (new_task id now repo c))
        ]
]

enqueue_all_lem :
    (env : Env) (k : ℕ) (repo : Repo) (cs : List Candidate) (store : Store) (team : TeamState)
    → let ((store', team'), created) = enqueue_all env k repo cs store team in
      (store'.budget ≡ store.budget) × (length team'.tasks ≤ length team.tasks + length cs)
unfolding enqueue_all
enqueue_all_lem env k repo [] store team = (refl, omega arith)
enqueue_all_lem env k repo (c ∷ cs) store team =
    let step = enqueue_candidate (env.new_id k) env.now repo c team in
    let store' = record_outcome env (env.new_id k) repo c step.1 store in
    let rest = enqueue_all_lem env (k + 1) repo cs store' step.0 in
    (
      rest.0 ∙ record_outcome-budget env (env.new_id k) repo c step.1 store,
      omega (arith, rest.1, length-enqueue_candidate (env.new_id k) env.now repo c team),
    )

-- A step of the sweep makes no more tasks than the day's count grows by, and the count stays within
-- the limit.
abbrev pub WithinBudget : Env → Place → Place → Type 0
WithinBudget env p p' =
    (length p'.team.tasks + counted env p.store.budget
      ≤ length p.team.tasks + counted env p'.store.budget)
    × (counted env p'.store.budget
        ≤ max (counted env p.store.budget) p.store.budget.max_tasks_per_day)

consume-counted :
    (n : ℕ) (env : Env) (b : Budget)
    → let (b', granted) = consume_budget n env.today b in
      (granted ≡ true
        → (counted env b' ≡ counted env b + n) × (counted env b' ≤ b.max_tasks_per_day))
      × (granted ≡ false → counted env b' ≡ counted env b)
unfolding consume_budget
consume-counted n env b = (
  (λ yes'. ground (arith, eq_iff b.day_stamp env.today, eq_refl env.today)),
  (λ no'. ground (arith, eq_iff b.day_stamp env.today, eq_refl env.today)),
)

act_lem : (env : Env) (work : List Candidate) (p : Place) → WithinBudget env p (act env work p)
unfolding act
act_lem env work p = elim (Bool-cases (consume_budget (length work) env.today p.store.budget).1) [
  | inl given ↦
      let (b, grant) = consume_budget (length work) env.today p.store.budget in
      let done =
        enqueue_all_lem env 0 p.repo work
          (record p.store { budget = (consume_budget (length work) env.today p.store.budget).0 })
          p.team in
      let more = (consume-counted (length work) env p.store.budget).0 given in
      rw (given, act, done.0) (omega (arith, done.1, more.0), omega (arith, more.1))
  | inr refused ↦
      let same = (consume-counted (length work) env p.store.budget).1 refused in
      rw (refused, act) (omega (arith, same), omega (arith, same))
]

healthy-WithinBudget :
    (env : Env) (p p' : Place) → WithinBudget env p p' → WithinBudget env p (healthy env p')
unfolding push_activity
healthy-WithinBudget env p p' h = elim (Bool-cases (is_auto_pause p'.repo.paused_reason)) [
  | inl paused ↦ rw paused h
  | inr clear ↦ rw clear h
]

do_work-WithinBudget :
    (env : Env) (candidates work : List Candidate) (repo : Repo) (p : Place)
    → WithinBudget env p (do_work env candidates work repo p)
do_work-WithinBudget env candidates work repo p = elim (Bool-cases (leb 1 (length work))) [
  | inr idle ↦ rw idle (omega arith, omega arith)
  | inl busy ↦ elim (Bool-cases (is_dry p)) [
    | inl dry ↦ rw (busy, dry) (omega arith, omega arith)
    | inr wet ↦ rw (busy, wet) (act_lem env work (record p { repo = repo }))
  ]
]

complete-WithinBudget :
    (env : Env) (issues : List Issue) (pulls : List Pull) (p : Place)
    → WithinBudget env p (complete env issues pulls p)
unfolding complete
complete-WithinBudget env issues pulls p =
    let candidates = sweep_repo p.repo issues pulls env.now in
    let repo = swept env issues pulls p in
    let work = capped repo candidates in
    healthy-WithinBudget env p (do_work env candidates work repo p)
      (do_work-WithinBudget env candidates work repo p)

listing-WithinBudget :
    (env : Env) (listing : Listing) (p : Place) → WithinBudget env p (conclude env listing p)
unfolding fail push_activity
listing-WithinBudget env (listed issues pulls) p = complete-WithinBudget env issues pulls p
listing-WithinBudget env (thrown message) p = (omega arith, omega arith)

-- No sweep makes more tasks than the day's count grows by, and it does not take the count above the
-- limit per day: whatever GitHub lists, and on every branch, a failure included.
pub run_sweep-WithinBudget : (env : Env) (p : Place) → WithinBudget env p (run_sweep env p)
unfolding run_sweep fail push_activity
run_sweep-WithinBudget env p = elim (Bool-cases (is_gated p.repo || env.sweeping)) [
  | inl off ↦ rw (off, run_sweep) (omega arith, omega arith)
  | inr on ↦ rw (on, run_sweep) (listing-WithinBudget env env.listing p)
]
