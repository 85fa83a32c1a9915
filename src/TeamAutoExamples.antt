-- ===== src/TeamAutoExamples.antt =====
-- Tests on a bound repository, and the theorems on repository sweeps at concrete inputs.
use teamclaw.Prelude.{
  ◌+◌, ◌*◌, ◌≤◌, ◌≡◌, ◌⊎◌, inl, inr, refl, true, false, none, some, [], ◌∷◌, arith, length, filter,
  All, get, starts_with, ◌<>◌, decimal, leb,
}
use teamclaw.TeamAuto.Store.{
  Repo, Budget, Activity, ActivityKind, default_policy, default_cursors, empty_store,
}
use teamclaw.TeamAuto.Scanner.{
  Issue, Pull, sweep_repo, regular_candidates, issue_candidates, pull_candidates, review_pull,
}
use teamclaw.TeamAuto.Scanner.Allowed.{IsAllowed, is_full, sweep_repo-IsAllowed, sweep_repo-starves}
use teamclaw.TeamAuto.Scheduler.{
  Env, Place, listed, thrown, run_sweep, ticks, fail, complete, enqueue_candidate, enqueued,
  duplicate, sweep_backoff_minutes, dead_letter_transient_attempts,
}
use teamclaw.TeamAuto.Scheduler.Once.{active_count, attempt_count, enqueue_candidate_once}
use teamclaw.TeamAuto.Scheduler.Counting.{WithinBudget, run_sweep-WithinBudget}
use teamclaw.TeamAuto.Scheduler.Recovery.{run_sweep-rests, fail-recovers}
use teamclaw.Team.{TeamState}

abbrev repo : Repo
repo = record {
  id = "o/r";
  enabled = true;
  schedule = "*/30 * * * *";
  added_at = 0;
  last_sweep_at = 0;
  last_sweep_summary = none;
  paused_reason = none;
  sweep_failures = none;
  last_sweep_error_at = none;
  dry_run_done = true;
  provision = none;
  policy = record default_policy { max_tasks_per_sweep = 1 };
  cursors = default_cursors;
  norms = none;
}

abbrev issue : Issue
issue = record {
  number = 42;
  title = "Crash";
  body = "It crashes.";
  is_open = true;
  assignees = [];
  labels = [];
  updated_at = some 500;
  user = "u";
  html_url = "";
}

abbrev pull : Pull
pull = record {
  number = 7;
  title = "Fix";
  body = "";
  draft = false;
  updated_at = some 700;
  user = "u";
  head = "fix";
  html_url = "";
}

abbrev entry : Activity
entry = record { at = 1; repo_id = "o/r"; kind = ActivityKind.sweep; text = "sweep complete" }

abbrev budget : Budget
budget = record {
  max_tasks_per_day = 3;
  first_sweep_dry_run = true;
  tasks_today = 1;
  day_stamp = "d";
}

sweep_repo_example :
    (length (sweep_repo repo (issue ∷ []) (pull ∷ []) 900) ≤ repo.policy.max_tasks_per_sweep * 2)
    × All
        (IsAllowed repo (issue ∷ []) (pull ∷ []) 900)
        (sweep_repo repo (issue ∷ []) (pull ∷ []) 900)
sweep_repo_example = sweep_repo-IsAllowed repo (issue ∷ []) (pull ∷ []) 900

many_regular :
    repo.policy.max_tasks_per_sweep * 2 ≤ length (regular_candidates repo (issue ∷ []) (pull ∷ []))
unfolding issue_candidates pull_candidates get starts_with
many_regular = omega arith

starves_example : filter is_full (sweep_repo repo (issue ∷ []) (pull ∷ []) 900000000) ≡ []
starves_example = sweep_repo-starves repo (issue ∷ []) (pull ∷ []) 900000000 many_regular

abbrev no_team : TeamState
no_team = record { workers = []; tasks = []; clarifications = []; provisioning = [] }

abbrev env : Env
env = record {
  now = 5000000;
  today = "d";
  sweeping = false;
  new_id = λ k. "teamauto-" <> decimal k;
  listing = listed (issue ∷ []) (pull ∷ []);
}

abbrev place : Place
place = record { repo = repo; store = empty_store "d"; team = no_team }

no_task : get no_team.tasks "t1" ≡ none
unfolding get
no_task = refl

enqueue_candidate_example :
    let c = review_pull repo pull in
    let (s', outcome) = enqueue_candidate "t1" 5 repo c no_team in
    (active_count s' c ≤ 1)
    × (attempt_count s' c ≤ dead_letter_transient_attempts)
    × (((outcome ≡ enqueued)
          × (active_count s' c ≡ 1)
          × (enqueue_candidate "t2" 6 repo c s' ≡ (s', duplicate)))
        ⊎ (s' ≡ no_team))
enqueue_candidate_example =
    enqueue_candidate_once "t1" "t2" 5 6 repo (review_pull repo pull) no_team no_task (omega arith)
      (omega arith)

run_sweep_example : WithinBudget env place (run_sweep env place)
run_sweep_example = run_sweep-WithinBudget env place

abbrev down : Env
down = record env { listing = thrown "fetch failed" }

run_sweep_rests_example :
    ((run_sweep down place).team ≡ place.team)
    × ((run_sweep down place).repo.cursors ≡ place.repo.cursors)
run_sweep_rests_example = run_sweep-rests down "fetch failed" place (inr (inl refl))

fail_recovers_example :
    (ticks 6800000 (fail down "fetch failed" place).repo
      ≡ leb (5000000 + sweep_backoff_minutes (0 + 1) * 60000) 6800000)
    × ((complete env (issue ∷ []) [] (fail down "fetch failed" place)).repo.paused_reason ≡ none)
    × ((complete env (issue ∷ []) [] (fail down "fetch failed" place)).repo.sweep_failures ≡ some 0)
    × (ticks 6800000 (complete env (issue ∷ []) [] (fail down "fetch failed" place)).repo ≡ true)
fail_recovers_example = fail-recovers down env 6800000 "fetch failed" (issue ∷ []) [] place refl
