-- ===== src/TeamAuto/Scheduler/Run.antt =====
-- src/src/teamauto/scheduler.ts, `runSweep`, `registerWriteback` and the guard of the timer. What
-- `sweepRepo` fetches or throws is an argument, and so are the identifiers of new tasks.
use teamclaw.Prelude.{
  ℕ, ◌+◌, ◌-◌, String, Bool, true, false, ◌&&◌, ◌||◌, not, Option, none, some, List, [], ◌∷◌, ◌++◌,
  leb, ◌==◌, if◌then◌else◌, length, take, any, filter, map, str_eq, get_or, is_some, decimal, join,
  ◌<>◌,
}
use teamclaw.Team.{TeamState}
use teamclaw.TeamAuto.Store.{
  Repo, Store, ProvisionState, ActivityKind, Action, WriteBack, push_activity, consume_budget,
}
use teamclaw.TeamAuto.Scanner.{
  Issue, Pull, Kind, issue_review, take_ownership, pr_review, full_review, Candidate, sweep_repo,
  advance_cursors,
}
use teamclaw.TeamAuto.Scheduler.Enqueue.{
  enqueue_candidate, Enqueued, enqueued, dead_lettered, duplicate, kind_name, is_auto_pause,
  sweep_backoff_minutes, sweep_retry_due_at,
}

-- What the client's requests give: the lists, or the message of what they throw.
pub data Listing : Type 0 where
  listed : List Issue → List Pull → Listing
  thrown : String → Listing

pub record Env : Type 0 where
  pub now : ℕ
  pub today : String
  -- A sweep of the same repository is running.
  pub sweeping : Bool
  pub new_id : ℕ → String
  pub listing : Listing

-- The repository, the store without it, and the controller's state.
pub record Place : Type 0 where
  pub repo : Repo
  pub store : Store
  pub team : TeamState

abbrev note : ℕ → Repo → ActivityKind → String → Store → Store
note now repo kind text s =
    push_activity (record { at = now; repo_id = repo.id; kind = kind; text = text }) s

-- `registerWriteback`
unfoldable pub register_writeback :
    String → Action → String → Option ℕ → Option String → Store → Store
register_writeback task_id action repo_id target_id cycle_key s =
    if any (λ (w : WriteBack). str_eq w.task_id task_id) s.writebacks then s else record s {
      writebacks =
          s.writebacks
          ++ (record {
            task_id = task_id;
            action = action;
            repo_id = repo_id;
            target_id = target_id;
            done_at = none;
            pr_url = none;
            error = none;
            cycle_key = cycle_key;
          })
            ∷ [];
    }

abbrev action_of : Kind → Action
action_of issue_review = Action.issue_comment
action_of take_ownership = Action.issue_comment
action_of pr_review = Action.pr_comment
action_of full_review = Action.create_issue

abbrev cycle_text : Option ℕ → Option String
cycle_text none = none
cycle_text (some n) = some (decimal n)

-- What the store records of a candidate that went to the tasks.
unfoldable pub record_outcome : Env → String → Repo → Candidate → Enqueued → Store → Store
unfolding register_writeback
record_outcome env id repo c duplicate s = s
record_outcome env id repo c dead_lettered s =
    note env.now repo ActivityKind.sweep
      ("dead-lettered after 3 failed attempts: " <> kind_name c.kind <> ": " <> c.title) s
record_outcome env id repo c enqueued s =
    register_writeback id (action_of c.kind) repo.id (if c.number == 0 then none else some c.number)
      (cycle_text c.cycle)
      (note env.now repo ActivityKind.task (kind_name c.kind <> ": " <> c.title) s)

abbrev pub is_enqueued : Enqueued → ℕ
is_enqueued enqueued = 1
is_enqueued _ = 0

-- The loop over the candidates; the number of tasks it creates comes last.
unfoldable pub enqueue_all :
    Env → ℕ → Repo → List Candidate → Store → TeamState → (Store × TeamState) × ℕ
unfolding record_outcome
enqueue_all env k repo [] store team = ((store, team), 0)
enqueue_all env k repo (c ∷ cs) store team =
    let (team', outcome) = enqueue_candidate (env.new_id k) env.now repo c team in
    let (rest, created) =
      enqueue_all env (k + 1) repo cs (record_outcome env (env.new_id k) repo c outcome store)
        team' in
    (rest, is_enqueued outcome + created)

abbrev pub is_full_review : Candidate → Bool
is_full_review c = elim c.kind [ full_review ↦ true | _ ↦ false ]

-- The full reviews, then other work up to the cap.
abbrev pub capped : Repo → List Candidate → List Candidate
capped repo candidates =
    let full_reviews = filter is_full_review candidates in
    full_reviews
    ++ take (repo.policy.max_tasks_per_sweep - length full_reviews)
        (filter (λ c. not (is_full_review c)) candidates)

abbrev dry_line : Candidate → String
dry_line c = "DRY-RUN would " <> kind_name c.kind <> ": " <> c.title

abbrev pub dry_summary : List Candidate → List Candidate → String
dry_summary candidates work =
    "dry-run: "
    <> join "; " (("found " <> decimal (length candidates) <> " candidate(s)") ∷ map dry_line work)

abbrev pub with_summary : String → Repo → Repo
with_summary summary repo = record repo { last_sweep_summary = some summary }

abbrev reviewed : ℕ → List Candidate → Repo → Repo
reviewed now work repo =
    if any is_full_review work
    then record repo { cursors = record repo.cursors { last_full_review_at = now } }
    else repo

-- The acting part of a sweep with work to do. A refusal leaves the summary of the sweep before.
unfoldable pub act : Env → List Candidate → Place → Place
unfolding enqueue_all
act env work p =
    let (budget, granted) = consume_budget (length work) env.today p.store.budget in
    let ((store, team), created) =
      enqueue_all env 0 p.repo work (record p.store { budget = budget }) p.team in
    if granted
    then record {
      repo = reviewed env.now work (
          with_summary ("created " <> decimal created <> "/" <> decimal (length work) <> " task(s)")
            p.repo);
      store = store;
      team = team;
    }
    else record p { store = record p.store { budget = budget } }

abbrev pub healthy : Env → Place → Place
healthy env p =
    let store =
      if is_auto_pause p.repo.paused_reason
      then note env.now p.repo ActivityKind.sweep "sweep recovered, auto-pause cleared" p.store
      else p.store in
    record p {
      repo = record p.repo {
        last_sweep_at = env.now;
        paused_reason = if is_auto_pause p.repo.paused_reason then none else p.repo.paused_reason;
        sweep_failures = some 0;
      };
      store =
          note env.now p.repo ActivityKind.sweep (get_or p.repo.last_sweep_summary "sweep complete")
            store;
    }

abbrev pub is_dry : Place → Bool
is_dry p = not p.repo.dry_run_done && p.store.budget.first_sweep_dry_run

-- The repository with its mark of the dry run, or with its cursors advanced.
abbrev pub swept : Env → List Issue → List Pull → Place → Repo
swept env issues pulls p =
    if is_dry p
    then record p.repo { dry_run_done = true }
    else advance_cursors p.repo issues pulls env.now

-- The branches on the work that is left after the cap.
abbrev pub do_work : Env → List Candidate → List Candidate → Repo → Place → Place
do_work env candidates work repo p =
    if leb 1 (length work)
    then (if is_dry p
        then record p { repo = with_summary (dry_summary candidates work) repo }
        else act env work (record p { repo = repo }))
    else record p { repo = with_summary "no new work" repo }

-- A sweep whose requests succeeded.
unfoldable pub complete : Env → List Issue → List Pull → Place → Place
unfolding act
complete env issues pulls p =
    let candidates = sweep_repo p.repo issues pulls env.now in
    let repo = swept env issues pulls p in
    healthy env (do_work env candidates (capped repo candidates) repo p)

-- A sweep whose requests threw.
unfoldable pub fail : Env → String → Place → Place
fail env message p =
    let failures = get_or p.repo.sweep_failures 0 + 1 in
    record p {
      repo = record p.repo {
        sweep_failures = some failures;
        last_sweep_error_at = some env.now;
        paused_reason = some ("sweep failed: " <> message);
      };
      store =
          note env.now p.repo ActivityKind.sweep
            ("sweep failed (auto-retry in ~"
              <> decimal (sweep_backoff_minutes failures)
              <> "min): "
              <> message)
            p.store;
    }

abbrev pub is_gated : Repo → Bool
is_gated repo = elim repo.provision [
  | none ↦ false
  | some provision ↦ elim provision.status [ ProvisionState.ready ↦ false | _ ↦ true ]
]

abbrev pub conclude : Env → Listing → Place → Place
conclude env (listed issues pulls) p = complete env issues pulls p
conclude env (thrown message) p = fail env message p

-- `runSweep`, without its answer.
unfoldable pub run_sweep : Env → Place → Place
unfolding complete fail
run_sweep env p = if is_gated p.repo || env.sweeping then p else conclude env env.listing p

-- The guard of a timer's tick.
unfoldable pub ticks : ℕ → Repo → Bool
ticks now repo =
    repo.enabled
    && (not (is_some repo.paused_reason)
        || is_auto_pause repo.paused_reason
          && leb
              (sweep_retry_due_at (get_or repo.sweep_failures 1)
                (get_or repo.last_sweep_error_at 0))
              now)
