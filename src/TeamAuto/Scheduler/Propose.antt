-- ===== src/TeamAuto/Scheduler/Propose.antt =====
-- src/src/teamauto/scheduler.ts, `proposeManual` and the choice of worktrees to clean up at the start.
use teamclaw.Prelude.{
  ℕ, String, Bool, true, false, not, ◌&&◌, Option, none, some, List, [], ◌∷◌, find, any, str_eq,
  get, get_or, text_truthy, str_take, ◌<>◌, decimal, values, if◌then◌else◌, ◌≡◌, refl, ap, arith,
  count-any,
}
use teamclaw.Team.{WriteMode, TeamState, is_completed, is_failed}
use teamclaw.TeamAuto.Store.{Repo, Store, ActivityKind, push_activity}
use teamclaw.TeamAuto.Scanner.{Kind, take_ownership, Candidate}
use teamclaw.TeamAuto.Scheduler.Enqueue.{
  enqueue_candidate, Enqueued, enqueued, kind_name, is_about, is_active, failed_attempt,
  hard_attempt,
}
use teamclaw.TeamAuto.Scheduler.Reply.{is_done}

pub data Proposed : Type 0 where
  not_bound : Proposed
  answered : Enqueued → Proposed

abbrev chosen_role : Kind → Option String → String
chosen_role kind role =
    if text_truthy role
    then get_or role ""
    else elim kind [ take_ownership ↦ "developer" | _ ↦ "architect" ]

abbrev chosen_mode : Kind → Option WriteMode → WriteMode
chosen_mode kind (some m) = m
chosen_mode take_ownership none = WriteMode.write
chosen_mode _ none = WriteMode.read_only

-- The candidate of a proposal; its key carries the time.
abbrev pub manual_candidate :
    ℕ → String → Kind → String → String → Option String → Option WriteMode → Candidate
manual_candidate now repo_id kind title context role write_mode = record {
  repo_id = repo_id;
  key = repo_id <> ("#manual-" <> decimal now);
  kind = kind;
  number = 0;
  role = chosen_role kind role;
  write_mode = chosen_mode kind write_mode;
  title = str_take 120 title;
  cycle = none;
  reason = "manual proposal from agent tool";
  context = context;
}

-- `proposeManual`, with the identifier of a new task.
unfoldable pub propose_manual :
    String
    → ℕ
    → String
    → Kind
    → String
    → String
    → Option String
    → Option WriteMode
    → Store
    → TeamState
    → (Store × TeamState) × Proposed
unfolding enqueue_candidate push_activity
propose_manual id now repo_id kind title context role write_mode s team =
    elim (find (λ (r : Repo). str_eq r.id repo_id) s.repos) [
      | none ↦ ((s, team), not_bound)
      | some repo ↦
          let c = manual_candidate now repo_id kind title context role write_mode in
          let r = enqueue_candidate id now repo c team in
          let logged =
            push_activity
              record {
                at = now;
                repo_id = repo_id;
                kind = ActivityKind.task;
                text = "manual " <> (kind_name kind <> (": " <> c.title));
              }
              s in
          elim r.1 [ enqueued ↦ ((logged, r.0), answered r.1) | _ ↦ ((s, r.0), answered r.1) ]
    ]

-- `isTerminal`: the worktree of the task may be removed at the start.
unfoldable pub is_terminal : Store → TeamState → String → Bool
is_terminal s team task_id =
    let settled = not (any (λ w. str_eq w.task_id task_id && not (is_done w)) s.writebacks) in
    elim (get team.tasks task_id) [
      | none ↦ settled
      | some t ↦ if not (is_completed t.status) && not (is_failed t.status) then false else settled
    ]

any-weaker {ℓ} :
    {A : Type ℓ} (p q : A → Bool) (xs : List A)
    → ((x : A) → q x ≡ true → p x ≡ true)
    → any p xs ≡ false
    → any q xs ≡ false
any-weaker p q [] h none_is = refl
any-weaker p q (x ∷ xs) h none_is = ground (arith, h x, any-weaker p q xs h)

enqueue_candidate_unknown :
    (id : String) (now : ℕ) (repo : Repo) (c : Candidate) (team : TeamState)
    → any (is_about c) (values team.tasks) ≡ false
    → (enqueue_candidate id now repo c team).1 ≡ enqueued
unfolding enqueue_candidate
enqueue_candidate_unknown id now repo c team fresh =
    let idle =
      any-weaker (is_about c) (is_active c) (values team.tasks) (λ t h. ground arith) fresh in
    let failed = count-any (failed_attempt c) (values team.tasks) (
      any-weaker (is_about c) (failed_attempt c) (values team.tasks) (λ t h. ground arith) fresh) in
    let hard =
      count-any (hard_attempt c) (values team.tasks) (
        any-weaker (is_about c) (hard_attempt c) (values team.tasks) (λ t h. ground arith) fresh) in
    rw (idle, enqueue_candidate, failed, hard) refl

-- A proposal is taken whenever the repository is bound and no task bears its key; as the key carries the
-- time, a proposal that was made before, or that failed many times, is taken again at another time.
pub propose_manual_fresh :
    (id : String) (now : ℕ) (repo_id : String) (kind : Kind) (title context : String)
    (role : Option String) (write_mode : Option WriteMode) (s : Store) (team : TeamState)
    (repo : Repo)
    → find (λ (r : Repo). str_eq r.id repo_id) s.repos ≡ some repo
    → any
        (is_about (manual_candidate now repo_id kind title context role write_mode))
        (values team.tasks)
      ≡ false
    → (propose_manual id now repo_id kind title context role write_mode s team).1
      ≡ answered enqueued
unfolding propose_manual
propose_manual_fresh id now repo_id kind title context role write_mode s team repo bound fresh =
    let c = manual_candidate now repo_id kind title context role write_mode in
    let taken = enqueue_candidate_unknown id now repo c team fresh in
    rw (bound, propose_manual, taken) (ap answered taken)
