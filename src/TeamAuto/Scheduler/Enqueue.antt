-- ===== src/TeamAuto/Scheduler/Enqueue.antt =====
-- src/src/teamauto/scheduler.ts, the back-off of a failing sweep and `enqueueCandidate` with its
-- deduplication and dead letters.
use Prim.Native.Char.{code}
use teamclaw.Prelude.{
  ℕ, ◌+◌, ◌-◌, ◌*◌, ◌^◌, min, String, Bool, false, ◌&&◌, ◌||◌, not, Option, none, some, List, [],
  ◌∷◌, ◌++◌, leb, ◌==◌, if◌then◌else◌, drop, any, count, put, values, Text, codes, includes,
  starts_with, lower, join, ◌<>◌, str_take, text_truthy, str_truthy, get_or,
}
use teamclaw.Team.{WriteMode, TaskStatus, TaskInfo, TeamState, is_completed, is_failed}
use teamclaw.TeamAuto.Store.{Norms, Repo}
use teamclaw.TeamAuto.Scanner.{
  Kind, issue_review, take_ownership, pr_review, full_review, Candidate,
}

-- TEAMAUTO_DEAD_LETTER_ATTEMPTS and TEAMAUTO_DEAD_LETTER_TRANSIENT_ATTEMPTS
abbrev pub dead_letter_attempts : ℕ
dead_letter_attempts = 3

abbrev pub dead_letter_transient_attempts : ℕ
dead_letter_transient_attempts = 6

-- /rate.?limit/ at the start of a text in lower case.
rate_limit_here : Text → Bool
rate_limit_here s =
    starts_with s (codes "rate")
    && (starts_with (drop 4 s) (codes "limit")
        || not (any (λ c. starts_with (drop 4 s) (c ∷ [])) (10 ∷ 13 ∷ 0x2028 ∷ 0x2029 ∷ []))
          && starts_with (drop 5 s) (codes "limit"))

has_rate_limit : Text → Bool
unfolding rate_limit_here
has_rate_limit [] = false
has_rate_limit (c ∷ s) = rate_limit_here (c ∷ s) || has_rate_limit s

abbrev signatures : List String
signatures =
    "workspace filesystem changed" ∷ "ai service needs a short break"
    ∷ "gateway request entry is closed" ∷ "timeout" ∷ "timedout" ∷ "time out" ∷ "timed out"
    ∷ "econnreset" ∷ "socket hang up" ∷ "bad gateway" ∷ "service unavailable" ∷ []

-- TRANSIENT_FAILURE_RE.test(error)
unfoldable pub is_transient : String → Bool
unfolding has_rate_limit
is_transient error =
    let s = lower (codes error) in any (λ k. includes s (codes k)) signatures || has_rate_limit s

abbrev pub kind_name : Kind → String
kind_name issue_review = "issueReview"
kind_name take_ownership = "takeOwnership"
kind_name pr_review = "prReview"
kind_name full_review = "fullReview"

-- `idempotencyMarker`
abbrev pub idempotency_marker : Candidate → String
idempotency_marker c = "Idempotency-Key: " <> c.key <> ":" <> kind_name c.kind

abbrev pub is_about : Candidate → TaskInfo → Bool
is_about c t = includes (codes t.description) (codes (idempotency_marker c))

abbrev pub failed_attempt : Candidate → TaskInfo → Bool
failed_attempt c t = is_about c t && is_failed t.status

abbrev pub hard_attempt : Candidate → TaskInfo → Bool
hard_attempt c t =
    failed_attempt c t && not (text_truthy t.error && is_transient (get_or t.error ""))

-- `failedAttemptCount` and `hardAttemptCount`
abbrev pub failed_attempt_count : TeamState → Candidate → ℕ
failed_attempt_count s c = count (failed_attempt c) (values s.tasks)

abbrev pub hard_attempt_count : TeamState → Candidate → ℕ
hard_attempt_count s c = count (hard_attempt c) (values s.tasks)

-- `sweepBackoffMinutes`, `sweepRetryDueAt` and `isAutoPause`
unfoldable pub sweep_backoff_minutes : ℕ → ℕ
sweep_backoff_minutes failures = min (30 * 2 ^ (failures - 1)) 240

unfoldable pub sweep_retry_due_at : ℕ → ℕ → ℕ
unfolding sweep_backoff_minutes
sweep_retry_due_at failures last_error_at = last_error_at + sweep_backoff_minutes failures * 60000

abbrev pub is_auto_pause : Option String → Bool
is_auto_pause none = false
is_auto_pause (some reason) =
    str_truthy reason && starts_with (codes reason) (codes "sweep failed:")

-- repoId.replace(/[/\\]/g, "__")
abbrev repo_slug_to_dir_name : String → String
repo_slug_to_dir_name String.[] = ""
repo_slug_to_dir_name (String.◌∷◌ c s) =
    let rest = repo_slug_to_dir_name s in
    if code c == b'/' || code c == 92 then "__" <> rest else String.◌∷◌ c rest

-- `teamAutoProjectDir`
abbrev pub project_dir : String → String
project_dir repo_id = "teamauto/" <> repo_slug_to_dir_name repo_id

abbrev excerpt : String → ℕ → Option String → List String
excerpt heading limit none = []
excerpt heading limit (some text) =
    if str_truthy text then (heading <> str_take limit text) ∷ [] else []

-- `renderNormsBlock` of src/src/teamauto/norms.ts
render_norms_block : Option Norms → String → String
render_norms_block none repo_id =
    "Target repo: " <> repo_id
    <> "\nCollaboration norms: not learned yet - follow common sense and read existing issues/PRs for style.\n"
render_norms_block (some norms) repo_id =
    join "\n" (
      ("Target repo: " <> repo_id)
      ∷ ("Commit style: " <> norms.commit_style)
      ∷ (excerpt "CONTRIBUTING.md excerpt:\n" 1500 norms.contributing
          ++ (excerpt "Issue template excerpt:\n" 800 norms.issue_template
              ++ excerpt "PR template excerpt:\n" 800 norms.pr_template)))
    <> "\n"

abbrev contract_lines : WriteMode → List String
contract_lines WriteMode.read_only =
    "READ-ONLY TASK (collaboration contract): You must NOT modify, create, or delete any files - your reply IS the deliverable."
    ∷ "Base your review on the committed HEAD state (use git show/git log); uncommitted working-tree changes belong to a concurrent write task and must be ignored."
    ∷ []
contract_lines WriteMode.write =
    "WRITE TASK (collaboration contract): you are executing in a dedicated git worktree; deliver your changes via commits there - the controller turns your branch into a PR."
    ∷ []

abbrev deliverable : Kind → String
deliverable issue_review = "review comment"
deliverable pr_review = "review comment"
deliverable take_ownership = "deliverable"
deliverable full_review = "deliverable"

-- The lines of the description after its first two.
unfoldable pub more_lines : Repo → Candidate → List String
unfolding render_norms_block
more_lines repo c =
    ("Local checkout: projects/" <> project_dir c.repo_id <> " in the team workspace.")
    ∷ (contract_lines c.write_mode
        ++ (render_norms_block repo.norms repo.id
            ∷ "---"
            ∷ c.context
            ∷ "---"
            ∷ ("When finished, your reply becomes the GitHub "
                <> deliverable c.kind
                <> ". If the material is ambiguous or blocked on a human decision, request clarification instead of guessing.")
            ∷ ("\n---\n[teamclaw:" <> c.role <> "] autonomous via TeamClaw")
            ∷ []))

abbrev pub new_task : String → ℕ → Repo → Candidate → TaskInfo
new_task id now repo c = record {
  id = id;
  title = "[" <> kind_name c.kind <> "] " <> c.title;
  description = join "\n" (
      ("TeamAuto autonomous work for " <> c.repo_id <> ".")
      ∷ idempotency_marker c
      ∷ more_lines repo c);
  status = TaskStatus.pending;
  priority = elim c.kind [ take_ownership ↦ "high" | _ ↦ "medium" ];
  assigned_role = some c.role;
  assigned_worker_id = none;
  created_by = "teamauto";
  controller_run_id = none;
  controller_session_key = none;
  project_id = none;
  project_dir = some (project_dir c.repo_id);
  created_at = now;
  updated_at = now;
  started_at = none;
  completed_at = none;
  progress = none;
  result = none;
  result_contract = none;
  error = none;
  last_handoff = none;
  clarification_request_id = none;
  execution = none;
  write_mode = some c.write_mode;
  checkpoint = none;
  resume_attempt = none;
}

pub data Enqueued : Type 0 where
  enqueued dead_lettered duplicate : Enqueued

abbrev pub is_active : Candidate → TaskInfo → Bool
is_active c t = is_about c t && not (is_completed t.status) && not (is_failed t.status)

-- `enqueueCandidate`, with the identifier and the time of a new task.
unfoldable pub enqueue_candidate : String → ℕ → Repo → Candidate → TeamState → TeamState × Enqueued
enqueue_candidate id now repo c s =
    if any (is_active c) (values s.tasks)
    then (s, duplicate)
    else if leb dead_letter_attempts (hard_attempt_count s c)
        || leb dead_letter_transient_attempts (failed_attempt_count s c)
    then (s, dead_lettered)
    else (record s { tasks = put s.tasks id (new_task id now repo c) }, enqueued)
