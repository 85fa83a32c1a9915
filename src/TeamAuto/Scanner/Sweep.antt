-- ===== src/TeamAuto/Scanner/Sweep.antt =====
-- src/src/teamauto/scanner.ts, `sweepRepo`: the candidates of a sweep.
use teamclaw.Prelude.{
  ℕ, ◌-◌, ◌*◌, ◌/◌, String, Bool, false, ◌&&◌, Option, none, some, List, [], ◌∷◌, ◌++◌, leb,
  if◌then◌else◌, take, map, str_truthy, decimal, join, ◌<>◌,
}
use teamclaw.Team.{WriteMode}
use teamclaw.TeamAuto.Store.{FullReview, Repo}
use teamclaw.TeamAuto.Scanner.Filters.{
  Issue, Pull, issue_review, take_ownership, pr_review, full_review, Candidate, truncate, issue_key,
  pull_key, takes_issue, takes_pull,
}

abbrev labels_line : List String → String
labels_line labels = if str_truthy (join ", " labels) then join ", " labels else "none"

abbrev review_issue : Repo → Issue → Candidate
review_issue repo issue = record {
  kind = issue_review;
  repo_id = repo.id;
  key = issue_key repo issue;
  number = issue.number;
  title = truncate ("Review issue #" <> decimal issue.number <> ": " <> issue.title) 120;
  role = "qa";
  write_mode = WriteMode.read_only;
  cycle = none;
  reason = "new/updated issue needs triage";
  context =
      "Issue #"
      <> decimal issue.number
      <> " by @"
      <> issue.user
      <> "\nTitle: "
      <> issue.title
      <> "\nLabels: "
      <> labels_line issue.labels
      <> "\nLink: "
      <> issue.html_url
      <> "\n\nBody:\n"
      <> truncate issue.body 4000;
}

abbrev own_issue : Repo → Issue → Candidate
own_issue repo issue = record {
  kind = take_ownership;
  repo_id = repo.id;
  key = issue_key repo issue;
  number = issue.number;
  title = truncate ("Take ownership of issue #" <> decimal issue.number <> ": " <> issue.title) 120;
  role = "developer";
  write_mode = WriteMode.write;
  cycle = none;
  reason = "unassigned issue eligible for autonomous ownership";
  context =
      "Own and implement issue #"
      <> decimal issue.number
      <> ": "
      <> issue.title
      <> "\nLink: "
      <> issue.html_url
      <> "\n\nBody:\n"
      <> truncate issue.body 6000;
}

abbrev pub issue_work : Repo → Issue → List Candidate
issue_work repo issue =
    let actions = repo.policy.actions in
    (if actions.issue_review then review_issue repo issue ∷ [] else [])
    ++ (if actions.take_ownership && issue.is_open then own_issue repo issue ∷ [] else [])

unfoldable pub issue_candidates : Repo → List Issue → List Candidate
unfolding takes_issue
issue_candidates repo [] = []
issue_candidates repo (issue ∷ issues) =
    (if takes_issue repo issue then issue_work repo issue else []) ++ issue_candidates repo issues

abbrev pub review_pull : Repo → Pull → Candidate
review_pull repo pull = record {
  kind = pr_review;
  repo_id = repo.id;
  key = pull_key repo pull;
  number = pull.number;
  title = truncate ("Review PR #" <> decimal pull.number <> ": " <> pull.title) 120;
  role = "qa";
  write_mode = WriteMode.read_only;
  cycle = none;
  reason = "new/updated pull request needs review";
  context =
      "PR #"
      <> decimal pull.number
      <> " by @"
      <> pull.user
      <> " (head: "
      <> pull.head
      <> ")\nLink: "
      <> pull.html_url
      <> "\n\nDescription:\n"
      <> truncate pull.body 4000;
}

unfoldable pub pull_candidates : Repo → List Pull → List Candidate
unfolding takes_pull
pull_candidates repo [] = []
pull_candidates repo (pull ∷ pulls) =
    (if takes_pull repo pull then review_pull repo pull ∷ [] else []) ++ pull_candidates repo pulls

abbrev cadence : FullReview → String
cadence FullReview.off = "off"
cadence FullReview.weekly = "weekly"
cadence FullReview.daily = "daily"

-- `JOINT_REVIEW_ROLES` with `JOINT_REVIEW_FOCUS`
abbrev pub joint_review_roles : List (String × String)
joint_review_roles =
    (
      "architect",
      "architecture and structure: module boundaries, layering, README/docs accuracy, maintainability hotspots, dead or duplicated code paths",
    )
    ∷ (
      "qa",
      "quality and tests: test coverage gaps, flaky-test hotspots, error-handling weaknesses, missing failure-path tests, CI blind spots",
    )
    ∷ (
      "security-engineer",
      "security surface: dependency risks, secret handling, injection/validation gaps, auth-sensitive paths, unsafe defaults",
    )
    ∷ []

abbrev pub section_of : Repo → ℕ → String × String → Candidate
section_of repo cycle (role, focus) = record {
  kind = full_review;
  repo_id = repo.id;
  key = repo.id <> "#fullreview-" <> decimal cycle <> "-" <> role;
  number = 0;
  title = "Full repository review (" <> role <> "): " <> repo.id;
  role = role;
  write_mode = WriteMode.read_only;
  cycle = some cycle;
  reason =
      "scheduled "
      <> cadence repo.policy.actions.full_review
      <> " full review (joint, "
      <> role
      <> " section)";
  context =
      "Perform the " <> role <> " section of a joint full-repository review of " <> repo.id
      <> ".\nYour focus: " <> focus
      <> ".\nOther roles cover complementary areas in parallel - do NOT duplicate their scope; go deep on yours.\nYour reply becomes the "
      <> role <> " section of the joint review issue on GitHub. Do not change code.";
}

abbrev pub review_interval : FullReview → Option ℕ
review_interval FullReview.off = none
review_interval FullReview.weekly = some 604800000
review_interval FullReview.daily = some 86400000

abbrev pub is_review_due : Repo → ℕ → Bool
is_review_due repo now = elim (review_interval repo.policy.actions.full_review) [
  | none ↦ false
  | some interval ↦ leb interval (now - repo.cursors.last_full_review_at)
]

unfoldable pub full_reviews : Repo → ℕ → List Candidate
full_reviews repo now = elim (review_interval repo.policy.actions.full_review) [
  | none ↦ []
  | some interval ↦
      if leb interval (now - repo.cursors.last_full_review_at)
      then map (section_of repo (now / interval)) joint_review_roles
      else []
]

-- What `sweepRepo` finds before it cuts the list.
abbrev pub regular_candidates : Repo → List Issue → List Pull → List Candidate
regular_candidates repo issues pulls = issue_candidates repo issues ++ pull_candidates repo pulls

-- The candidates of `sweepRepo`.
unfoldable pub sweep_repo : Repo → List Issue → List Pull → ℕ → List Candidate
unfolding issue_candidates pull_candidates full_reviews
sweep_repo repo issues pulls now =
    take (repo.policy.max_tasks_per_sweep * 2)
      (regular_candidates repo issues pulls ++ full_reviews repo now)
