-- ===== src/TeamAuto/Scanner/Filters.antt =====
-- src/src/teamauto/scanner.ts, which issues and pull requests a sweep takes up. What GitHub lists is
-- an argument; a time is what `Date.parse` makes of its text, `none` for NaN.
use teamclaw.Prelude.{
  ℕ, String, Bool, true, false, ◌&&◌, ◌||◌, not, Option, List, [], ◌∷◌, ltb, leb, if◌then◌else◌,
  length, drop, any, get, str_eq, get_or, Text, codes, includes, starts_with, lower, is_word, trim,
  decimal, ◌<>◌, str_take, text_eq,
}
use teamclaw.Team.{WriteMode}
use teamclaw.TeamAuto.Store.{Cursors, Repo}

-- `SweepableIssue`
pub record Issue : Type 0 where
  pub number : ℕ
  pub title : String
  pub body : String
  pub is_open : Bool
  pub assignees : List String
  pub labels : List String
  pub updated_at : Option ℕ
  pub user : String
  pub html_url : String

-- `SweepablePull`
pub record Pull : Type 0 where
  pub number : ℕ
  pub title : String
  pub body : String
  pub draft : Bool
  pub updated_at : Option ℕ
  pub user : String
  pub head : String
  pub html_url : String

-- `CandidateKind`
pub data Kind : Type 0 where
  issue_review take_ownership pr_review full_review : Kind

pub record Candidate : Type 0 where
  pub kind : Kind
  pub repo_id : String
  pub key : String
  pub number : ℕ
  pub title : String
  pub role : String
  pub write_mode : WriteMode
  pub cycle : Option ℕ
  pub reason : String
  pub context : String

unfoldable pub matches_any : Text → List String → Bool
matches_any text keywords =
    any (λ k. not (text_eq (trim (codes k)) []) && includes (lower text) (lower (trim (codes k))))
      keywords

-- issue.labels.includes(l)
abbrev pub has_label : List String → String → Bool
has_label labels l = any (λ x. str_eq x l) labels

abbrev pub is_nil {ℓ} : {A : Type ℓ} → List A → Bool
is_nil [] = true
is_nil (x ∷ xs) = false

unfoldable pub label_allowed : Issue → Repo → Bool
label_allowed issue repo =
    let f = repo.policy.label_filter in
    not (any (has_label issue.labels) f.exclude)
    && (is_nil f.include || any (has_label issue.labels) f.include)

unfoldable pub keyword_allowed : String → Repo → Bool
unfolding matches_any
keyword_allowed title repo =
    let f = repo.policy.keyword_filter in
    not (not (is_nil f.exclude) && matches_any (codes title) f.exclude)
    && (is_nil f.include || matches_any (codes title) f.include)

-- /\[teamclaw(?::\w+)?\]/i.test(text)
marker_name : Text → Bool
unfolding is_word
marker_name [] = false
marker_name (c ∷ s) = is_word c && (starts_with s (codes "]") || marker_name s)

marker_end : Text → Bool
unfolding marker_name
marker_end s = starts_with s (codes "]") || starts_with s (codes ":") && marker_name (drop 1 s)

unfoldable pub has_marker : Text → Bool
unfolding marker_end
has_marker [] = false
has_marker (c ∷ s) =
    starts_with (lower (c ∷ s)) (codes "[teamclaw") && marker_end (drop 9 (c ∷ s)) || has_marker s

-- The native strings count code points where JavaScript counts UTF-16 units.
abbrev pub truncate : String → ℕ → String
truncate text limit = if ltb limit (length (codes text)) then str_take limit text <> "..." else text

abbrev pub issue_key : Repo → Issue → String
issue_key repo issue = repo.id <> "#issue-" <> decimal issue.number

abbrev pub pull_key : Repo → Pull → String
pull_key repo pull = repo.id <> "#pr-" <> decimal pull.number

-- (seen[key] ?? 0) >= (Date.parse(updatedAt) || 0)
abbrev pub is_seen : Cursors → String → Option ℕ → Bool
is_seen cursors key updated_at = leb (get_or updated_at 0) (get_or (get cursors.seen key) 0)

-- The guards of the loop over the issues.
unfoldable pub takes_issue : Repo → Issue → Bool
unfolding label_allowed keyword_allowed has_marker
takes_issue repo issue =
    not (is_seen repo.cursors (issue_key repo issue) issue.updated_at)
    && label_allowed issue repo
    && keyword_allowed issue.title repo
    && not (repo.policy.skip_assigned_to_humans && not (is_nil issue.assignees))
    && not (has_marker (codes issue.title) || has_marker (codes issue.body))

-- The guards of the loop over the pull requests.
unfoldable pub takes_pull : Repo → Pull → Bool
unfolding has_marker
takes_pull repo pull =
    not (is_seen repo.cursors (pull_key repo pull) pull.updated_at)
    && not (
        starts_with (codes pull.head) (codes "teamclaw/")
        || pull.draft
        || has_marker (codes pull.title))
    && repo.policy.actions.pr_review
