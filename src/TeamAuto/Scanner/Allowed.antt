-- ===== src/TeamAuto/Scanner/Allowed.antt =====
-- What a sweep may propose: only work that the policy of the repository allows.
use teamclaw.Prelude.{
  ◌<◌, any, get, get_or, codes, starts_with, In, first, later, ℕ, ◌*◌, ◌≤◌, ◌≡◌, ◌⊎◌, inl, inr,
  refl, Bool, true, false, ◌&&◌, List, [], ◌∷◌, ◌++◌, arith, length, All, All-append, All-map,
  All-if, take-append, All-take, length-take, Bool-cases, Option-cases, leb, ◌-◌, filter,
}
use teamclaw.Team.{WriteMode}
use teamclaw.TeamAuto.Store.{Repo}
use teamclaw.TeamAuto.Scanner.Filters.{
  Issue, Pull, issue_review, take_ownership, pr_review, full_review, Candidate, issue_key, pull_key,
  takes_issue, takes_pull, label_allowed, keyword_allowed, has_marker, has_label, is_nil,
  matches_any,
}
use teamclaw.TeamAuto.Scanner.Sweep.{
  issue_candidates, pull_candidates, full_reviews, sweep_repo, is_review_due, issue_work,
  regular_candidates, review_interval,
}

-- An issue that may be worked on: newer than what was seen of it, with a label and a keyword of those
-- asked for and none of those excluded, not left to the humans it is assigned to, and not TeamClaw's own.
abbrev pub IsEligible : Repo → Issue → Type 0
IsEligible repo issue =
    let labels = repo.policy.label_filter in
    let keywords = repo.policy.keyword_filter in
    (get_or (get repo.cursors.seen (issue_key repo issue)) 0 < get_or issue.updated_at 0)
    × (any (has_label issue.labels) labels.exclude ≡ false)
    × ((is_nil labels.include ≡ true) ⊎ (any (has_label issue.labels) labels.include ≡ true))
    × ((is_nil keywords.exclude ≡ true)
        ⊎ (matches_any (codes issue.title) keywords.exclude ≡ false))
    × ((is_nil keywords.include ≡ true) ⊎ (matches_any (codes issue.title) keywords.include ≡ true))
    × ((repo.policy.skip_assigned_to_humans ≡ false) ⊎ (is_nil issue.assignees ≡ true))
    × (has_marker (codes issue.title) ≡ false)
    × (has_marker (codes issue.body) ≡ false)

takes_issue-IsEligible :
    (repo : Repo) (issue : Issue) → takes_issue repo issue ≡ true → IsEligible repo issue
unfolding takes_issue label_allowed keyword_allowed
takes_issue-IsEligible repo issue h = (
  ground arith,
  ground arith,
  ground arith,
  ground arith,
  ground arith,
  ground arith,
  ground arith,
  ground arith,
)

-- A pull request that may be reviewed: newer than what was seen of it, not a draft, not TeamClaw's own,
-- in a repository whose policy has reviews on.
abbrev pub IsReviewable : Repo → Pull → Type 0
IsReviewable repo pull =
    (get_or (get repo.cursors.seen (pull_key repo pull)) 0 < get_or pull.updated_at 0)
    × (starts_with (codes pull.head) (codes "teamclaw/") ≡ false)
    × (pull.draft ≡ false)
    × (has_marker (codes pull.title) ≡ false)
    × (repo.policy.actions.pr_review ≡ true)

takes_pull-IsReviewable :
    (repo : Repo) (pull : Pull) → takes_pull repo pull ≡ true → IsReviewable repo pull
unfolding takes_pull
takes_pull-IsReviewable repo pull h =
    (ground arith, ground arith, ground arith, ground arith, ground arith)

-- The work on an issue that passed every filter: a read-only review by a qa, or ownership by a
-- developer, of an open issue, as the policy's actions say.
abbrev pub FromIssue : Repo → List Issue → Candidate → Type 0
FromIssue repo issues c =
    (issue : Issue) × In issue issues
    × IsEligible repo issue
    × (c.key ≡ issue_key repo issue)
    × (((c.kind ≡ issue_review)
          × (c.write_mode ≡ WriteMode.read_only)
          × (c.role ≡ "qa")
          × (repo.policy.actions.issue_review ≡ true))
        ⊎ ((c.kind ≡ take_ownership)
            × (c.write_mode ≡ WriteMode.write)
            × (c.role ≡ "developer")
            × (repo.policy.actions.take_ownership ≡ true)
            × (issue.is_open ≡ true)))

-- A read-only review of a pull request that passed every filter.
abbrev pub FromPull : Repo → List Pull → Candidate → Type 0
FromPull repo pulls c =
    (pull : Pull) × In pull pulls
    × IsReviewable repo pull
    × (c.key ≡ pull_key repo pull)
    × (c.kind ≡ pr_review)
    × (c.write_mode ≡ WriteMode.read_only)

-- A read-only section of a full review that is due.
abbrev pub FromReview : Repo → ℕ → Candidate → Type 0
FromReview repo now c =
    (c.kind ≡ full_review) × (c.write_mode ≡ WriteMode.read_only) × (is_review_due repo now ≡ true)

abbrev pub IsAllowed : Repo → List Issue → List Pull → ℕ → Candidate → Type 0
IsAllowed repo issues pulls now c =
    FromIssue repo issues c ⊎ (FromPull repo pulls c ⊎ FromReview repo now c)

issue_work-FromIssue :
    (repo : Repo) (issue : Issue) (issues : List Issue)
    → In issue issues
    → takes_issue repo issue ≡ true
    → All (FromIssue repo issues) (issue_work repo issue)
issue_work-FromIssue repo issue issues i takes =
    let ok = takes_issue-IsEligible repo issue takes in
    All-append (FromIssue repo issues) _ _
      (All-if (FromIssue repo issues) repo.policy.actions.issue_review _
        (λ on. ((issue, i, ok, refl, inl (refl, refl, refl, on)), tt)))
      (All-if (FromIssue repo issues) (repo.policy.actions.take_ownership && issue.is_open) _ (λ on.
        ((issue, i, ok, refl, inr (refl, refl, refl, ground (arith, on), ground (arith, on))), tt)))

issue_candidates-FromIssue :
    (repo : Repo) (issues : List Issue) → All (FromIssue repo issues) (issue_candidates repo issues)
unfolding issue_candidates
issue_candidates-FromIssue repo [] = tt
issue_candidates-FromIssue repo (issue ∷ issues) =
    All-append (FromIssue repo (issue ∷ issues)) _ _
      (All-if (FromIssue repo (issue ∷ issues)) (takes_issue repo issue) _
        (issue_work-FromIssue repo issue (issue ∷ issues) first))
      (All-map (FromIssue repo issues) (FromIssue repo (issue ∷ issues)) _
        (λ c h. (h.0, later h.1, h.2, h.3, h.4)) (issue_candidates-FromIssue repo issues))

pull_candidates-FromPull :
    (repo : Repo) (pulls : List Pull) → All (FromPull repo pulls) (pull_candidates repo pulls)
unfolding pull_candidates
pull_candidates-FromPull repo [] = tt
pull_candidates-FromPull repo (pull ∷ pulls) =
    All-append (FromPull repo (pull ∷ pulls)) _ _
      (All-if (FromPull repo (pull ∷ pulls)) (takes_pull repo pull) _
        (λ on. ((pull, first, takes_pull-IsReviewable repo pull on, refl, refl, refl), tt)))
      (All-map (FromPull repo pulls) (FromPull repo (pull ∷ pulls)) _
        (λ c h. (h.0, later h.1, h.2, h.3, h.4, h.5)) (pull_candidates-FromPull repo pulls))

full_reviews-FromReview :
    (repo : Repo) (now : ℕ) → All (FromReview repo now) (full_reviews repo now)
unfolding full_reviews
full_reviews-FromReview repo now =
    elim (Option-cases (review_interval repo.policy.actions.full_review)) [
      | inl never ↦ rw (never, full_reviews) tt
      | inr (interval, cadence) ↦
          elim (Bool-cases (leb interval (now - repo.cursors.last_full_review_at))) [
            | inl due ↦
                let ok : is_review_due repo now ≡ true = rw (cadence, due, is_review_due) refl in
                rw (cadence, due, full_reviews)
                  ((refl, refl, ok), ((refl, refl, ok), ((refl, refl, ok), tt)))
            | inr early ↦ rw (cadence, early, full_reviews) tt
          ]
    ]

-- Whatever GitHub lists, a sweep proposes at most twice the cap of the policy, and each proposal is
-- allowed: a review or the ownership of a listed issue that is newer than what was seen of it, passes
-- the filters of labels and keywords and is neither left to humans nor TeamClaw's own, the review of a
-- listed pull request that is newer than what was seen of it, no draft and not TeamClaw's own, each with
-- the action enabled, or a section of a full review that is due. Only ownership may write.
pub sweep_repo-IsAllowed :
    (repo : Repo) (issues : List Issue) (pulls : List Pull) (now : ℕ)
    → (length (sweep_repo repo issues pulls now) ≤ repo.policy.max_tasks_per_sweep * 2)
      × All (IsAllowed repo issues pulls now) (sweep_repo repo issues pulls now)
unfolding sweep_repo
sweep_repo-IsAllowed repo issues pulls now =
    let found = regular_candidates repo issues pulls ++ full_reviews repo now in
    let P = IsAllowed repo issues pulls now in
    (
      omega (arith, length-take (repo.policy.max_tasks_per_sweep * 2) found),
      All-take P (repo.policy.max_tasks_per_sweep * 2) found (
          All-append P (regular_candidates repo issues pulls) (full_reviews repo now)
            (All-append P (issue_candidates repo issues) (pull_candidates repo pulls)
              (All-map (FromIssue repo issues) P _ (λ c h. inl h)
                (issue_candidates-FromIssue repo issues))
              (All-map (FromPull repo pulls) P _ (λ c h. inr (inl h))
                (pull_candidates-FromPull repo pulls)))
            (All-map (FromReview repo now) P _ (λ c h. inr (inr h))
              (full_reviews-FromReview repo now))),
    )

abbrev pub is_full : Candidate → Bool
is_full c = elim c.kind [ full_review ↦ true | _ ↦ false ]

abbrev IsRegular : Repo → List Issue → List Pull → Candidate → Type 0
IsRegular repo issues pulls c = FromIssue repo issues c ⊎ FromPull repo pulls c

IsRegular-is_full :
    (repo : Repo) (issues : List Issue) (pulls : List Pull) (c : Candidate)
    → IsRegular repo issues pulls c
    → is_full c ≡ false
IsRegular-is_full repo issues pulls c (inl (issue, i, ok, key, inl h)) = rw h.0 refl
IsRegular-is_full repo issues pulls c (inl (issue, i, ok, key, inr h)) = rw h.0 refl
IsRegular-is_full repo issues pulls c (inr (pull, i, ok, key, kind, mode)) = rw kind refl

no_full :
    (repo : Repo) (issues : List Issue) (pulls : List Pull) (cs : List Candidate)
    → All (IsRegular repo issues pulls) cs
    → filter is_full cs ≡ []
no_full repo issues pulls [] h = refl
no_full repo issues pulls (c ∷ cs) h =
    rw (IsRegular-is_full repo issues pulls c h.0) (no_full repo issues pulls cs h.1)

-- When a repository has at least twice its cap of other work, a full review that is due is not among
-- the candidates of the sweep.
pub sweep_repo-starves :
    (repo : Repo) (issues : List Issue) (pulls : List Pull) (now : ℕ)
    → repo.policy.max_tasks_per_sweep * 2 ≤ length (regular_candidates repo issues pulls)
    → filter is_full (sweep_repo repo issues pulls now) ≡ []
unfolding sweep_repo
sweep_repo-starves repo issues pulls now many =
    rw
      (take-append (repo.policy.max_tasks_per_sweep * 2) (regular_candidates repo issues pulls)
        (full_reviews repo now) many)
      (no_full repo issues pulls _ (
        All-take (IsRegular repo issues pulls) (repo.policy.max_tasks_per_sweep * 2)
          (regular_candidates repo issues pulls)
          (All-append (IsRegular repo issues pulls) (issue_candidates repo issues)
            (pull_candidates repo pulls)
            (All-map (FromIssue repo issues) (IsRegular repo issues pulls) _ (λ c h. inl h)
              (issue_candidates-FromIssue repo issues))
            (All-map (FromPull repo pulls) (IsRegular repo issues pulls) _ (λ c h. inr h)
              (pull_candidates-FromPull repo pulls)))))
