-- ===== src/TeamAuto/Scanner/Advance.antt =====
-- src/src/teamauto/scanner.ts, `advanceCursors`.
use teamclaw.Prelude.{
  ℕ, ◌-◌, String, Option, List, [], ◌∷◌, ltb, leb, if◌then◌else◌, length, take, max, Dict, put,
  remove, num_truthy, get_or,
}
use teamclaw.TeamAuto.Store.{Repo}
use teamclaw.TeamAuto.Scanner.Filters.{Issue, Pull, issue_key, pull_key}

-- Date.parse(x) || now
abbrev pub time_or : Option ℕ → ℕ → ℕ
time_or t now = if num_truthy t then get_or t now else now

abbrev pub see_issues : Repo → ℕ → List Issue → Dict ℕ → Dict ℕ
see_issues repo now [] seen = seen
see_issues repo now (issue ∷ issues) seen =
    see_issues repo now issues (put seen (issue_key repo issue) (time_or issue.updated_at now))

abbrev pub see_pulls : Repo → ℕ → List Pull → Dict ℕ → Dict ℕ
see_pulls repo now [] seen = seen
see_pulls repo now (pull ∷ pulls) seen =
    see_pulls repo now pulls (put seen (pull_key repo pull) (time_or pull.updated_at now))

-- entries.sort((a, b) => a[1] - b[1]), which is stable.
abbrev insert : String × ℕ → Dict ℕ → Dict ℕ
insert e [] = e ∷ []
insert e (f ∷ es) = let rest = insert e es in if leb e.1 f.1 then e ∷ f ∷ es else f ∷ rest

abbrev pub by_time : Dict ℕ → Dict ℕ
by_time [] = []
by_time (e ∷ es) = insert e (by_time es)

abbrev remove_all : Dict ℕ → Dict ℕ → Dict ℕ
remove_all [] d = d
remove_all ((key, t) ∷ es) d = remove_all es (remove d key)

abbrev pub max_seen : ℕ
max_seen = 2000

unfoldable pub cap_seen : Dict ℕ → Dict ℕ
cap_seen seen =
    if ltb max_seen (length seen)
    then remove_all (take (length seen - max_seen) (by_time seen)) seen
    else seen

abbrev pub newest_issue : ℕ → List Issue → ℕ
newest_issue now [] = 0
newest_issue now (issue ∷ issues) = max (time_or issue.updated_at now) (newest_issue now issues)

abbrev pub newest_pull : ℕ → List Pull → ℕ
newest_pull now [] = 0
newest_pull now (pull ∷ pulls) = max (time_or pull.updated_at now) (newest_pull now pulls)

-- `advanceCursors`
unfoldable pub advance_cursors : Repo → List Issue → List Pull → ℕ → Repo
unfolding cap_seen
advance_cursors repo issues pulls now = record repo {
  cursors = record repo.cursors {
    seen = cap_seen (see_pulls repo now pulls (see_issues repo now issues repo.cursors.seen));
    last_issue_since = max repo.cursors.last_issue_since (newest_issue now issues);
    last_pr_since = max repo.cursors.last_pr_since (newest_pull now pulls);
  };
}
