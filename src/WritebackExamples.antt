-- ===== src/WritebackExamples.antt =====
-- The theorems on the write-backs at a concrete store: a task that wrote in a worktree of its own, and
-- whose pull request cannot be opened.
use teamclaw.Prelude.{◌≡◌, refl, some, none, [], ◌∷◌, All, if◌then◌else◌, ◌==◌}
use teamclaw.Team.{TaskStatus, WriteMode, TeamState}
use teamclaw.Fixtures.{fix, team}
use teamclaw.TeamAuto.Store.{Action, WriteBack, Store, empty_store}
use teamclaw.TeamAuto.Scheduler.Reply.{Host, number, umbrella}
use teamclaw.TeamAuto.Scheduler.Writeback.{reconcile_writebacks}
use teamclaw.TeamAuto.Scheduler.Umbrella.{IsPending, reconcile_writebacks_forgets}

abbrev host : Host
host = record {
  post_issue_comment = λ repo_id n body. if n == 7 then some "locked" else none;
  post_review_comment = λ repo_id n body. none;
  create_issue = λ repo_id title body labels. number 9;
  deliver = λ repo_id t. (none, some "push rejected");
}

abbrev ended : TeamState
ended = record team {
  tasks =
      (
        "t1",
        record fix {
          status = TaskStatus.completed;
          result = some "Done.";
          write_mode = some WriteMode.write;
          project_dir = some "teamauto/o__r__task-t1";
        },
      )
      ∷ [];
}

abbrev comment_entry : WriteBack
comment_entry = record {
  task_id = "t1";
  action = Action.issue_comment;
  repo_id = "o/r";
  target_id = some 42;
  done_at = none;
  pr_url = none;
  error = some "socket hang up";
  cycle_key = none;
}

abbrev section_entry : WriteBack
section_entry = record comment_entry {
  action = Action.create_issue;
  target_id = none;
  cycle_key = some "2026-11";
}

abbrev waiting_store : Store
waiting_store = record (empty_store "d") { writebacks = comment_entry ∷ section_entry ∷ [] }

reconcile_writebacks_forgets_example :
    let s' = reconcile_writebacks host 5 ended waiting_store in
    All IsPending s'.writebacks × (umbrella s'.writebacks section_entry ≡ none)
reconcile_writebacks_forgets_example =
    reconcile_writebacks_forgets host 5 ended waiting_store section_entry (refl, (refl, tt))
