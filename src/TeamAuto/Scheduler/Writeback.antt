-- ===== src/TeamAuto/Scheduler/Writeback.antt =====
-- src/src/teamauto/scheduler.ts, `reconcileWritebacks`: a pass over the write-backs, in which results of
-- tasks become comments and issues by Reply. The clock stands still in a pass and no other entry is
-- registered meanwhile.
use teamclaw.Prelude.{
  ℕ, String, ◌||◌, not, Option, none, some, List, [], ◌∷◌, ◌++◌, filter, if◌then◌else◌, get, put,
  str_eq, get_or, ◌<>◌, decimal, take_last, any,
}
use teamclaw.Team.{TeamState, is_completed, is_failed}
use teamclaw.TeamAuto.Scheduler.Reply.{
  Host, reply_to, heal_all, is_done, is_dead, is_waiting, has_result, worktree_work,
}
use teamclaw.TeamAuto.Store.{Action, WriteBack, ActivityKind, Repo, Store, push_activity}

abbrev seen_key : WriteBack → Option String
seen_key e = elim e.action [
  | Action.issue_comment ↦ some (e.repo_id <> ("#issue-" <> decimal (get_or e.target_id 0)))
  | Action.pr_comment ↦ some (e.repo_id <> ("#pr-" <> decimal (get_or e.target_id 0)))
  | _ ↦ none
]

mark_seen : ℕ → String → String → List Repo → List Repo
mark_seen now repo_id key [] = []
mark_seen now repo_id key (r ∷ rs) =
    if str_eq r.id repo_id
    then record r { cursors = record r.cursors { seen = put r.cursors.seen key now } } ∷ rs
    else r ∷ mark_seen now repo_id key rs

unfoldable pub log_pr : ℕ → WriteBack → Option String → Store → Store
unfolding push_activity
log_pr now e none s = s
log_pr now e (some url) s =
    push_activity
      record {
        at = now;
        repo_id = e.repo_id;
        kind = ActivityKind.writeback;
        text = "PR opened: " <> url;
      }
      s

abbrev action_name : Action → String
action_name Action.issue_comment = "issueComment"
action_name Action.pr_comment = "prComment"
action_name Action.create_issue = "createIssue"
action_name Action.create_pr = "createPR"

abbrev target_text : Option ℕ → String
target_text none = "-"
target_text (some n) = decimal n

-- What the store keeps of a reply, of which `e` is the entry afterwards.
unfoldable pub log_reply : ℕ → WriteBack → Store → Store
unfolding push_activity mark_seen
log_reply now e s =
    let seen : List Repo = elim (seen_key e) [
      | none ↦ s.repos
      | some key ↦ mark_seen now e.repo_id key s.repos
    ] in
    if is_done e
    then push_activity
        record {
          at = now;
          repo_id = e.repo_id;
          kind = ActivityKind.writeback;
          text =
              action_name e.action
              <> (" #" <> (target_text e.target_id <> (" ok (" <> (e.task_id <> ")"))));
        }
        (record s { repos = seen })
    else s

-- The turn of an entry, with the records that it leaves in the store.
unfoldable pub write_back :
    Host → ℕ → TeamState → List WriteBack → Store → WriteBack → Store × WriteBack
unfolding reply_to log_reply log_pr
write_back host now team ws s e = elim (get team.tasks e.task_id) [
  | none ↦ (s, e)
  | some t ↦
      if not (is_waiting e) || not (is_completed t.status || is_failed t.status)
      then (s, e)
      else let e' = reply_to host now ws t e in
        let opened = if has_result t then (worktree_work host e t).0 else none in
        (log_reply now e' (log_pr now e opened s), e')
]

-- The loop over the entries; those of `before` had their turn.
unfoldable pub write_back_all :
    Host → ℕ → TeamState → List WriteBack → List WriteBack → Store → Store × List WriteBack
unfolding write_back
write_back_all host now team before [] s = (s, before)
write_back_all host now team before (e ∷ ws) s =
    let r = write_back host now team (before ++ e ∷ ws) s e in
    write_back_all host now team (before ++ r.1 ∷ []) ws r.0

-- `reconcileWritebacks`
unfoldable pub reconcile_writebacks : Host → ℕ → TeamState → Store → Store
unfolding heal_all write_back_all
reconcile_writebacks host now team s =
    let live = heal_all team (filter (λ w. not (is_dead team w)) s.writebacks) in
    let r = write_back_all host now team [] live s in
    if any is_waiting live
    then record r.0 { writebacks = take_last 500 (filter (λ w. not (is_done w)) r.1) }
    else record s { writebacks = live }
