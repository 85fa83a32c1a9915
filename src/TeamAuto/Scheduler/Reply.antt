-- ===== src/TeamAuto/Scheduler/Reply.antt =====
-- src/src/teamauto/scheduler.ts, the turn of one entry in `reconcileWritebacks`: what is posted on
-- GitHub for a task that has ended. Each call of the client is a function of `Host` and gets the whole
-- repository id, of which the code passes the owner and the name; the git work for a pull request is
-- one of them. Removing a worktree has no effect on the store.
use Prim.Native.Char.{code}
use teamclaw.Prelude.{
  ℕ, String, Bool, true, false, ◌&&◌, not, Option, none, some, List, [], ◌∷◌, find, ◌==◌,
  if◌then◌else◌, get, str_eq, text_truthy, num_truthy, is_some, get_or, codes, includes, ◌<>◌,
  str_trim, str_skip_spaces,
}
use teamclaw.Team.{WriteMode, TaskInfo, TeamState, is_completed, is_failed}
use teamclaw.Assignment.{option_eq}
use teamclaw.TeamAuto.Store.{Action, WriteBack}

pub data Created : Type 0 where
  number : ℕ → Created
  refused : String → Created

-- The back ends: a comment is posted unless an error is answered; the work for a pull request gives its
-- URL, if one was opened, and the error that ended it, if any.
pub record Host : Type 0 where
  pub post_issue_comment : String → ℕ → String → Option String
  pub post_review_comment : String → ℕ → String → Option String
  pub create_issue : String → String → String → List String → Created
  pub deliver : String → TaskInfo → Option String × Option String

-- MARKER_FOOTER
abbrev pub marker_footer : String → String
marker_footer role = "\n---\n[teamclaw:" <> (role <> "] autonomous via TeamClaw")

-- The rest after the first `]`, if there is one.
after_bracket : String → Option String
after_bracket String.[] = none
after_bracket (String.◌∷◌ c s) =
    let rest = after_bracket s in if code c == b']' then some s else rest

-- title.replace(/^\[[^\]]+\]\s*/, "")
unfoldable pub untagged : String → String
unfolding after_bracket str_skip_spaces
untagged String.[] = ""
untagged (String.◌∷◌ c String.[]) = String.◌∷◌ c ""
untagged (String.◌∷◌ c (String.◌∷◌ d s)) =
    if code c == b'[' && not (code d == b']')
    then elim (after_bracket s) [
      | none ↦ String.◌∷◌ c (String.◌∷◌ d s)
      | some rest ↦ str_skip_spaces rest
    ]
    else String.◌∷◌ c (String.◌∷◌ d s)

abbrev pub is_done : WriteBack → Bool
is_done w = num_truthy w.done_at

-- A dead letter: its task is gone, or failed without a result.
abbrev pub is_dead : TeamState → WriteBack → Bool
is_dead s w = not (is_done w) && elim (get s.tasks w.task_id) [
  | none ↦ true
  | some t ↦ is_failed t.status && not (text_truthy t.result)
]

abbrev pub has_result : TaskInfo → Bool
has_result t = is_completed t.status && text_truthy t.result

-- An entry with an error whose task completed with a result is tried again.
unfoldable pub heal : TeamState → WriteBack → WriteBack
heal s w = elim (get s.tasks w.task_id) [
  | none ↦ w
  | some t ↦
      if text_truthy w.error && not (is_done w) && has_result t
      then record w { error = none }
      else w
]

unfoldable pub heal_all : TeamState → List WriteBack → List WriteBack
unfolding heal
heal_all s [] = []
heal_all s (w ∷ ws) = heal s w ∷ heal_all s ws

abbrev pub is_waiting : WriteBack → Bool
is_waiting w = not (is_done w) && not (text_truthy w.error)

abbrev pub same_cycle : Option String → Option String → Bool
same_cycle none none = true
same_cycle none (some _) = false
same_cycle (some a) b = option_eq b a

-- The sections of the same review that were posted before.
abbrev pub is_peer : WriteBack → WriteBack → Bool
is_peer e w =
    str_eq w.repo_id e.repo_id
    && same_cycle w.cycle_key e.cycle_key
    && not (str_eq w.task_id e.task_id)
    && is_some w.target_id
    && is_done w

unfoldable pub umbrella : List WriteBack → WriteBack → Option ℕ
umbrella ws e = elim (find (is_peer e) ws) [ none ↦ none | some w ↦ w.target_id ]

abbrev pub fail_with : String → WriteBack → WriteBack
fail_with message e = record e { error = some message }

abbrev pub settle : ℕ → Option String → WriteBack → WriteBack
settle now none e = record e { done_at = some now }
settle now (some message) e = fail_with message e

abbrev pub settle_issue : ℕ → Created → WriteBack → WriteBack
settle_issue now (number n) e = record e { target_id = some n; done_at = some now }
settle_issue now (refused message) e = fail_with message e

abbrev pub text_of : Option String → String
text_of o = get_or o ""

-- What becomes of an entry whose reply is `body`; `ws` are the entries as they are by now.
unfoldable pub post_reply : Host → ℕ → List WriteBack → TaskInfo → String → WriteBack → WriteBack
unfolding untagged umbrella
post_reply host now ws t body e =
    let role = get_or t.assigned_role "qa" in
    let section =
      "### "
      <> (role
          <> (" section\n\n" <> (str_trim (text_of t.result) <> ("\n" <> marker_footer role)))) in
    let target = get_or e.target_id 0 in
    elim e.action [
      | Action.issue_comment ↦
          if num_truthy e.target_id
          then settle now (host.post_issue_comment e.repo_id target body) e
          else fail_with "unsupported action issueComment" e
      | Action.pr_comment ↦
          if num_truthy e.target_id
          then settle now (host.post_review_comment e.repo_id target body) e
          else fail_with "unsupported action prComment" e
      | Action.create_issue ↦
          if text_truthy e.cycle_key
          then elim (umbrella ws e) [
            | some n ↦ elim (host.post_issue_comment e.repo_id n section) [
              | none ↦ record e { target_id = some n; done_at = some now }
              | some message ↦ fail_with message e
            ]
            | none ↦
                if is_some e.target_id
                then e
                else settle_issue now
                    (host.create_issue e.repo_id
                      ("[teamclaw:fullreview] Joint full review - " <> e.repo_id)
                      ("Joint multi-role full review (cycle "
                        <> (text_of e.cycle_key
                            <> ("). Each role appends its section as a comment below.\n\n"
                                <> section)))
                      ("teamclaw" ∷ "teamclaw:fullreview" ∷ []))
                    e
          ]
          else settle_issue now
              (host.create_issue e.repo_id ("[teamclaw:" <> (role <> ("] " <> untagged t.title)))
                section ("teamclaw" ∷ []))
              e
      | Action.create_pr ↦ fail_with "unsupported action createPR" e
    ]

-- A task that wrote in a worktree of its own.
abbrev is_worktree_write : TaskInfo → Bool
is_worktree_write t = elim t.write_mode [
  | some WriteMode.write ↦ includes (codes (text_of t.project_dir)) (codes "__task-")
  | _ ↦ false
]

abbrev pr_line : Option String → String
pr_line none = ""
pr_line (some url) = "\n\nDelivered as PR: " <> url

-- The pull request of a task, before the reply.
abbrev pub worktree_work : Host → WriteBack → TaskInfo → Option String × Option String
worktree_work host e t = if is_worktree_write t then host.deliver e.repo_id t else (none, none)

abbrev pub with_pr : Option String × Option String → WriteBack → WriteBack
with_pr (opened, broken) e =
    let e' : WriteBack = elim opened [ none ↦ e | some url ↦ record e { pr_url = some url } ] in
    elim broken [
      | none ↦ e'
      | some message ↦ fail_with ("worktree PR delivery failed: " <> message) e'
    ]

abbrev pub reply_body : Option String → TaskInfo → String
reply_body opened t =
    str_trim (text_of t.result)
    <> ("\n" <> (marker_footer (get_or t.assigned_role "qa") <> pr_line opened))

-- The turn of an entry whose task has ended.
unfoldable pub reply_to : Host → ℕ → List WriteBack → TaskInfo → WriteBack → WriteBack
unfolding post_reply
reply_to host now ws t e =
    let work = worktree_work host e t in
    if is_failed t.status
    then fail_with (get_or t.error "task failed") e
    else if not (text_truthy t.result)
    then fail_with "task completed without a textual result" e
    else post_reply host now ws t (reply_body work.0 t) (with_pr work e)
