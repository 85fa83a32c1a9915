-- ===== src/TeamAuto/Scheduler/Posting.antt =====
-- What a reply to a task that has ended comes to, whatever GitHub answers: the result is posted, or
-- the entry stays, with the refusal of GitHub or because it cannot be posted.
use teamclaw.Prelude.{
  ℕ, ◌≡◌, ◌⊎◌, refl, inl, inr, String, Bool, Bool-cases, Option-cases, true, false, ◌&&◌, not,
  Option, none, some, List, [], ◌∷◌, num_truthy, text_truthy, is_some, get, arith, get_or, str_trim,
  ◌<>◌,
}
use teamclaw.Team.{TaskInfo, TeamState, is_failed}
use teamclaw.TeamAuto.Store.{Action, WriteBack}
use teamclaw.TeamAuto.Scheduler.Reply.{
  Host, untagged, Created, number, refused, is_done, has_result, umbrella, post_reply, reply_to,
  fail_with, with_pr, worktree_work, reply_body, text_of, marker_footer,
}

-- Whether the entry can be posted, once its task has a result.
abbrev pub can_post : WriteBack → Bool
can_post w = elim w.action [
  | Action.issue_comment ↦ num_truthy w.target_id
  | Action.pr_comment ↦ num_truthy w.target_id
  | Action.create_issue ↦ not (text_truthy w.cycle_key && is_some w.target_id)
  | Action.create_pr ↦ false
]

abbrev pub is_deliverable : TeamState → WriteBack → Bool
is_deliverable s w =
    not (is_done w)
    && can_post w
    && elim (get s.tasks w.task_id) [ none ↦ false | some t ↦ has_result t ]

-- The text `r` stands in a body.
pub data Carries (r : String) : String → Type 0 where
  starts : (rest : String) → Carries r (r <> rest)
  after : (before : String) {rest : String} → Carries r rest → Carries r (before <> rest)

abbrev result_of : TaskInfo → String
result_of t = str_trim (text_of t.result)

-- GitHub took a comment that carries the result of the task.
abbrev Commented : (String → ℕ → String → Option String) → TaskInfo → String → ℕ → Type 0
Commented post t repo_id n =
    (body : String) × Carries (result_of t) body × (post repo_id n body ≡ none)

abbrev Opened : Host → TaskInfo → String → Type 0
Opened host t repo_id =
    (title : String) × (body : String) × (labels : List String) × (n : ℕ) × Carries (result_of t)
      body
    × (host.create_issue repo_id title body labels ≡ number n)

-- The result of the task was posted where the entry asks for it: on its issue or pull request, or as
-- an issue or as a comment on the umbrella issue.
abbrev pub Delivered : Host → TaskInfo → WriteBack → Type 0
Delivered host t e = elim e.action [
  | Action.issue_comment ↦ Commented host.post_issue_comment t e.repo_id (get_or e.target_id 0)
  | Action.pr_comment ↦ Commented host.post_review_comment t e.repo_id (get_or e.target_id 0)
  | Action.create_issue ↦
      ((n : ℕ) × Commented host.post_issue_comment t e.repo_id n) ⊎ Opened host t e.repo_id
  | Action.create_pr ↦ ⊥
]

-- The error of the entry is an answer of GitHub.
abbrev pub IsRefused : Host → WriteBack → Type 0
IsRefused host w =
    (m : String) × (w.error ≡ some m)
    × (((n : ℕ) × (body : String) × (host.post_issue_comment w.repo_id n body ≡ some m))
        ⊎ (((n : ℕ) × (body : String) × (host.post_review_comment w.repo_id n body ≡ some m))
            ⊎ ((title : String) × (body : String) × (labels : List String) × (host.create_issue
                    w.repo_id title body labels
                  ≡ refused m))))

abbrev pub Outcome : Host → TaskInfo → WriteBack → WriteBack → Type 0
Outcome host t e r =
    (r.task_id ≡ e.task_id)
    × (((is_done r ≡ true) × Delivered host t e)
        ⊎ ((is_done r ≡ false) × ((can_post r ≡ false) ⊎ IsRefused host r)))

Action-cases :
    (a : Action)
    → (a ≡ Action.issue_comment)
      ⊎ ((a ≡ Action.pr_comment) ⊎ ((a ≡ Action.create_issue) ⊎ (a ≡ Action.create_pr)))
Action-cases Action.issue_comment = inl refl
Action-cases Action.pr_comment = inr (inl refl)
Action-cases Action.create_issue = inr (inr (inl refl))
Action-cases Action.create_pr = inr (inr (inr refl))

Created-cases : (c : Created) → ((n : ℕ) × (c ≡ number n)) ⊎ ((m : String) × (c ≡ refused m))
Created-cases (number n) = inl (n, refl)
Created-cases (refused m) = inr (m, refl)

module _ (host : Host) (now : ℕ) (ws : List WriteBack) (t : TaskInfo) (body : String)
    (e : WriteBack) (later : num_truthy (some now) ≡ true) (fresh : is_done e ≡ false)
    (carried : Carries (result_of t) body) where
  issue-Outcome :
      e.action ≡ Action.issue_comment → Outcome host t e (post_reply host now ws t body e)
  unfolding post_reply
  issue-Outcome issue = elim (Bool-cases (num_truthy e.target_id)) [
    | inr aimless ↦ rw (issue, post_reply, aimless) (refl, inr (fresh, inl (rw issue aimless)))
    | inl aimed ↦
        elim (Option-cases (host.post_issue_comment e.repo_id (get_or e.target_id 0) body)) [
          | inl taken ↦
              rw (issue, post_reply, aimed, taken) (refl, inl (later, (body, carried, taken)))
          | inr (m, said) ↦
              rw (issue, post_reply, aimed, said)
                (refl, inr (fresh, inr (m, refl, inl (get_or e.target_id 0, body, said))))
        ]
  ]

  pull-Outcome : e.action ≡ Action.pr_comment → Outcome host t e (post_reply host now ws t body e)
  unfolding post_reply
  pull-Outcome pull = elim (Bool-cases (num_truthy e.target_id)) [
    | inr aimless ↦ rw (pull, post_reply, aimless) (refl, inr (fresh, inl (rw pull aimless)))
    | inl aimed ↦
        elim (Option-cases (host.post_review_comment e.repo_id (get_or e.target_id 0) body)) [
          | inl taken ↦
              rw (pull, post_reply, aimed, taken) (refl, inl (later, (body, carried, taken)))
          | inr (m, said) ↦
              rw (pull, post_reply, aimed, said)
                (refl, inr (fresh, inr (m, refl, inr (inl (get_or e.target_id 0, body, said)))))
        ]
  ]

  abbrev role : String
  role = get_or t.assigned_role "qa"

  abbrev section_text : String
  section_text =
      "### " <> (role <> (" section\n\n" <> (result_of t <> ("\n" <> marker_footer role))))

  section-Carries : Carries (result_of t) section_text
  section-Carries = after "### " (after role (after " section\n\n" (starts _)))

  issue_text-Carries : Carries (result_of t) (
      "Joint multi-role full review (cycle "
      <> (text_of e.cycle_key
          <> ("). Each role appends its section as a comment below.\n\n" <> section_text)))
  issue_text-Carries = after _ (after _ (after _ section-Carries))

  create-Outcome :
      e.action ≡ Action.create_issue → Outcome host t e (post_reply host now ws t body e)
  unfolding post_reply
  create-Outcome create = elim (Bool-cases (text_truthy e.cycle_key)) [
    | inr alone ↦
        elim (Created-cases (
          host.create_issue e.repo_id ("[teamclaw:" <> (role <> ("] " <> untagged t.title)))
            section_text ("teamclaw" ∷ []))) [
              | inl (n, taken) ↦
                  rw (create, post_reply, alone, taken)
                    (refl, inl (later, inr (_, _, _, n, section-Carries, taken)))
              | inr (m, said) ↦
                  rw (create, post_reply, alone, said)
                    (refl, inr (fresh, inr (m, refl, inr (inr (_, _, _, said)))))
            ]
    | inl joint ↦ elim (Option-cases (umbrella ws e)) [
      | inl first ↦ elim (Bool-cases (is_some e.target_id)) [
        | inl aimed ↦
            rw (create, post_reply, joint, first, aimed)
              (refl, inr (fresh, inl (rw (create, joint, aimed) refl)))
        | inr aimless ↦
            elim (Created-cases (
              host.create_issue e.repo_id
                ("[teamclaw:fullreview] Joint full review - " <> e.repo_id)
                ("Joint multi-role full review (cycle "
                  <> (text_of e.cycle_key
                      <> ("). Each role appends its section as a comment below.\n\n"
                          <> section_text)))
                ("teamclaw" ∷ "teamclaw:fullreview" ∷ []))) [
                  | inl (n, taken) ↦
                      rw (create, post_reply, joint, first, aimless, taken)
                        (refl, inl (later, inr (_, _, _, n, issue_text-Carries, taken)))
                  | inr (m, said) ↦
                      rw (create, post_reply, joint, first, aimless, said)
                        (refl, inr (fresh, inr (m, refl, inr (inr (_, _, _, said)))))
                ]
      ]
      | inr (n, found) ↦ elim (Option-cases (host.post_issue_comment e.repo_id n section_text)) [
        | inl taken ↦
            rw (create, post_reply, joint, found, taken)
              (refl, inl (later, inl (n, (section_text, section-Carries, taken))))
        | inr (m, said) ↦
            rw (create, post_reply, joint, found, said)
              (refl, inr (fresh, inr (m, refl, inl (n, section_text, said))))
      ]
    ]
  ]

  pub post_reply-Outcome : Outcome host t e (post_reply host now ws t body e)
  unfolding post_reply
  post_reply-Outcome = elim (Action-cases e.action) [
    | inl issue ↦ issue-Outcome issue
    | inr (inl pull) ↦ pull-Outcome pull
    | inr (inr (inl create)) ↦ create-Outcome create
    | inr (inr (inr opens)) ↦ rw (opens, post_reply) (refl, inr (fresh, inl (rw opens refl)))
  ]

with_pr-Outcome :
    (host : Host) (t : TaskInfo) (work : Option String × Option String) (e r : WriteBack)
    → Outcome host t (with_pr work e) r
    → Outcome host t e r
with_pr-Outcome host t (none, none) e r h = h
with_pr-Outcome host t (some url, none) e r h = h
with_pr-Outcome host t (none, some message) e r h = h
with_pr-Outcome host t (some url, some message) e r h = h

with_pr-is_done :
    (work : Option String × Option String) (e : WriteBack) → is_done (with_pr work e) ≡ is_done e
with_pr-is_done (none, none) e = refl
with_pr-is_done (some url, none) e = refl
with_pr-is_done (none, some message) e = refl
with_pr-is_done (some url, some message) e = refl

-- What is left of the entry cannot be delivered, or GitHub refused it.
abbrev pub IsHeld : Host → TeamState → WriteBack → Type 0
IsHeld host team w = (is_deliverable team w ≡ false) ⊎ IsRefused host w

-- The entry was delivered, or is left with its reason.
abbrev pub Ending : Host → TeamState → TaskInfo → WriteBack → WriteBack → Type 0
Ending host team t e r =
    (r.task_id ≡ e.task_id)
    × (((is_done r ≡ true) × Delivered host t e) ⊎ ((is_done r ≡ false) × IsHeld host team r))

Outcome-Ending :
    (host : Host) (team : TeamState) (t : TaskInfo) (e r : WriteBack)
    → Outcome host t e r
    → Ending host team t e r
Outcome-Ending host team t e r (same, inl posted) = (same, inl posted)
Outcome-Ending host team t e r (same, inr (still, inl barred)) =
    (same, inr (still, inl (ground (arith, barred))))
Outcome-Ending host team t e r (same, inr (still, inr said)) = (same, inr (still, inr said))

unresolved :
    (team : TeamState) (e : WriteBack) (t : TaskInfo)
    → get team.tasks e.task_id ≡ some t
    → has_result t ≡ false
    → is_deliverable team e ≡ false
unresolved team e t found h = rw (found, h) (ground arith)

pub reply_to-Ending :
    (host : Host) (now : ℕ) (ws : List WriteBack) (team : TeamState) (t : TaskInfo) (e : WriteBack)
    → num_truthy (some now) ≡ true
    → is_done e ≡ false
    → get team.tasks e.task_id ≡ some t
    → Ending host team t e (reply_to host now ws t e)
unfolding reply_to
reply_to-Ending host now ws team t e later fresh found = elim (Bool-cases (is_failed t.status)) [
  | inl failed ↦ rw failed (
    refl,
    inr (
      fresh,
      inl (unresolved team (fail_with (get_or t.error "task failed") e) t found (ground arith)),
    ),
  )
  | inr fine ↦ elim (Bool-cases (text_truthy t.result)) [
    | inr empty ↦
        rw (fine, empty)
          (
            refl,
            inr (
              fresh,
              inl (
                  unresolved team (fail_with "task completed without a textual result" e) t found
                    (ground arith)),
            ),
          )
    | inl full ↦
        let work = worktree_work host e t in
        let r = post_reply host now ws t (reply_body work.0 t) (with_pr work e) in
        rw (fine, full)
          (Outcome-Ending host team t e r (
            with_pr-Outcome host t work e r (
              post_reply-Outcome host now ws t (reply_body work.0 t) (with_pr work e) later
                (rw (with_pr-is_done work e) fresh) (starts _))))
  ]
]
