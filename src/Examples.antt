-- ===== src/Examples.antt =====
-- Tests on a small team, and the theorems on tasks, workers and schedules at concrete inputs.
use teamclaw.Prelude.{
  ◌+◌, ◌≤◌, ◌<◌, ◌≡◌, ◌≢◌, ◌⊎◌, refl, true, false, none, some, [], ◌∷◌, ◌||◌, arith, get, alter,
  num_truthy, is_some, codes, inl, inr, ap, sym, some_inj, words, is_digit, str_eq, Bool-cases,
}
use teamclaw.Team.{
  WorkerStatus, TaskStatus, EventType, Execution, WorkerInfo, TaskInfo, TeamState, Clarification,
  ClarificationStatus, Handoff, is_completed, is_failed,
}
use teamclaw.Execution.{append_event, is_ended, reset_for_fresh_attempt}
use teamclaw.Execution.Stamps.{logged, append_event_stamps}
use teamclaw.Assignment.{
  assign_task, apply_result, request_clarification, answer_clarification, hand_off, can_accept,
  waits, created, answered, blocked_task, with_task, handed_off_task, assigned_task,
  already_answered, controller_event,
}
use teamclaw.Assignment.Invariant.{IsBound, is_held}
use teamclaw.Assignment.Effects.{IsFresh, assign_task_lem, CanAssign, IsAssigned}
use teamclaw.Assignment.Stale.{apply_result-can_accept}
use teamclaw.Assignment.Clarify.{
  IsRestarted, IsAsked, request_clarification_lem, answer_clarification_once,
}
use teamclaw.Workers.{resume_orphans, is_orphan, heartbeat}
use teamclaw.Workers.Preservation.{IsHonest}
use teamclaw.Workers.Orphans.{IsResumed, resume_orphans_lem, WithinAttempts}
use teamclaw.Assignment.Patch.{Patch, patch_task, patched_task, IsSteady}
use teamclaw.Steps.{Reach-exclusive, here, next, assigns, beats, patches}
use teamclaw.TeamAuto.Schedule.{Schedule, every_minutes, next_fire, next_fire_ms, advance}
use teamclaw.TeamAuto.Schedule.Firing.{Fires, period}
use teamclaw.TeamAuto.Schedule.Meaning.{Denotes}
use teamclaw.TeamAuto.Schedule.Parsing.{next_fire_ms_good}
use teamclaw.Fixtures.{dev, fix, team, at_work}

abbrev note : Handoff
note = record {
  version = "1";
  summary = "";
  reason = "";
  target_role = none;
  expected_next_step = none;
  artifacts = [];
}

abbrev which : Clarification
which = record {
  id = "c1";
  task_id = "t1";
  controller_run_id = none;
  requested_by = "w1";
  requested_by_worker_id = some "w1";
  requested_by_role = some "developer";
  question = "Which branch?";
  blocking_reason = "Two branches build.";
  context = none;
  status = ClarificationStatus.pending;
  answer = none;
  answered_by = none;
  created_at = 5;
  updated_at = 5;
  answered_at = none;
}

abbrev asked : TeamState
asked = record team {
  tasks = ("t1", blocked_task 5 which fix) ∷ [];
  clarifications = ("c1", which) ∷ [];
}

abbrev lost_fix : TaskInfo
lost_fix = record fix {
  status = TaskStatus.in_progress;
  assigned_worker_id = some "w9";
  resume_attempt = some 3;
}

abbrev lost : TeamState
lost = record team { tasks = ("t1", lost_fix) ∷ [] }

hand_off_test :
    hand_off 5 "t1" none note team ≡ some (with_task "t1" (handed_off_task 5 none note) team)
unfolding hand_off get
hand_off_test = refl

assign_test : (assign_task 2000 "t1" "w1" none team).1 ≡ true
unfolding assign_task get
assign_test = refl

append_event_stamps_example :
    let t' = (append_event "e1" 5 fix (controller_event EventType.lifecycle "created" "")).0 in
    let start = logged (λ (e : Execution). e.started_at) fix.started_at fix.execution in
    let end = logged (λ (e : Execution). e.ended_at) fix.completed_at fix.execution in
    ((num_truthy fix.started_at ≡ false) ⊎ (t'.started_at ≡ fix.started_at))
    × ((e' : Execution) × (t'.execution ≡ some e')
        × ((num_truthy start ≡ false) ⊎ (e'.started_at ≡ start))
        × ((is_some end ≡ false) ⊎ (e'.ended_at ≡ end))
        × ((is_ended e'.status ≡ false) ⊎ (is_some e'.ended_at ≡ true)))
append_event_stamps_example =
    append_event_stamps "e1" 5 fix (controller_event EventType.lifecycle "created" "")

assign_task_example :
    let (s', applied) = assign_task 2000 "t1" "w1" none team in
    ((applied ≡ true) × CanAssign team "t1" "w1" × IsAssigned s' "t1" "w1")
    ⊎ ((applied ≡ false) × (s' ≡ team) × ¬ CanAssign team "t1" "w1")
assign_task_example = assign_task_lem 2000 "t1" "w1" none team

apply_result_example :
    can_accept (get (apply_result "e1" 5 "t1" "done" none at_work).tasks "t1") "w1" ≡ false
apply_result_example = apply_result-can_accept "e1" 5 "t1" "done" none "w1" at_work (omega arith)

request_clarification_example :
    let (s', outcome) = request_clarification 5 which at_work in
    ((outcome ≡ created)
      × IsAsked which s'
      × ((t : TaskInfo) × (get at_work.tasks which.task_id ≡ some t)
          × (waits at_work t ≡ false)
          × ((is_completed t.status || is_failed t.status) ≡ false)))
    ⊎ ((outcome ≢ created) × (s' ≡ at_work))
request_clarification_example = request_clarification_lem 5 which at_work

asked-IsAsked : IsAsked which asked
unfolding get
asked-IsAsked = (blocked_task 5 which fix, refl, refl, refl, refl, refl)

answer_clarification_example :
    let (s', outcome) = answer_clarification 6 which.id "main" "boss" asked in
    (outcome ≡ answered)
    × ((t : TaskInfo) × (get s'.tasks which.task_id ≡ some t)
        × (t.status ≡ TaskStatus.pending)
        × (t.assigned_worker_id ≡ none)
        × (t.clarification_request_id ≡ none)
        × IsFresh t
        × IsRestarted t.execution)
    × (answer_clarification 7 which.id "dev" "other" s' ≡ (s', already_answered))
answer_clarification_example =
    answer_clarification_once 6 7 "main" "boss" "dev" "other" which asked asked-IsAsked refl refl
      refl

lost_get : get lost.tasks "t1" ≡ some lost_fix
unfolding get
lost_get = refl

resume_orphans_example :
    (t' : TaskInfo) × (get (resume_orphans 9 lost).tasks "t1" ≡ some t')
    × (is_orphan (resume_orphans 9 lost).workers t' ≡ false)
    × WithinAttempts t'
    × IsResumed lost.workers lost_fix t'
resume_orphans_example = resume_orphans_lem 9 "t1" lost_fix lost lost_get (omega arith)

dev_registered : get team.workers "w1" ≡ some dev
unfolding get
dev_registered = refl

every_minutes_test : next_fire (every_minutes 15) 60000 ≡ 900000
unfolding next_fire advance
every_minutes_test = refl

quarter_test : next_fire_ms (codes "*/15 * * * *") 60000 ≡ some 840000
unfolding next_fire_ms advance words is_digit
quarter_test = refl

next_fire_ms_example :
    (s : Schedule) × Denotes (words (codes "*/15 * * * *")) s
    × (0 < 840000)
    × (840000 ≤ period s)
    × Fires s (60000 + 840000)
next_fire_ms_example = next_fire_ms_good (codes "*/15 * * * *") 60000 840000 quarter_test

team-IsBound : IsBound team
team-IsBound = record {
  at = λ id. elim (Bool-cases (str_eq "t1" id)) [
    | inl same ↦ unfold get in rw same ((λ held. absurd (ground arith)), (λ rests. refl))
    | inr other ↦ unfold get in rw other tt
  ];
}

abbrev begun_fix : TaskInfo
begun_fix = assigned_task 2000 "w1" none fix

abbrev begun_dev : WorkerInfo
begun_dev = record dev { status = WorkerStatus.busy; current_task_id = some "t1" }

abbrev begun : TeamState
begun = (assign_task 2000 "t1" "w1" none team).0

begun_task : get begun.tasks "t1" ≡ some begun_fix
unfolding assign_task get alter
begun_task = refl

begun_worker : get begun.workers "w1" ≡ some begun_dev
unfolding assign_task get alter
begun_worker = refl

-- What the worker reports once it is at work.
abbrev reported : Patch
reported = record {
  status = some TaskStatus.in_progress;
  progress = some "Reading the code.";
  priority = none;
  assigned_role = none;
  summary = none;
  is_new = false;
}

abbrev beating : TeamState
beating = heartbeat 2400 "w1" WorkerStatus.busy (some "t1") begun

abbrev working : TeamState
working = patch_task "e1" "e2" 2500 "t1" reported beating

abbrev working_fix : TaskInfo
working_fix = patched_task "e1" "e2" 2500 reported begun_fix

abbrev working_dev : WorkerInfo
working_dev = record begun_dev { last_heartbeat = 2400 }

beating_task : get beating.tasks "t1" ≡ some begun_fix
unfolding heartbeat
beating_task = begun_task

working_task : get working.tasks "t1" ≡ some working_fix
unfolding patch_task assign_task heartbeat get alter
working_task = refl

working_worker : get working.workers "w1" ≡ some working_dev
unfolding patch_task assign_task heartbeat get alter
working_worker = refl

beat-IsHonest : IsHonest begun "w1" WorkerStatus.busy (some "t1")
beat-IsHonest =
    inr (refl, λ w e. ap (λ o. o.current_task_id) (sym (some_inj (rw begun_worker at e))))

reported-IsSteady : IsSteady beating "t1" reported
unfolding reset_for_fresh_attempt
reported-IsSteady t e st wanted =
    let held : t.status ≡ TaskStatus.assigned =
      ap (λ o. o.status) (sym (some_inj (rw beating_task at e))) in
    let said : st ≡ TaskStatus.in_progress = sym (some_inj wanted) in
    (
      (λ h. rw held refl),
      (λ rests. let bad : false ≡ true = rw said at rests in absurd (ground arith)),
    )

working_fix-worker : working_fix.assigned_worker_id ≡ some "w1"
unfolding append_event reset_for_fresh_attempt
working_fix-worker = refl

working_fix-is_held : is_held working_fix.status ≡ true
unfolding append_event reset_for_fresh_attempt
working_fix-is_held = refl

Reach_exclusive_example :
    (fix.id ≡ fix.id)
    × (working_dev.status ≡ WorkerStatus.busy)
    × (working_dev.current_task_id ≡ some "t1")
Reach_exclusive_example =
    Reach-exclusive team working "t1" "t1" "w1" working_fix working_fix working_dev team-IsBound
      (next
        (next (next here (assigns 2000 "t1" "w1" none))
          (beats 2400 "w1" WorkerStatus.busy (some "t1") beat-IsHonest))
        (patches "e1" "e2" 2500 "t1" reported reported-IsSteady))
      working_task working_task working_fix-is_held working_fix-is_held working_fix-worker
      working_fix-worker working_worker
