-- ===== src/CleanupExamples.antt =====
-- Tests of the cleanup and of the session keys, and their theorems at concrete inputs.
use teamclaw.Prelude.{
  ◌≡◌, refl, arith, true, false, none, some, [], ◌∷◌, ◌||◌, String, ℕ, get, values, any, All,
  str_eq, if◌then◌else◌, leb, length, starts_with, Text, zero, suc,
}
use teamclaw.Team.{TaskInfo, Clarification, ClarificationStatus}
use teamclaw.Assignment.{option_eq}
use teamclaw.Runs.{ControllerRunInfo}
use teamclaw.Cleanup.{Store, empty_summary, delete_task_cascade, delete_run_cascade}
use teamclaw.Cleanup.Purge.{IsKeyed-one}
use teamclaw.Cleanup.Gone.{IsFree, delete_task_cascade_lem}
use teamclaw.Cleanup.Cascade.{delete_run_cascade_lem}
use teamclaw.Sessions.{session_key, default_session}
use teamclaw.Sessions.Again.{IsChosen, session_key_again}
use teamclaw.Fixtures.{fix, team, planning}

abbrev question : Clarification
question = record {
  id = "c1";
  task_id = "t1";
  controller_run_id = some "r1";
  requested_by = "w1";
  requested_by_worker_id = some "w1";
  requested_by_role = none;
  question = "Which build?";
  blocking_reason = "There are two.";
  context = none;
  status = ClarificationStatus.pending;
  answer = none;
  answered_by = none;
  created_at = 5;
  updated_at = 5;
  answered_at = none;
}

abbrev plan : ControllerRunInfo
plan = record planning { created_task_ids = "t1" ∷ [] }

abbrev store : Store
store = record {
  team = record team { clarifications = ("c1", question) ∷ [] };
  runs = ("r1", plan) ∷ [];
  messages = [];
  reports = [];
}

delete_task_cascade_example :
    let s' = (delete_task_cascade true 9 "t1" (store, empty_summary)).0 in
    (get s'.team.tasks "t1" ≡ none)
    × ((j : String) → str_eq "t1" j ≡ false → get s'.team.tasks j ≡ get store.team.tasks j)
    × ((k : String) (c : Clarification)
        → get store.team.clarifications k ≡ some c
        → get s'.team.clarifications k ≡ (if str_eq c.task_id "t1" then none else some c))
    × All (λ x. option_eq x.task_id "t1" ≡ false) s'.messages
    × All (IsFree "t1") (values s'.runs)
unfolding get
delete_task_cascade_example =
    delete_task_cascade_lem true 9 "t1" store empty_summary fix refl
      (IsKeyed-one (λ (c : Clarification). c.id) question)

delete_run_cascade_example :
    let s' = (delete_run_cascade true 9 false "r1" store).0 in
    (get s'.runs "r1" ≡ none)
    × ((k : String) (t : TaskInfo)
        → get store.team.tasks k ≡ some t
        → get s'.team.tasks k ≡ (
            if any (λ i. str_eq i k) ("t1" ∷ []) || option_eq t.controller_run_id "r1"
            then none
            else some t))
    × ((k : String) (c : Clarification)
        → get s'.team.clarifications k ≡ some c
        → option_eq c.controller_run_id "r1" ≡ false)
unfolding get
delete_run_cascade_example =
    delete_run_cascade_lem true 9 false "r1" store plan refl refl
      (IsKeyed-one (λ (t : TaskInfo). t.id) fix)
      (IsKeyed-one (λ (c : Clarification). c.id) question)

abbrev repeated : ℕ → Text
repeated zero = []
repeated (suc n) = b'x' ∷ repeated n

long_key-IsChosen : IsChosen (repeated 100)
unfolding starts_with
long_key-IsChosen = record {
  characters = refl;
  not_empty = omega arith;
  not_long = omega arith;
  not_agent = refl;
  not_prefixed = refl;
}

session_key_example :
    session_key true (session_key true (repeated 100))
    ≡ (if leb (length (repeated 100)) 96 then session_key true (repeated 100) else default_session)
session_key_example = session_key_again (repeated 100) long_key-IsChosen
