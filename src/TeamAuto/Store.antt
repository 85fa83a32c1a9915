-- ===== src/TeamAuto/Store.antt =====
-- src/src/teamauto/store.ts: bound repositories, policies, cursors, write-backs, the activity log and
-- the daily budget. Reading and writing the file is not modelled; a day is its stamp `YYYY-MM-DD`.
pub mod Limits
use teamclaw.Prelude.{
  ℕ, ◌+◌, ◌-◌, String, Bool, true, false, Option, none, some, List, [], ◌∷◌, ◌++◌, ltb,
  if◌then◌else◌, length, drop, Dict, str_eq,
}

pub data FullReview : Type 0 where
  off weekly daily : FullReview

-- `TeamAutoActionPolicy`
pub record Actions : Type 0 where
  pub issue_review : Bool
  pub take_ownership : Bool
  pub pr_review : Bool
  pub create_pr : Bool
  pub full_review : FullReview

-- `TeamAutoKeywordFilter`
pub record Filter : Type 0 where
  pub include : List String
  pub exclude : List String

-- `TeamAutoRepoPolicy`
pub record Policy : Type 0 where
  pub max_tasks_per_sweep : ℕ
  pub actions : Actions
  pub skip_assigned_to_humans : Bool
  pub label_filter : Filter
  pub keyword_filter : Filter

-- `TeamAutoCursors`, without the commit and the tags of the HTTP cache.
pub record Cursors : Type 0 where
  pub last_issue_since : ℕ
  pub last_pr_since : ℕ
  pub last_full_review_at : ℕ
  pub seen : Dict ℕ

-- `TeamAutoRepoNorms`
pub record Norms : Type 0 where
  pub commit_style : String
  pub issue_template : Option String
  pub pr_template : Option String
  pub contributing : Option String
  pub learned_at : ℕ

pub data ProvisionState : Type 0 where
  provisioning ready failed : ProvisionState

-- `TeamAutoRepoProvision`
pub record Provision : Type 0 where
  pub status : ProvisionState
  pub message : String
  pub started_at : ℕ
  pub updated_at : ℕ

-- `TeamAutoRepo`
pub record Repo : Type 0 where
  pub id : String
  pub enabled : Bool
  pub schedule : String
  pub added_at : ℕ
  pub last_sweep_at : ℕ
  pub last_sweep_summary : Option String
  pub paused_reason : Option String
  pub sweep_failures : Option ℕ
  pub last_sweep_error_at : Option ℕ
  pub dry_run_done : Bool
  pub provision : Option Provision
  pub policy : Policy
  pub cursors : Cursors
  pub norms : Option Norms

pub data Action : Type 0 where
  issue_comment pr_comment create_issue create_pr : Action

-- `TeamAutoWriteBack`
pub record WriteBack : Type 0 where
  pub task_id : String
  pub action : Action
  pub repo_id : String
  pub target_id : Option ℕ
  pub done_at : Option ℕ
  pub pr_url : Option String
  pub error : Option String
  pub cycle_key : Option String

pub data ActivityKind : Type 0 where
  bind provision sweep task writeback : ActivityKind

-- `TeamAutoActivityEntry`
pub record Activity : Type 0 where
  pub at : ℕ
  pub repo_id : String
  pub kind : ActivityKind
  pub text : String

pub record Budget : Type 0 where
  pub max_tasks_per_day : ℕ
  pub first_sweep_dry_run : Bool
  pub tasks_today : ℕ
  pub day_stamp : String

-- `TeamAutoStore`. The log of an old file, which may be missing, is the empty one.
pub record Store : Type 0 where
  pub repos : List Repo
  pub writebacks : List WriteBack
  pub activity : List Activity
  pub budget : Budget

abbrev pub default_policy : Policy
default_policy = record {
  max_tasks_per_sweep = 5;
  actions = record {
    issue_review = true;
    take_ownership = true;
    pr_review = true;
    create_pr = true;
    full_review = FullReview.weekly;
  };
  skip_assigned_to_humans = true;
  label_filter = record {
    include = [];
    exclude = "wontfix" ∷ "teamclaw-skip" ∷ "do-not-automate" ∷ [];
  };
  keyword_filter = record { include = []; exclude = [] };
}

abbrev pub default_cursors : Cursors
default_cursors = record {
  last_issue_since = 0;
  last_pr_since = 0;
  last_full_review_at = 0;
  seen = [];
}

abbrev pub empty_store : String → Store
empty_store today = record {
  repos = [];
  writebacks = [];
  activity = [];
  budget = record {
    max_tasks_per_day = 150;
    first_sweep_dry_run = true;
    tasks_today = 0;
    day_stamp = today;
  };
}

abbrev pub activity_limit : ℕ
activity_limit = 100

-- `pushTeamAutoActivity`
unfoldable pub push_activity : Activity → Store → Store
push_activity entry s =
    let activity = s.activity ++ entry ∷ [] in
    record s {
      activity =
          if ltb activity_limit (length activity)
          then drop (length activity - activity_limit) activity
          else activity;
    }

abbrev pub roll_over : String → Budget → Budget
roll_over stamp b =
    if str_eq b.day_stamp stamp then b else record b { day_stamp = stamp; tasks_today = 0 }

-- `consumeDailyBudget`; the day rolls over on a refusal too.
unfoldable pub consume_budget : ℕ → String → Budget → Budget × Bool
consume_budget n stamp b =
    let b' = roll_over stamp b in
    if ltb b'.max_tasks_per_day (b'.tasks_today + n)
    then (b', false)
    else (record b' { tasks_today = b'.tasks_today + n }, true)
