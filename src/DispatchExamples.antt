-- ===== src/DispatchExamples.antt =====
-- The theorems on routing and dispatch at concrete inputs.
use teamclaw.Prelude.{
  String, ◌≡◌, ◌⊎◌, refl, true, false, none, some, [], ◌∷◌, arith, get, is_some, get_or, inl, inr,
  str_eq, Bool-cases, any, values, In, none-some, eq_iff, sym, ◌∙◌, Option,
}
use teamclaw.Team.{WorkerInfo, TaskInfo, TeamState}
use teamclaw.Execution.{}
use teamclaw.Assignment.{}
use teamclaw.Assignment.Stale.{}
use teamclaw.Workers.{}
use teamclaw.TeamAuto.Schedule.{}
use teamclaw.Routing.{route_task}
use teamclaw.Routing.Choice.{route_task_lem, suits}
use teamclaw.Dispatch.{Dispatcher, auto_assign}
use teamclaw.Dispatch.Ending.{auto_assign_ends}
use teamclaw.Dispatch.Exclusion.{IsKeyed, OneWriter}
use teamclaw.Dispatch.Writers.{auto_assign-OneWriter}
use teamclaw.Fixtures.{fix, team}

route_task_example :
    ((route_task [] fix team.workers ≡ none) × (any (suits fix) (values team.workers) ≡ false))
    ⊎ ((w : WorkerInfo) × (route_task [] fix team.workers ≡ some w)
        × In w (values team.workers)
        × (suits fix w ≡ true))
route_task_example = route_task_lem [] fix team.workers

abbrev dispatcher : Dispatcher
dispatcher = record {
  roles = [];
  max_concurrent_tasks = 5;
  preferred_worker_id = some "w1";
  now = 2000;
  event_id = λ k. "e";
  dispatch_error = λ k. some "unreachable";
}

auto_assign_example : is_some (auto_assign 2 dispatcher 0 [] team) ≡ true
auto_assign_example = auto_assign_ends 2 dispatcher team (omega arith)

abbrev building : TeamState
building = record team { tasks = ("t1", record fix { project_dir = some "app" }) ∷ [] }

abbrev reaching : Dispatcher
reaching = record dispatcher { dispatch_error = λ k. none }

abbrev built : TeamState
built = get_or (auto_assign 2 reaching 0 [] building) building

some_get {ℓ} : {A : Type ℓ} (o : Option A) (a : A) → is_some o ≡ true → o ≡ some (get_or o a)
some_get none a h = absurd cc
some_get (some b) a h = refl

built_returned : auto_assign 2 reaching 0 [] building ≡ some built
built_returned =
    some_get (auto_assign 2 reaching 0 [] building) building
      (auto_assign_ends 2 reaching building (omega arith))

only_task : (i : String) (t : TaskInfo) → get building.tasks i ≡ some t → "t1" ≡ i
unfolding get
only_task i t h = elim (Bool-cases (str_eq "t1" i)) [
  | inl hit ↦ (eq_iff "t1" i).0 hit
  | inr miss ↦ absurd (none-some (rw miss at h))
]

building-OneWriter : OneWriter building.tasks
building-OneWriter = record {
  same = λ i j a b ha hb wa wb r. sym (only_task i a ha) ∙ only_task j b hb;
}

building-IsKeyed : IsKeyed building.tasks
unfolding get
building-IsKeyed = (refl, refl, tt)

OneWriter-example : OneWriter built.tasks
OneWriter-example =
    auto_assign-OneWriter 2 reaching building built building-IsKeyed building-OneWriter
      built_returned
