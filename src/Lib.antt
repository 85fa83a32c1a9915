-- ===== src/Lib.antt =====
-- The controller of TeamClaw, a team of agents that work on tasks: its state, the tasks' life cycle,
-- the registry of workers, and the schedules of its repository sweeps. Paths are from the
-- repository's root.
--
-- The parts and their files:
-- - Team: the records of src/src/types.ts that the controller keeps (TaskInfo, WorkerInfo,
--   ClarificationRequest, ProvisionedWorkerRecord, TeamState).
-- - Value: a value of unknown shape, as JSON gives it.
-- - Contracts: src/src/interaction-contracts.ts. Fields reads single fields, Contracts the contracts,
--   Filled and Backfill fill contracts from plain text.
-- - Manifest: src/src/controller/orchestration-manifest.ts, the plan of the controller's agent, and
--   deriveStableProjectKey of src/src/openclaw-workspace.ts.
-- - Config: parsePluginConfig of src/src/types.ts and src/src/controller/controller-capacity.ts.
-- - Execution: the log of a task in src/src/controller/http-server.ts (ensureTaskExecution,
--   resetTaskForFreshAttempt, appendTaskExecutionEvent, buildTaskExecutionSummary).
-- - Assignment: the updates of src/src/controller/http-server.ts that bind tasks to workers
--   (assignTaskToWorker, revertTaskAssignment, canAcceptWorkerUpdate, applyTaskResult,
--   requestTaskClarification, the answer to a clarification, the handoff), and Patch, the update of
--   PATCH /api/v1/tasks/:id. They call Execution.
-- - Workers: registration, heartbeat and removal in src/src/controller/http-server.ts, the timeout
--   monitor and the clean-up at the start in src/src/controller/controller-service.ts.
-- - Steps: the updates of Assignment and Workers and the start of a termination of Provisioning as one
--   step relation, since handlers and timers run in any order but each `updateTeamState` runs to its
--   end before another begins. Where the update has no guard, a step has a condition of its own.
-- - Routing: src/src/controller/task-router.ts and src/src/controller/role-inference.ts, the worker and
--   the role for a task; the table of roles is an argument.
-- - Dispatch: autoAssignPendingTasks in src/src/controller/http-server.ts, the loop that asks Routing for
--   offers and assigns by Assignment. Whether a worker can be reached is an argument.
-- - Provisioning: src/src/controller/worker-provisioning.ts, the records of managed workers (launch,
--   registration, heartbeat, termination, refresh), the demand per role, a round of
--   the reconcile loop and the check of the start; with the gate on new work of http-server.ts.
-- - Messages: src/src/controller/message-router.ts, the receivers of a message among the registered
--   workers, and src/src/worker/message-queue.ts, the messages that a worker has not read.
-- - Runs: the runs of the controller's agent in src/src/controller/http-server.ts
--   (appendControllerRunEvent, canAutoDeleteStaleControllerRun, pruneStaleControllerRuns).
-- - State: src/src/state.ts, the migration of a saved state, over the values of Value.
-- - Sessions: normalizeControllerIntakeSessionKey of src/src/controller/http-server.ts and
--   buildTeamClawAgentSessionKey of src/src/openclaw-workspace.ts.
-- - Cleanup: deleteTaskCascade and deleteControllerRunCascade of src/src/controller/http-server.ts,
--   over the team, its runs, messages and reports; pruning takes its choice from Runs.
-- - TeamAuto.Schedule: src/src/teamauto/schedule.ts, the schedules of the repository sweeps.
-- - TeamAuto.Store and TeamAuto.Scanner: src/src/teamauto/store.ts and
--   src/src/teamauto/scanner.ts, the records of bound repositories, the daily budget, and the way from
--   changed issues and pull requests to candidate work. A sweep reads the store's cursors and policy.
-- - TeamAuto.Scheduler: src/src/teamauto/scheduler.ts. Enqueue is enqueueCandidate, which adds tasks to
--   the controller's state; Run is runSweep with the guard of its timer, over the scanner and the store.
--   Reply and Writeback are reconcileWritebacks: each pass posts the results of the tasks that ended.
--   Propose is proposeManual, over Enqueue.
-- - Prelude: tests on numbers, lists, maps and texts. Fixtures, and the
--   modules whose names end in Examples: tests and concrete inputs.
--
-- The state is passed explicitly; a record of the source is an association list with the order of
-- insertion. `Date.now()` and `generateId()` are arguments. A status in a request that is none of
-- the declared ones is not represented.
--
-- Bounds and fuel: numbers are natural numbers, so a time before the epoch and the rounding of a
-- number above 2^53 are not represented. A log holds at most 250 events, a worker is lost after
-- 30000 ms, a task is resumed at most 3 times. A loop that looks for the next minute, hour or day of
-- a schedule has fuel 61, 25 and 7: one round more than the loop can take, since the minute, the
-- hour and the weekday come round after 60, 24 and 7 steps. The loop over the months has as much
-- fuel as days, since a month has a day at least. The loop that assigns waiting tasks has fuel for one
-- round more than there are pairs of a task and a worker, as a pair is attempted once.
--
-- The check of the start has as much fuel as its time limit has milliseconds, and one more: each
-- round waits until the clock is later.
--
-- Lower-casing knows the letters of ASCII only, and a cut text is measured in code points.
--
-- Not modelled: HTTP parsing and answers, WebSocket broadcasts, log lines, the requests to
-- a worker's address, files, child processes, prompts, the user interface, and what the controller
-- infers of the deliverables of a result. The clock of a schedule has a fixed offset from UTC.
pub mod Prelude
pub mod Team
pub mod Value
pub mod Contracts
pub mod Manifest
pub mod Config
pub mod Execution
pub mod Assignment
pub mod Workers
pub mod Steps
pub mod Routing
pub mod Dispatch
pub mod Provisioning
pub mod Messages
pub mod Runs
pub mod State
pub mod Sessions
pub mod Cleanup
pub mod TeamAuto
mod Fixtures
mod Examples
mod DispatchExamples
mod TeamAutoExamples
mod WritebackExamples
mod ProvisioningExamples
mod MessagesExamples
mod RunsExamples
mod ContractsExamples
mod ConfigExamples
mod StateExamples
mod CleanupExamples
