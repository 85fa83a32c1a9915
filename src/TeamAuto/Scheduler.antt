-- ===== src/TeamAuto/Scheduler.antt =====
-- src/src/teamauto/scheduler.ts: candidates become tasks, sweeps run, fail and are retried.
pub mod Enqueue
pub mod Once
pub mod Run
pub mod Counting
pub mod Recovery
pub mod Reply
pub mod Writeback
pub mod Posting
pub mod Turns
pub mod Delivery
pub mod Umbrella
pub mod Propose
unfoldable pub use Enqueue.*
unfoldable pub use Run.*
unfoldable pub use Reply.*
unfoldable pub use Writeback.*
