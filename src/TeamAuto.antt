-- ===== src/TeamAuto.antt =====
-- Autonomous collaboration on repositories: src/src/teamauto.
pub mod Schedule
pub mod Store
pub mod Scanner
pub mod Scheduler
