-- ===== src/TeamAuto/Scanner.antt =====
-- src/src/teamauto/scanner.ts: from the changed issues and pull requests of a repository to candidate
-- work.
pub mod Filters
pub mod Sweep
pub mod Advance
pub mod Allowed
unfoldable pub use Filters.*
unfoldable pub use Sweep.*
unfoldable pub use Advance.*
