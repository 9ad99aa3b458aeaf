-- ===== src/Memory.antt =====
-- core/memory/repositories: the tables of plans, tasks and sessions.
pub mod Plans
pub mod Tasks
pub mod Sessions
pub mod Tests
