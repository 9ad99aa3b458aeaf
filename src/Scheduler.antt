-- ===== src/Scheduler.antt =====
-- automation/scheduler: when a schedule fires, the store, and the tick.
pub mod Schedule
pub mod Tick
pub mod Daemon
pub mod Tests
