-- ===== src/Agent.antt =====
-- core/agent: postconditions, the loop and the history of runs.
pub mod Verifier
pub mod Loop
pub mod Run
pub mod History
pub mod Tests
