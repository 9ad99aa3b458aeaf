-- ===== src/Planner.antt =====
-- core/planner: plans, and the references between their steps.
pub mod Plan
pub mod Bindings
pub mod Validation
pub mod Tests
pub mod RuleBased
pub mod Model
