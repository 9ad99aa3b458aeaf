-- ===== src/Tools.antt =====
-- core/tools: schemas, results, tools and the registry.
pub mod Schema
pub mod Result
pub mod Registry
pub mod Process
pub mod Scaffold
pub mod Tests
