-- ===== src/Permissions.antt =====
-- Permission levels and decisions: core/permissions/levels.py. The children follow the other files
-- of core/permissions, and core/memory/repositories/trust_rules.py.
pub mod Policy
pub mod Trust
pub mod Gate
pub mod Sandbox
pub mod Tests

pub data PermissionLevel : Type 0 where
  low review restricted : PermissionLevel

pub data Decision : Type 0 where
  allow require_approval deny : Decision
