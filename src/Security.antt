-- ===== src/Security.antt =====
-- The layers that keep an agent in bounds: swaybot/permission.py, swaybot/guards.py,
-- swaybot/violations.py and the argument checks of swaybot/tools/shell.py.
pub mod Permission
pub mod Policy
pub mod Commands
pub mod Tiers
pub mod Shell
pub mod Violations
pub mod Escalation
pub mod JsonStore
mod Tests
