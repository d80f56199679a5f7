-- ===== src/Tools.antt =====
-- swaybot/tools: what a tool is, how its arguments are checked, and how a registry calls it.
pub mod Schema
pub mod Arguments
pub mod Registry
pub mod Dispatch
pub mod Batch
pub mod Groups
pub mod Concurrency
pub mod Todos
pub mod Planning
mod Tests
