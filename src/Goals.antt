-- ===== src/Goals.antt =====
-- swaybot/goals: goals kept in a backend and worked off subtask by subtask, and the scheduler.
pub mod Goal
pub mod Machine
pub mod Coordinator
pub mod Working
pub mod Resuming
pub mod Keys
mod Tests
