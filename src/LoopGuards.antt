-- ===== src/LoopGuards.antt =====
-- swaybot/loop_guards.py: the advisory guards over an agent's stream of actions.
pub mod Thresholds
pub mod Repeat
pub mod Chains
pub mod Convergence
pub mod Progress
mod Tests
