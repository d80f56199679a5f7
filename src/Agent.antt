-- ===== src/Agent.antt =====
-- swaybot/agent.py and swaybot/task_state.py: the loop that thinks, acts and observes.
pub mod Environment
pub mod Actions
pub mod Loop
pub mod Runs
pub mod Safety
mod Tests
