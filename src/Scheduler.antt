-- ===== src/Scheduler.antt =====
-- swaybot/goals/scheduler.py: jobs run at their due times, each at most `max_running` times at once.
pub mod Job
pub mod Engine
pub mod Live
pub mod Counting
pub mod Cancelling
pub mod Running
pub mod Due
pub mod OneShot
mod Tests
