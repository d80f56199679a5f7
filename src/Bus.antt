-- ===== src/Bus.antt =====
-- Events and messages between parts of the program: swaybot/events.py, swaybot/bus.py and
-- swaybot/session.py.
pub mod Subscriptions
pub mod Messages
pub mod Fifo
pub mod Sessions
pub mod Histories
mod Tests
