-- ===== src/Evolution.antt =====
-- swaybot/evolution.py: experiments on the open questions of the memory, and what is made of them.
pub mod Questions
pub mod Protocol
pub mod Weighing
pub mod Director
pub mod Order
pub mod Depths
pub mod Credit
pub mod Rounds
pub mod Events
pub mod Life
pub mod Soul
mod Tests
