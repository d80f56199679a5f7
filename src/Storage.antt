-- ===== src/Storage.antt =====
-- swaybot/storage.py: the backends that keep keyed records.
pub mod Records
pub mod InMemory
pub mod Files
pub mod JsonFile
pub mod JsonLines
mod Tests
