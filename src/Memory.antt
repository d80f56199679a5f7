-- ===== src/Memory.antt =====
-- swaybot/memory.py: the memory stream, its store and its compaction.
pub mod Steps
pub mod Tokens
pub mod Store
pub mod Saving
pub mod Merging
pub mod Queries
pub mod Relevance
pub mod Pruning
pub mod Compaction
pub mod Window
pub mod Sameness
mod Tests
