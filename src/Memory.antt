-- ===== src/Memory.antt =====
-- memory/: the rendering of a trajectory as messages, and its compaction.
pub mod Steps
pub mod Sliding
pub mod Hierarchy
pub mod Window
pub mod Conversation
