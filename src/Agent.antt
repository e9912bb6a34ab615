-- ===== src/Agent.antt =====
-- agent: the trajectory of an executor and its caches.
pub mod Step
pub mod ToolCache
