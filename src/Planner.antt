-- ===== src/Planner.antt =====
-- planner: validation of a parsed plan, and what it gives the scheduler.
pub mod Validate
pub mod Progress
