-- ===== src/Orchestration.antt =====
-- orchestration: plans, the scheduler over their steps, and carry-forward across replans.
pub mod Plan
pub mod Ready
pub mod CarryForward
pub mod Aggregate
pub mod Summary
pub mod Blackboard
