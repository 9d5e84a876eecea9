-- ===== src/Risk.antt =====
-- The risk module: business time, the risk aggregate, and the policies that decide on risks
-- (backend/internal/risk).
pub mod BusinessTime
pub mod Aggregate
pub mod Policy
pub mod Store
pub mod Evaluation
pub mod Planner
pub mod Feedback
