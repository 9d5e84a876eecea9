-- ===== src/Opportunity.antt =====
-- The commercial opportunity: its stages, its aggregate and history, and the repository's
-- transactions (backend/internal/opportunity).
pub mod Stage
pub mod Aggregate
pub mod Repository
