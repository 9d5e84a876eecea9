-- ===== src/Tests.antt =====
-- The theorems on concrete data: each is applied where its hypotheses hold.
mod Opportunity
pub mod Risk
pub mod Evaluation
mod Planner
mod Promise
mod Jobs
pub mod Notification
mod Facts
mod Events
mod Delivery
