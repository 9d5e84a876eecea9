-- ===== src/Notification.antt =====
-- Notifications of users and when they are delivered (backend/internal/notification).
pub mod Policy
pub mod Digest
pub mod Fact
