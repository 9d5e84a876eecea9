-- ===== src/Jobs.antt =====
-- Background jobs and scheduled checks (backend/internal/jobs).
pub mod Job
pub mod Check
pub mod Store
pub mod Worker
