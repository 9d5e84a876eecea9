-- ===== src/Events.antt =====
-- The outbox of events (backend/internal/events): the event, the store and the dispatcher.
pub mod Event
pub mod Store
pub mod Dispatcher
