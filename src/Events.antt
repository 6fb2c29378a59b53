-- ===== src/Events.antt =====
-- The event bus and the outbox (backend/internal/application/event).
pub mod Dispatcher
pub mod Outbox
pub mod Relay
pub mod Scan
pub mod Budget
pub mod Delivery
pub mod Runs
pub mod Course
