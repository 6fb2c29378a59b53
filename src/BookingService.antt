-- ===== src/BookingService.antt =====
-- The booking service (backend/internal/application/booking/service.go): making, changing,
-- confirming, cancelling and completing reservations, over the tables of
-- backend/internal/infrastructure/persistence/memory/memory.go.
pub mod Tables
pub mod Nightly
pub mod Gates
pub mod Create
pub mod Manage
pub mod Subscriber
pub mod Views
pub mod Calendar
pub mod Writes
pub mod Creation
pub mod Outcome
pub mod Requests
pub mod Runs
pub mod Quotes
pub mod Announced
pub mod Log
pub mod Confirmations
pub mod Access
pub mod Nights
pub mod Postgres
