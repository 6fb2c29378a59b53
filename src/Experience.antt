-- ===== src/Experience.antt =====
-- Experiences (backend/internal/domain/experience, backend/internal/domain/experiencebooking and the
-- services of the same names): activities of a host, sold by the guest, and their sessions.
pub mod Listing
pub mod Catalogue
pub mod Reservation
pub mod Service
pub mod History
pub mod Calendar
pub mod Batch
pub mod Terms
pub mod Prices
pub mod Runs
pub mod Overdue
pub mod Ticks
pub mod Edits
pub mod Owners
