-- ===== src/Tax.antt =====
-- Jurisdiction taxes (backend/internal/domain/tax, backend/internal/application/tax): rules, and the
-- itemised quote of a stay.
pub mod Rule
pub mod Calculator
pub mod Service
pub mod Sorting
pub mod Laws
pub mod Booking
