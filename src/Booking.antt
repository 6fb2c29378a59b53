-- ===== src/Booking.antt =====
-- The booking context (backend/internal/domain/booking): date ranges, the price breakdown, the
-- aggregate, and what they keep.
pub mod Dates
pub mod Pricing
pub mod Reservation
