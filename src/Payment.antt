-- ===== src/Payment.antt =====
-- The payment context (backend/internal/domain/payment): the ledger of adjustments, a booking's
-- payment, its security deposit, and what their operations keep.
pub mod Ledger
pub mod Charge
pub mod Deposit
