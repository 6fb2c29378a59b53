-- ===== src/Payout.antt =====
-- Host earnings (backend/internal/domain/payout), the in-memory ledger that stores them
-- (backend/internal/infrastructure/persistence/memory/memory.go) and the reservation and payment
-- of what is available (backend/internal/application/payout/service.go).
pub mod Entries
pub mod Service
pub mod Sums
pub mod Safety
pub mod Runs
