-- ===== src/Settlement.antt =====
-- The payment service (backend/internal/application/payment/service.go): refunds and damage claims
-- that a dispute brings, and the gateway's asynchronous events.
pub mod Service
pub mod Webhook
pub mod Replay
pub mod Redelivery
pub mod Refund
pub mod Damage
