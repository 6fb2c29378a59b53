-- ===== src/Tests.antt =====
-- Runs at concrete inputs, one module for each part of the program.
mod Payments
mod Bookings
mod Splits
mod Setting
mod Reservations
mod Changes
mod Coupons
mod Disputes
mod Payouts
mod Offers
mod Settlements
mod Listings
mod Webhooks
mod Outbox
mod Taxes
mod Experiences
