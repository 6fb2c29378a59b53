-- ===== src/Lib.antt =====
-- The booking platform of this repository (backend, in Go): its money-carrying core, as executable
-- definitions with their theorems.
--
-- The parts. A guest books a listing for a range of nights at a computed price; the payment of the
-- booking is authorized, captured and refunded; a security deposit is held beside it; a split plan
-- lets several guests pay together; a coupon discounts a price; an offer is a host's proposal to a
-- guest; a dispute is decided by an administrator and settled by the payment service; what a host
-- has earned is paid out; jurisdictions tax a stay by rules; events are kept in an outbox and handed
-- to their subscribers at least once. Experiences, activities sold by the guest, have listings and
-- bookings of their own. The domain packages hold the aggregates, the application packages the
-- services that load, call and store them.
--
-- The files, and the code each one models:
--   Common      strings, clock, `int64`, `float64`, results: what Go and its library give
--   Shared      backend/internal/domain/shared (money.go, page.go; errors.go is in Common/Outcome)
--   Payment     backend/internal/domain/payment: Ledger and Charge (payment.go), Deposit (deposit.go)
--   Booking     backend/internal/domain/booking: Dates and Reservation (booking.go), Pricing
--               (pricing.go)
--   SplitPayment  backend/internal/domain/splitpayment/splitpayment.go
--   Coupon      backend/internal/domain/coupon/coupon.go
--   Dispute     backend/internal/domain/dispute/dispute.go
--   Offer       backend/internal/domain/offer/offer.go
--   Payout      backend/internal/domain/payout/payout.go, the payout tables of
--               backend/internal/infrastructure/persistence/memory/memory.go, and
--               backend/internal/application/payout/service.go
--   Settlement  backend/internal/application/payment/service.go: refunds and damage claims
--               (Service), the gateway's webhooks (Webhook)
--   Listing     backend/internal/domain/property (property.go, amenities.go)
--   BookingService  backend/internal/application/booking (service.go, stepup_dedup.go), with the
--               tables it uses of memory.go (Tables), the unit of work of
--               backend/internal/application/port/unitofwork.go (Gates), and the UPDATE of
--               backend/internal/infrastructure/persistence/postgres/booking_repository.go
--               (Postgres): Nightly (prices of nights), Create (Create, Quote), Manage (Modify,
--               Confirm, Cancel, Complete), Subscriber (payment events), Views (guarded reads);
--               Requests runs any sequence of them, and the other children hold the proofs
--   Events      backend/internal/application/event: the dispatcher (event.go), the in-memory outbox,
--               the durable publisher (outbox.go), with the relay of backend/cmd/api/main.go
--   Tax         backend/internal/domain/tax (rule.go, calculator.go) and
--               backend/internal/application/tax/service.go, with the rules' table of memory.go and
--               the adapter of main.go through which the booking service asks
--   Experience  backend/internal/domain/experience/experience.go (Listing) and
--               backend/internal/application/experience/service.go (Catalogue);
--               backend/internal/domain/experiencebooking (Reservation) and
--               backend/internal/application/experiencebooking/service.go (Service), over the tables
--               of memory.go, whose rows are those of Common/Rows
--   Tests       the theorems at concrete inputs
-- A child module holds the proofs about its parent, or a part of it. Functions keep the source's
-- names in snake case; a method takes its receiver last and returns it beside the result
-- (`Method`), a function that can fail returns a `Result` with the error's text.
--
-- How they interact. The booking service reads listings, price rules, blocks and coupons, prices a
-- stay through Booking, and writes the booking, the coupon's use, the split plan and the events in
-- one unit of work, which is kept whole or not at all. The payment contexts react to the events;
-- the service hears from them through `handle`. A request runs to its end before the next one
-- begins: the service holds no lock, and only a constraint of the database (a migration, which is
-- SQL) keeps apart requests that interleave.
--
-- A table of memory.go is a list of rows, in the order in which Go happens to visit the map; where a
-- lookup by reference depends on it, Settlement/Redelivery lets the order change between two calls.
--
-- Conventions. An `int64` (and Go's `int`) is an integer in range, with arithmetic that wraps
-- around modulo 2 ^ 64 (Common/Int64); identifiers are numbers, and fresh ones, like the clock,
-- are arguments; time is nanoseconds since Go's zero time. Strings are byte lists; white space and
-- letter case are those of ASCII. `float64` is a record of operations with the laws of IEEE 754
-- that the proofs use (Common/Float); ten-thousandths are one instance (Common/Fixed). Loops are
-- recursion on the list. The loop over nights counts its rounds, one more than the days between
-- the two dates, which is enough: it ends by its own test (BookingService/Nights). The relay of the
-- outbox makes any number of passes; one more than the budget of attempts settles every record. A
-- tick of the scheduler completes at most 500 experience bookings, the limit of the source.
--
-- What stands outside: the payment gateway, the payout rail and the database's failures are
-- arguments that answer each call (but the payment service's lookups find the row or not; an error
-- of the database there is not modelled), and so are the identity check, the house rules, the tax quote
-- (which Tax models apart) and the payout onboarding that the booking service asks for. The coupon
-- table takes part in the unit of work, as the entry point wires it. Not modelled: HTTP, SQL but for
-- that UPDATE, mail, push and search, which are input and output; reviews and messages, which the
-- core only calls or does not touch.
mod Common
pub mod Tax
pub mod Experience
mod Tests
pub mod Shared
pub mod Listing
pub mod Payment
pub mod Booking
pub mod SplitPayment
pub mod Coupon
pub mod Dispute
pub mod Events
pub mod Offer
pub mod Payout
pub mod BookingService
pub mod Settlement
