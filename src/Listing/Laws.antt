-- ===== src/Listing/Laws.antt =====
-- property.go: what a guest gets back under the cancellation policies.
use airbnb.Common.{ℤ, pos, ◌≤ℤ◌, Float64, IsFraction, ◌≡◌, true, arith}
use airbnb.Listing.{CancellationPolicy, flexible, moderate, strict, unset, refund_fraction}

module _ (f : Float64) where
  zero-le-zero : f.upto (f.of_int (pos 0)) (f.of_int (pos 0)) ≡ true
  zero-le-zero = f.of_int_mono (pos 0) (pos 0) (omega arith)

  zero-le-one : f.upto (f.of_int (pos 0)) (f.of_int (pos 1)) ≡ true
  zero-le-one = f.of_int_mono (pos 0) (pos 1) (omega arith)

  one-le-one : f.upto (f.of_int (pos 1)) (f.of_int (pos 1)) ≡ true
  one-le-one = f.of_int_mono (pos 1) (pos 1) (omega arith)

  refund_fraction-IsFraction :
      (p : CancellationPolicy) (days : ℤ) → IsFraction f (refund_fraction f p days)
  unfolding refund_fraction
  refund_fraction-IsFraction moderate days =
      ground (arith, zero-le-zero, zero-le-one, one-le-one, f.half_low, f.half_high)
  refund_fraction-IsFraction strict days =
      ground (arith, zero-le-zero, zero-le-one, one-le-one, f.half_low, f.half_high)
  refund_fraction-IsFraction flexible days = ground (arith, zero-le-zero, zero-le-one, one-le-one)
  refund_fraction-IsFraction unset days = ground (arith, zero-le-zero, zero-le-one, one-le-one)

  refund_fraction_mono :
      (p : CancellationPolicy) (days days' : ℤ)
      → days ≤ℤ days'
      → f.upto (refund_fraction f p days) (refund_fraction f p days') ≡ true
  unfolding refund_fraction
  refund_fraction_mono moderate days days' h =
      ground (arith, zero-le-zero, zero-le-one, one-le-one, f.half_low, f.half_high, f.half_self)
  refund_fraction_mono strict days days' h =
      ground (arith, zero-le-zero, zero-le-one, one-le-one, f.half_low, f.half_high, f.half_self)
  refund_fraction_mono flexible days days' h = ground (arith, zero-le-zero, zero-le-one, one-le-one)
  refund_fraction_mono unset days days' h = ground (arith, zero-le-zero, zero-le-one, one-le-one)

  strict-le-moderate :
      (days : ℤ) → f.upto (refund_fraction f strict days) (refund_fraction f moderate days) ≡ true
  unfolding refund_fraction
  strict-le-moderate days =
      ground (arith, zero-le-zero, zero-le-one, one-le-one, f.half_low, f.half_high, f.half_self)

  moderate-le-flexible :
      (days : ℤ) → f.upto (refund_fraction f moderate days) (refund_fraction f flexible days) ≡ true
  unfolding refund_fraction
  moderate-le-flexible days =
      ground (arith, zero-le-zero, zero-le-one, one-le-one, f.half_low, f.half_high, f.half_self)

  -- Under every policy the refunded share lies in [0, 1] and never shrinks for a guest who cancels
  -- earlier; on the same day a strict listing returns no more than a moderate one, and that no more
  -- than a flexible one.
  pub refund_fraction_order :
      (p : CancellationPolicy) (days days' : ℤ)
      → days ≤ℤ days'
      → IsFraction f (refund_fraction f p days)
        × (f.upto (refund_fraction f p days) (refund_fraction f p days') ≡ true)
        × (f.upto (refund_fraction f strict days) (refund_fraction f moderate days) ≡ true)
        × (f.upto (refund_fraction f moderate days) (refund_fraction f flexible days) ≡ true)
  refund_fraction_order p days days' h = (
    refund_fraction-IsFraction p days,
    refund_fraction_mono p days days' h,
    strict-le-moderate days,
    moderate-le-flexible days,
  )
