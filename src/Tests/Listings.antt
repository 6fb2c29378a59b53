-- ===== src/Tests/Listings.antt =====
-- domain/property: a strict listing, cancelled three days and six days ahead.
use airbnb.Common.{pos, fixed, IsFraction, ◌≡◌, true, arith}
use airbnb.Listing.{strict, moderate, flexible, refund_fraction}
use airbnb.Listing.Laws.{refund_fraction_order}

refund_fraction_order_example :
    IsFraction fixed (refund_fraction fixed strict (pos 3))
    × (fixed.upto (refund_fraction fixed strict (pos 3)) (refund_fraction fixed strict (pos 6))
        ≡ true)
    × (fixed.upto (refund_fraction fixed strict (pos 3)) (refund_fraction fixed moderate (pos 3))
        ≡ true)
    × (fixed.upto (refund_fraction fixed moderate (pos 3)) (refund_fraction fixed flexible (pos 3))
        ≡ true)
refund_fraction_order_example = refund_fraction_order fixed strict (pos 3) (pos 6) (omega arith)
