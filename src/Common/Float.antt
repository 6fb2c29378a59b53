-- ===== src/Common/Float.antt =====
-- Go's `float64`, as far as the pricing code uses it: conversions, one product, rounding and
-- comparisons. The laws are those of IEEE 754 for numbers (a comparison with NaN is false): the
-- operations are monotone, and integers up to 2 ^ 53 are represented exactly.

use airbnb.Common.Int.{ℤ, pos, ◌≤ℤ◌}
use mathlib.Core.Bool.{Bool, true, false}
use mathlib.Core.Path.{◌≡◌}
use Prim.Native.Nat.{ℕ}
use native.Mathlib.Omega.{arith}

abbrev pub max_exact : ℕ
max_exact = 9007199254740992

pub record Float64 : Type 1 where
  pub Carrier : Type 0
  pub of_int : ℤ → Carrier  -- float64(n)
  pub half : Carrier  -- 0.5
  pub times : Carrier → Carrier → Carrier
  pub round : Carrier → Carrier  -- math.Round
  pub to_int : Carrier → ℤ  -- int64(x)
  pub below : Carrier → Carrier → Bool  -- x < y
  pub upto : Carrier → Carrier → Bool  -- x <= y
  pub upto-below : (x y : Carrier) → upto x y ≡ true → below y x ≡ false
  pub upto_trans : (x y z : Carrier) → upto x y ≡ true → upto y z ≡ true → upto x z ≡ true
  pub of_int_mono : (a b : ℤ) → a ≤ℤ b → upto (of_int a) (of_int b) ≡ true
  pub times_fraction :
      (x r : Carrier)
      → upto (of_int (pos 0)) x ≡ true
      → upto (of_int (pos 0)) r ≡ true
      → upto r (of_int (pos 1)) ≡ true
      → (upto (of_int (pos 0)) (times x r) ≡ true) × (upto (times x r) x ≡ true)
  pub half_low : upto (of_int (pos 0)) half ≡ true
  pub half_self : upto half half ≡ true
  pub half_high : upto half (of_int (pos 1)) ≡ true
  pub round_mono : (x y : Carrier) → upto x y ≡ true → upto (round x) (round y) ≡ true
  pub round_int : (a : ℤ) → pos 0 ≤ℤ a → a ≤ℤ pos 9007199254740992 → round (of_int a) ≡ of_int a
  pub to_int_mono :
      (x y : Carrier)
      → upto (of_int (pos 0)) x ≡ true
      → upto x y ≡ true
      → upto y (of_int (pos 9007199254740992)) ≡ true
      → to_int x ≤ℤ to_int y
  pub to_int-of_int : (a : ℤ) → pos 0 ≤ℤ a → a ≤ℤ pos 9007199254740992 → to_int (of_int a) ≡ a

module _ (f : Float64) where
  open f use {
    Carrier, of_int, times, round, to_int, upto, of_int_mono, times_fraction, round_mono, round_int,
    to_int_mono, to_int-of_int,
  }

  -- A rate in [0, 1], and not NaN.
  abbrev pub IsFraction : Carrier → Type 0
  IsFraction r = (upto (of_int (pos 0)) r ≡ true) × (upto r (of_int (pos 1)) ≡ true)

  -- `int64(math.Round(float64(cents) * rate))`
  unfoldable pub round_share : ℤ → Carrier → ℤ
  round_share cents rate = to_int (round (times (of_int cents) rate))

  -- `int64(float64(cents) * rate)`
  unfoldable pub trunc_share : ℤ → Carrier → ℤ
  trunc_share cents rate = to_int (times (of_int cents) rate)

  module _ (cents : ℤ) (low : pos 0 ≤ℤ cents) (high : cents ≤ℤ pos 9007199254740992) where
    to_int_bounds :
        (x : Carrier)
        → upto (of_int (pos 0)) x ≡ true
        → upto x (of_int cents) ≡ true
        → (pos 0 ≤ℤ to_int x) × (to_int x ≤ℤ cents)
    to_int_bounds x a b =
        let top = of_int_mono cents (pos 9007199254740992) high in
        let from =
          to_int_mono (of_int (pos 0)) x (of_int_mono (pos 0) (pos 0) (omega arith)) a
            (f.upto_trans x (of_int cents) (of_int (pos 9007199254740992)) b top) in
        let to = to_int_mono x (of_int cents) a b top in
        (
          rw (to_int-of_int (pos 0) (omega arith) (omega arith)) at from,
          rw (to_int-of_int cents low high) at to,
        )

    share :
        (r : Carrier)
        → IsFraction r
        → (upto (of_int (pos 0)) (times (of_int cents) r) ≡ true)
          × (upto (times (of_int cents) r) (of_int cents) ≡ true)
    share r h = times_fraction (of_int cents) r (of_int_mono (pos 0) cents low) h.0 h.1

    -- A truncated fraction of an amount lies between nothing and the amount.
    pub trunc_share_bounds :
        (r : Carrier)
        → IsFraction r
        → (pos 0 ≤ℤ trunc_share cents r) × (trunc_share cents r ≤ℤ cents)
    unfolding trunc_share
    trunc_share_bounds r h = let (a, b) = share r h in to_int_bounds (times (of_int cents) r) a b

    -- So does a rounded one.
    pub round_share_bounds :
        (r : Carrier)
        → IsFraction r
        → (pos 0 ≤ℤ round_share cents r) × (round_share cents r ≤ℤ cents)
    unfolding round_share
    round_share_bounds r h =
        let (a, b) = share r h in
        let from = round_mono (of_int (pos 0)) (times (of_int cents) r) a in
        let to = round_mono (times (of_int cents) r) (of_int cents) b in
        to_int_bounds (round (times (of_int cents) r))
          (rw (round_int (pos 0) (omega arith) (omega arith)) at from)
          (rw (round_int cents low high) at to)
