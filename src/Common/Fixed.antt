-- ===== src/Common/Fixed.antt =====
-- Ten-thousandths in place of floating point: numbers at which the laws of `Float64` hold.
use airbnb.Common.Tests.{ltb, leb}
use airbnb.Common.Int.{ℤ, pos, pos_part, ◌≤ℤ◌, negsuc}
use airbnb.Common.Float.{Float64}
use mathlib.Core.Bool.{true, false}
use mathlib.Core.Path.{◌≡◌, ap, refl}
use Prim.Native.Nat.{ℕ, ◌+◌, ◌*◌, ◌/◌, ◌≤◌}
use native.Mathlib.Omega.{arith}

unfoldable pub fixed_times : ℕ → ℕ → ℕ
fixed_times x y = x * y / 10000

unfoldable pub fixed_round : ℕ → ℕ
fixed_round x = (x + 5000) / 10000 * 10000

unfoldable pub fixed_of_int : ℤ → ℕ
fixed_of_int a = pos_part a * 10000

unfoldable pub fixed_to_int : ℕ → ℤ
fixed_to_int x = pos (x / 10000)

pub upto_not_below : (x y : ℕ) → leb x y ≡ true → ltb y x ≡ false
upto_not_below x y h = ground arith

pub leb_trans : (x y z : ℕ) → leb x y ≡ true → leb y z ≡ true → leb x z ≡ true
leb_trans x y z h k = ground arith

leb_of_le : (x y : ℕ) → x ≤ y → leb x y ≡ true
leb_of_le x y h = ground arith

le_of_leb : (x y : ℕ) → leb x y ≡ true → x ≤ y
le_of_leb x y h = ground arith

pub fixed_of_int_mono : (a b : ℤ) → a ≤ℤ b → leb (fixed_of_int a) (fixed_of_int b) ≡ true
unfolding fixed_of_int
fixed_of_int_mono a b h = ground arith

fixed_times_le : (x r : ℕ) → r ≤ 10000 → x * r / 10000 ≤ x
fixed_times_le x r h = let most : x * r ≤ x * 10000 = grind arith in omega arith

pub fixed_times_fraction :
    (x r : ℕ)
    → leb (fixed_of_int (pos 0)) x ≡ true
    → leb (fixed_of_int (pos 0)) r ≡ true
    → leb r (fixed_of_int (pos 1)) ≡ true
    → (leb (fixed_of_int (pos 0)) (fixed_times x r) ≡ true) × (leb (fixed_times x r) x ≡ true)
unfolding fixed_of_int fixed_times
fixed_times_fraction x r _ _ h = (
  leb_of_le 0 (x * r / 10000) (omega arith),
  leb_of_le (x * r / 10000) x (fixed_times_le x r (le_of_leb r 10000 h)),
)

pub fixed_round_mono : (x y : ℕ) → leb x y ≡ true → leb (fixed_round x) (fixed_round y) ≡ true
unfolding fixed_round
fixed_round_mono x y h = let le = le_of_leb x y h in leb_of_le _ _ (omega arith)

pub fixed_round_int :
    (a : ℤ) → pos 0 ≤ℤ a → a ≤ℤ pos 9007199254740992 → fixed_round (fixed_of_int a) ≡ fixed_of_int a
unfolding fixed_round fixed_of_int
fixed_round_int a low high = omega arith

pub fixed_to_int_mono :
    (x y : ℕ)
    → leb (fixed_of_int (pos 0)) x ≡ true
    → leb x y ≡ true
    → leb y (fixed_of_int (pos 9007199254740992)) ≡ true
    → fixed_to_int x ≤ℤ fixed_to_int y
unfolding fixed_to_int
fixed_to_int_mono x y _ h _ = let le = le_of_leb x y h in omega arith

pub fixed_to_int-of_int :
    (a : ℤ) → pos 0 ≤ℤ a → a ≤ℤ pos 9007199254740992 → fixed_to_int (fixed_of_int a) ≡ a
unfolding fixed_to_int fixed_of_int
fixed_to_int-of_int (pos n) low high = ap pos (omega arith)
fixed_to_int-of_int (negsuc n) low high = absurd (omega arith)

pub half_low : leb (fixed_of_int (pos 0)) 5000 ≡ true
unfolding fixed_of_int
half_low = refl

pub half_high : leb 5000 (fixed_of_int (pos 1)) ≡ true
unfolding fixed_of_int
half_high = refl

unfoldable pub fixed : Float64
unfolding fixed_of_int fixed_times fixed_round fixed_to_int
fixed = record {
  Carrier = ℕ;
  of_int = fixed_of_int;
  half = 5000;
  times = fixed_times;
  round = fixed_round;
  to_int = fixed_to_int;
  below = ltb;
  upto = leb;
  upto-below = upto_not_below;
  upto_trans = leb_trans;
  of_int_mono = fixed_of_int_mono;
  times_fraction = fixed_times_fraction;
  half_low = half_low;
  half_self = refl;
  half_high = half_high;
  round_mono = fixed_round_mono;
  round_int = fixed_round_int;
  to_int_mono = fixed_to_int_mono;
  to_int-of_int = fixed_to_int-of_int;
}
