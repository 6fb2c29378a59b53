-- ===== src/Common/Int64.antt =====
-- Go's `int64` (and `int` on a 64-bit platform): an integer in range, and wrapping arithmetic.
use Prim.Native.Nat.{ℕ, ◌-◌, ◌%◌, ◌≤◌}
use mathlib.Core.Path.{◌≡◌}
use native.Mathlib.Omega.{arith}
use airbnb.Common.Tests.{ltb, if◌then◌else◌}
use airbnb.Common.Int.{ℤ, pos, negsuc, pos_part, neg_part, ◌+ℤ◌, ◌-ℤ◌, ◌*ℤ◌, ◌≤ℤ◌, ◌<ℤ◌, +ℤ_parts}

abbrev pub max_int64 : ℕ
max_int64 = 9223372036854775807

-- The values of an `int64`.
abbrev pub Fits : ℤ → Type 0
Fits a = (pos_part a ≤ 9223372036854775807) × (neg_part a ≤ 9223372036854775808)

-- Two's complement: the representative modulo 2 ^ 64 in [-2 ^ 63, 2 ^ 63).
unfoldable pub wrap64 : ℤ → ℤ
wrap64 (pos n) =
    let r = n % 18446744073709551616 in
    if ltb r 9223372036854775808 then pos r else negsuc (18446744073709551615 - r)
wrap64 (negsuc n) =
    let r = n % 18446744073709551616 in
    if ltb r 9223372036854775808 then negsuc r else pos (18446744073709551615 - r)

unfoldable pub add64 : ℤ → ℤ → ℤ
unfolding wrap64
add64 a b = wrap64 (a +ℤ b)

unfoldable pub sub64 : ℤ → ℤ → ℤ
unfolding wrap64
sub64 a b = wrap64 (a -ℤ b)

unfoldable pub mul64 : ℤ → ℤ → ℤ
unfolding wrap64
mul64 a b = wrap64 (a *ℤ b)

pub wrap64-Fits : (a : ℤ) → Fits (wrap64 a)
unfolding wrap64
wrap64-Fits (pos n) = ground arith
wrap64-Fits (negsuc n) = ground arith

-- Within range nothing wraps.
pub wrap64_exact : (a : ℤ) → Fits a → wrap64 a ≡ a
unfolding wrap64
wrap64_exact (pos n) h = ground arith
wrap64_exact (negsuc n) h = ground arith

pub add64_exact : (a b : ℤ) → Fits (a +ℤ b) → add64 a b ≡ a +ℤ b
unfolding add64
add64_exact a b h = wrap64_exact (a +ℤ b) h

pub sub64_exact : (a b : ℤ) → Fits (a -ℤ b) → sub64 a b ≡ a -ℤ b
unfolding sub64
sub64_exact a b h = wrap64_exact (a -ℤ b) h

pub mul64_exact : (a b : ℤ) → Fits (a *ℤ b) → mul64 a b ≡ a *ℤ b
unfolding mul64
mul64_exact a b h = wrap64_exact (a *ℤ b) h

wrap64_overflow :
    (a : ℤ) → pos 9223372036854775808 ≤ℤ a → a <ℤ pos 18446744073709551616 → wrap64 a <ℤ pos 0
unfolding wrap64
wrap64_overflow (pos n) h k = ground arith
wrap64_overflow (negsuc n) h k = ground arith

-- Past the largest `int64` a sum of two values turns negative.
pub add64_overflow :
    (a b : ℤ) → Fits a → Fits b → pos 9223372036854775808 ≤ℤ a +ℤ b → add64 a b <ℤ pos 0
unfolding add64
add64_overflow a b f g h = wrap64_overflow (a +ℤ b) h (omega (arith, +ℤ_parts a b))

-- Wrapping early or late makes no difference to a sum.
pub wrap64-add : (a b : ℤ) → wrap64 (wrap64 a +ℤ b) ≡ wrap64 (a +ℤ b)
unfolding wrap64 ◌+ℤ◌
wrap64-add (pos a) (pos b) = ground arith
wrap64-add (pos a) (negsuc b) = ground arith
wrap64-add (negsuc a) (pos b) = ground arith
wrap64-add (negsuc a) (negsuc b) = ground arith
