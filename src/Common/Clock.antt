-- ===== src/Common/Clock.antt =====
-- `time.Time` as nanoseconds since Go's zero time, 1 January of the year 1, 00:00 UTC, so that
-- `IsZero` is `== 0` and midnights are the multiples of a day. The clock is an argument `now`.
use Prim.Native.Nat.{ℕ, ◌-◌, ◌%◌, ◌≤◌}
use mathlib.Core.Path.{◌≡◌}
use native.Mathlib.Omega.{arith}

abbrev pub Time : Type 0
Time = ℕ

abbrev pub minute : ℕ
minute = 60000000000

abbrev pub hour : ℕ
hour = 3600000000000

abbrev pub day : ℕ
day = 86400000000000

-- `truncateDay`, which five packages declare alike.
unfoldable pub truncate_day : Time → Time
truncate_day t = t - t % 86400000000000

pub truncate_day-le : (t : Time) → truncate_day t ≤ t
unfolding truncate_day
truncate_day-le t = omega arith

pub truncate_day_whole : (t : Time) → truncate_day t % 86400000000000 ≡ 0
unfolding truncate_day
truncate_day_whole t = omega arith
