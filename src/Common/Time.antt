-- ===== src/Common/Time.antt =====
-- Instants and durations of `chrono`, as whole nanoseconds that may be negative, and the conversions
-- of Rust's integer types.
use tlapix.Common.{ℕ, suc, ◌-◌, ◌/◌, ◌%◌, ◌^◌}
use tlapix.Common.Int.{ℤ, pos, negsuc, sub_ℕ}

-- `DateTime<Utc>` since the epoch.
abbrev pub DateTime : Type 0
DateTime = ℤ

abbrev pub ns_per_day : ℕ
ns_per_day = 86400000000000

abbrev pub ns_per_ms : ℕ
ns_per_ms = 1000000

-- `Duration::num_days`: towards zero.
unfoldable pub num_days : ℤ → ℤ
num_days (pos n) = pos (n / ns_per_day)
num_days (negsuc n) = sub_ℕ 0 (suc n / ns_per_day)

-- `x as u32` of an i64.
unfoldable pub as_u32 : ℤ → ℕ
as_u32 (pos n) = n % 2 ^ 32
as_u32 (negsuc n) = 2 ^ 32 - 1 - n % 2 ^ 32
