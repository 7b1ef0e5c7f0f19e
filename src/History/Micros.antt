-- ===== src/History/Micros.antt =====
-- The microseconds of src/internal/telemetry/history_query.go.
use project1_iot_server.Clock.{unix, nanosecond, year_10000}
use project1_iot_server.History.{to_micros}
use project1_iot_server.Prelude.{
  ℕ, ◌+◌, ◌*◌, ◌/◌, ◌%◌, ◌<◌, ◌≡◌, arith, ℤ, pos, ◌+ℤ◌, ◌-ℤ◌, ◌*ℤ◌, wrap64, add64, mul64,
}

-- The microseconds from the year 1 to 1970.
abbrev pub epoch_micros : ℕ
epoch_micros = 62135596800000000

split_micros : (n : ℕ) → n / 1000000000 * 1000000 + n % 1000000000 / 1000 ≡ n / 1000
split_micros n = omega arith

abbrev pub exact_micros : ℕ → ℤ
exact_micros n = pos (n / 1000) -ℤ pos epoch_micros

pub to_micros_exact : (n : ℕ) → n < year_10000 → to_micros (pos n) ≡ exact_micros n
unfolding to_micros unix nanosecond mul64 add64 wrap64 ◌*ℤ◌ ◌+ℤ◌ ◌-ℤ◌
to_micros_exact n h = ground arith
