-- ===== src/Telemetry/Range.antt =====
-- validateRange of src/internal/telemetry/validation.go: the arithmetic on sequence numbers and times,
-- in signed 64-bit words.
pub mod Bounds
pub mod Times
use project1_iot_server.Clock.{Time, Duration, after, year_10000, valid_calendar_year}
use project1_iot_server.Telemetry.Errors.{
  Error, Result, ok, reason, invalid_sequence_range, invalid_timestamp, timestamp_in_future, ◌>>=◌,
  ◌>>◌, reject_if, or_error,
}
use project1_iot_server.Telemetry.Model.{BatchDto, Limits}
use project1_iot_server.Telemetry.Timestamp.{parse_measured_at}
use project1_iot_server.Prelude.{
  ℕ, ◌+◌, ◌/◌, String, ◌&&◌, ◌||◌, Option, none, some, if◌then◌else◌, ℤ, pos, pos_part, ltb_ℤ,
  leb_ℤ, max_int64, ◌+ℤ◌, add64, sub64, mul64,
}

pub record ValidatedRange : Type 0 where
  pub first_measured_at : Time
  pub last_measured_at : Time
  pub last_sequence : ℤ
  pub interval : Duration

abbrev invalid_sequence : String → Error
invalid_sequence field = reason invalid_sequence_range field

abbrev invalid_time : String → Error
invalid_time field = reason invalid_timestamp field

-- maxExactFloat64Integer
abbrev pub max_exact_float64_integer : ℕ
max_exact_float64_integer = 9007199254740992

-- maxInt64 / int64(time.Microsecond)
abbrev max_microseconds : ℕ
max_microseconds = 9223372036854775

-- addTimestampSafe
abbrev add_timestamp_safe : Time → Duration → Option Time
add_timestamp_safe value delta =
    if valid_calendar_year (value +ℤ delta) then some (value +ℤ delta) else none

-- The last check: a threshold before the year 1 rejects all, one after the year 9999 nothing.
unfoldable pub check_future : Time → Time → Result (Unit {0})
check_future threshold last = do
  reject_if (ltb_ℤ threshold (pos 0)) (reason timestamp_in_future "last_measured_at")
  reject_if (ltb_ℤ threshold (pos year_10000) && after last threshold)
      (reason timestamp_in_future "last_measured_at")
  ok tt

-- The checks on the sample count, the first sequence number, the interval in microseconds and the
-- limit on the span; the result is the last sequence number, the interval and the span.
unfoldable pub check_sequence : ℤ → ℤ → ℤ → Duration → Result (ℤ × Duration × Duration)
check_sequence count first micros max_duration = do
  reject_if (leb_ℤ count (pos 0)) (invalid_sequence "sample_count")
  reject_if (ltb_ℤ first (pos 0)) (invalid_sequence "first_sequence")
  let steps = sub64 count (pos 1)
  reject_if (ltb_ℤ (sub64 (pos max_int64) first) steps) (invalid_sequence "last_sequence")
  let last_sequence = add64 first steps
  reject_if
      (leb_ℤ micros (pos 0)
        || ltb_ℤ (pos max_exact_float64_integer) micros
        || ltb_ℤ (pos max_microseconds) micros)
      (invalid_sequence "sample_interval_us")
  let interval = mul64 micros (pos 1000)
  reject_if (ltb_ℤ (pos 0) steps && ltb_ℤ (pos (max_int64 / pos_part steps)) interval)
      (invalid_sequence "span")
  let span = mul64 steps interval
  reject_if (leb_ℤ max_duration (pos 0) || ltb_ℤ max_duration span) (invalid_sequence "span")
  ok (last_sequence, interval, span)

-- The checks on the times, behind those on the sequence.
unfoldable pub check_times :
    ℤ × Duration × Duration → Option Time → Limits → Time → Result ValidatedRange
check_times (last_sequence, interval, span) measured_at l received_at = do
  first ← or_error measured_at (invalid_time "measured_at")
  last ← or_error (add_timestamp_safe first span) (invalid_time "last_measured_at")
  reject_if (ltb_ℤ l.max_future_skew (pos 0)) (invalid_time "max_future_skew")
  check_future (received_at +ℤ l.max_future_skew) last
  ok (record {
    first_measured_at = first;
    last_measured_at = last;
    last_sequence = last_sequence;
    interval = interval;
  })

-- validateRange
unfoldable pub validate_range : BatchDto → Limits → Time → Result ValidatedRange
validate_range b l received_at = do
  sequence ←
      check_sequence b.sample_count b.first_sequence b.sample_interval_us l.max_batch_duration
  check_times sequence (parse_measured_at b.measured_at) l received_at
