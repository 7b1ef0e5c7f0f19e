-- ===== src/Clock.antt =====
-- The times of Go's package time that the program compares: instants, as nanoseconds since the start
-- of the year 1 in UTC, which is the zero time, and durations, as nanoseconds.
use project1_iot_server.Prelude.{
  ℕ, ◌-◌, ◌/◌, ◌%◌, ◌-ℤ◌, Bool, false, ltb, ℤ, pos, negsuc, ltb_ℤ, eqb_ℤ,
}

abbrev pub Time : Type 0
Time = ℤ

abbrev pub Duration : Type 0
Duration = ℤ

abbrev pub zero_time : Time
zero_time = pos 0

-- The start of the year 10000: 3652059 days.
abbrev pub year_10000 : ℕ
year_10000 = 315537897600000000000

-- Time.After, Time.Before, Time.Equal, Time.IsZero
abbrev pub after : Time → Time → Bool
after a b = ltb_ℤ b a

abbrev pub before : Time → Time → Bool
before a b = ltb_ℤ a b

abbrev pub is_zero : Time → Bool
is_zero t = eqb_ℤ t zero_time

-- Year() >= 1 && Year() <= 9999, the function validCalendarYear of src/internal/telemetry/validation.go
unfoldable pub valid_calendar_year : Time → Bool
valid_calendar_year (pos n) = ltb n year_10000
valid_calendar_year (negsuc n) = false

-- Time.Unix, Time.Nanosecond: the whole seconds since 1970, of a division that rounds down, and the rest.
unfoldable pub unix : Time → ℤ
unfolding ◌-ℤ◌
unix (pos n) = pos (n / 1000000000) -ℤ pos 62135596800
unix (negsuc n) = negsuc (n / 1000000000) -ℤ pos 62135596800

unfoldable pub nanosecond : Time → ℕ
nanosecond (pos n) = n % 1000000000
nanosecond (negsuc n) = 999999999 - n % 1000000000
