-- ===== src/Telemetry/Timestamp.antt =====
-- parseMeasuredAt of src/internal/telemetry/validation.go: the shape test on the bytes of measured_at,
-- and time.Parse with the layout RFC3339Nano on a text of that shape.
use project1_iot_server.Clock.{Time, valid_calendar_year}
use project1_iot_server.Prelude.{
  ℕ, zero, suc, ◌+◌, ◌-◌, ◌*◌, ◌/◌, ◌%◌, ◌^◌, Bool, true, false, not, ◌&&◌, ◌||◌, Option, none,
  some, [], ◌∷◌, leb, ◌==◌, if◌then◌else◌, length, all, ℤ, pos, ◌+ℤ◌, ◌-ℤ◌, ◌*ℤ◌, Bytes, codes,
  is_digit, bytes_eq,
}

-- value[i:j], and value[i], which the code reads only below the length.
abbrev pub drop_bytes : ℕ → Bytes → Bytes
drop_bytes zero s = s
drop_bytes (suc n) [] = []
drop_bytes (suc n) (c ∷ s) = drop_bytes n s

abbrev pub take_bytes : ℕ → Bytes → Bytes
take_bytes zero s = []
take_bytes (suc n) [] = []
take_bytes (suc n) (c ∷ s) = c ∷ take_bytes n s

abbrev pub slice : ℕ → ℕ → Bytes → Bytes
slice i j s = take_bytes (j - i) (drop_bytes i s)

abbrev pub first_byte : Bytes → ℕ
first_byte [] = 0
first_byte (c ∷ s) = c

abbrev pub byte_at : Bytes → ℕ → ℕ
byte_at s i = first_byte (drop_bytes i s)

pub all_digits : Bytes → Bool
all_digits [] = false
all_digits (c ∷ s) = all is_digit (c ∷ s)

-- strconv.Atoi on digits.
decimal_from : ℕ → Bytes → ℕ
decimal_from n [] = n
decimal_from n (c ∷ s) = decimal_from (n * 10 + (c - b'0')) s

decimal : Bytes → ℕ
unfolding decimal_from
decimal s = decimal_from 0 s

-- The first test of parseMeasuredAt, from the length to the seconds.
has_date_shape : Bytes → Bool
unfolding all_digits
has_date_shape v =
    leb 20 (length v)
    && all_digits (slice 0 4 v)
    && byte_at v 4 == b'-'
    && all_digits (slice 5 7 v)
    && byte_at v 7 == b'-'
    && all_digits (slice 8 10 v)
    && byte_at v 10 == b'T'
    && all_digits (slice 11 13 v)
    && byte_at v 13 == b':'
    && all_digits (slice 14 16 v)
    && byte_at v 16 == b':'
    && all_digits (slice 17 19 v)

-- The loop that looks for the zone from position i, with the default len(value) - 1.
find_zone : ℕ → ℕ → Bytes → ℕ
find_zone otherwise i [] = otherwise
find_zone otherwise i (c ∷ s) =
    let rest = find_zone otherwise (i + 1) s in
    if c == b'Z' || c == b'+' || c == b'-' then i else rest

zone_start : Bytes → ℕ
unfolding find_zone
zone_start v = find_zone (length v - 1) 19 (drop_bytes 19 v)

fraction : Bytes → Bytes
unfolding zone_start
fraction v = slice 20 (zone_start v) v

has_fraction_shape : Bytes → Bool
unfolding zone_start fraction all_digits
has_fraction_shape v =
    if zone_start v == 19
    then true
    else byte_at v 19 == b'.' && leb (length (fraction v)) 6 && all_digits (fraction v)

zone : Bytes → Bytes
unfolding zone_start
zone v = drop_bytes (zone_start v) v

has_zone_shape : Bytes → Bool
unfolding all_digits decimal
has_zone_shape z =
    if bytes_eq z (codes "Z")
    then true
    else length z == 6
      && (byte_at z 0 == b'+' || byte_at z 0 == b'-')
      && byte_at z 3 == b':'
      && all_digits (slice 1 3 z)
      && all_digits (slice 4 6 z)
      && leb (decimal (slice 1 3 z)) 23
      && leb (decimal (slice 4 6 z)) 59

is_leap : ℕ → Bool
is_leap y = y % 4 == 0 && (not (y % 100 == 0) || y % 400 == 0)

days_in : Bool → ℕ → ℕ
days_in leap m =
    if m == 2
    then (if leap then 29 else 28)
    else if m == 4 || m == 6 || m == 9 || m == 11
    then 30
    else 31

-- Days from the start of the year to the start of month m + 1.
days_before_month : Bool → ℕ → ℕ
unfolding days_in
days_before_month leap zero = 0
days_before_month leap (suc m) = days_before_month leap m + days_in leap (suc m)

-- Whole seconds since the start of the year 1, of a date and time of day.
seconds_of : ℕ → ℕ → ℕ → ℕ → ℕ → ℕ → ℕ
unfolding is_leap days_before_month
seconds_of year month day hour minute second =
    let y = year - 1 in
    let days =
      365 * y
      + y / 4
      - y / 100
      + y / 400
      + days_before_month (is_leap year) (month - 1)
      + (day - 1) in
    days * 86400 + hour * 3600 + minute * 60 + second

-- The nanoseconds of a fraction of at most nine digits.
fraction_nanos : Bytes → ℕ
unfolding decimal
fraction_nanos [] = 0
fraction_nanos (c ∷ s) = decimal (c ∷ s) * 10 ^ (9 - length (c ∷ s))

-- The offset of the zone in seconds, taken from the local time.
minus_offset : Bytes → ℕ → ℤ
unfolding decimal
minus_offset z secs =
    if bytes_eq z (codes "Z")
    then pos secs
    else let offset = decimal (slice 1 3 z) * 3600 + decimal (slice 4 6 z) * 60 in
      if byte_at z 0 == b'+' then pos secs -ℤ pos offset else pos (secs + offset)

-- time.Parse(time.RFC3339Nano, value) on a text that passed the shape tests, in UTC.
time_parse : Bytes → Option Time
unfolding decimal is_leap days_in seconds_of fraction_nanos minus_offset fraction zone
time_parse v =
    let year = decimal (slice 0 4 v) in
    let month = decimal (slice 5 7 v) in
    let day = decimal (slice 8 10 v) in
    if leb 1 month && leb month 12 && leb 1 day && leb day (days_in (is_leap year) month)
    then some (
        minus_offset (zone v) (
            seconds_of year month day (decimal (slice 11 13 v)) (decimal (slice 14 16 v))
              (decimal (slice 17 19 v)))
          *ℤ pos 1000000000
        +ℤ pos (if zone_start v == 19 then 0 else fraction_nanos (fraction v)))
    else none

keep_valid_year : Option Time → Option Time
keep_valid_year none = none
keep_valid_year (some t) = if valid_calendar_year t then some t else none

-- parseMeasuredAt; every error of it is the same to its caller.
unfoldable pub parse_measured_at : Bytes → Option Time
unfolding has_date_shape decimal has_fraction_shape has_zone_shape time_parse keep_valid_year
parse_measured_at v =
    if not (has_date_shape v)
    then none
    else if decimal (slice 0 4 v) == 0
    then none
    else if not (has_fraction_shape v)
    then none
    else if not (has_zone_shape (zone v))
    then none
    else if not (
        leb (decimal (slice 11 13 v)) 23
        && leb (decimal (slice 14 16 v)) 59
        && leb (decimal (slice 17 19 v)) 59)
    then none
    else keep_valid_year (time_parse v)
