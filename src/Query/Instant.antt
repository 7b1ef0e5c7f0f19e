-- ===== src/Query/Instant.antt =====
-- parseRFC3339Micro and parseRFC3339MicroUTCZ of src/internal/httpserver/history_query_parser.go; time.Parse
-- is an argument, and `none` stands for any error.
use project1_iot_server.Clock.{Time, valid_calendar_year}
use project1_iot_server.Telemetry.Timestamp.{drop_bytes, take_bytes, byte_at}
use project1_iot_server.Prelude.{
  ℕ, suc, ◌+◌, ◌-◌, ◌*◌, ◌%◌, Bool, false, not, ◌&&◌, ◌||◌, Option, none, some, List, [], ◌∷◌, ◌++◌,
  leb, ◌==◌, if◌then◌else◌, length, all, pos, negsuc, Bytes, codes, is_digit, is_empty, bytes_eq,
}

abbrev digits_at : Bytes → List ℕ → Bool
digits_at s positions = all (λ i. is_digit (byte_at s i)) positions

-- The tests from the length to the seconds; `is_t` is the test of the delimiter.
unfoldable pub has_instant_shape : (ℕ → Bool) → Bytes → Bool
has_instant_shape is_t s =
    leb 20 (length s)
    && digits_at s (0 ∷ 1 ∷ 2 ∷ 3 ∷ [])
    && not (bytes_eq (take_bytes 4 s) (codes "0000"))
    && byte_at s 4 == b'-'
    && byte_at s 7 == b'-'
    && digits_at s (5 ∷ 6 ∷ 8 ∷ 9 ∷ [])
    && is_t (byte_at s 10)
    && byte_at s 13 == b':'
    && byte_at s 16 == b':'
    && digits_at s (11 ∷ 12 ∷ 14 ∷ 15 ∷ 17 ∷ 18 ∷ [])

unfoldable pub count_digits : Bytes → ℕ
count_digits [] = 0
count_digits (c ∷ s) = let rest = count_digits s in if is_digit c then suc rest else 0

-- The position behind the seconds and the fraction, which has one to six digits.
unfoldable pub fraction_end : Bytes → Option ℕ
unfolding count_digits
fraction_end s =
    let n = count_digits (drop_bytes 20 s) in
    if not (byte_at s 19 == b'.')
    then some 19
    else if leb 1 n && leb n 6
    then some (20 + n)
    else none

abbrev digit_value : ℕ → ℕ
digit_value c = c - b'0'

-- What follows the sign of an offset.
unfoldable pub offset_ok : Bytes → Bool
offset_ok (h1 ∷ h2 ∷ colon ∷ m1 ∷ m2 ∷ []) =
    colon == b':'
    && all is_digit (h1 ∷ h2 ∷ m1 ∷ m2 ∷ [])
    && leb (digit_value h1 * 10 + digit_value h2) 23
    && leb (digit_value m1 * 10 + digit_value m2) 59
offset_ok _ = false

-- The offset, with `z` as `Z`.
unfoldable pub offset_of : Bytes → Option Bytes
unfolding offset_ok
offset_of [] = none
offset_of (c ∷ rest) =
    if c == b'Z' || c == b'z'
    then (if is_empty rest then some (codes "Z") else none)
    else if (c == b'+' || c == b'-') && offset_ok rest
    then some (c ∷ rest)
    else none

-- Truncate(time.Microsecond), of a time in the years from 1.
abbrev truncate_micro : Time → Time
truncate_micro (pos n) = pos (n - n % 1000)
truncate_micro (negsuc n) = negsuc n

-- The year in UTC, and whole microseconds.
unfoldable pub normalized : Option Time → Option Time
unfolding valid_calendar_year
normalized none = none
normalized (some t) = if valid_calendar_year t then some (truncate_micro t) else none

abbrev parse_parts : (Bytes → Option Time) → Bytes → Option Bytes → Option Time
parse_parts parse_time first none = none
parse_parts parse_time first (some offset) = normalized (parse_time (first ++ offset))

abbrev with_offset : (Bytes → Option Bytes) → (Bytes → Option Time) → Bytes → Option ℕ → Option Time
with_offset offset parse_time s none = none
with_offset offset parse_time s (some end_at) =
    parse_parts parse_time (take_bytes end_at s) (offset (drop_bytes end_at s))

abbrev is_t : ℕ → Bool
is_t c = c == b'T' || c == b't'

-- parseRFC3339Micro
unfoldable pub parse_rfc3339_micro : (Bytes → Option Time) → Bytes → Option Time
unfolding has_instant_shape fraction_end offset_of normalized bytes_eq
parse_rfc3339_micro parse_time s =
    if has_instant_shape is_t s then with_offset offset_of parse_time s (fraction_end s) else none

abbrev only_z : Bytes → Option Bytes
only_z s = if bytes_eq s (codes "Z") then some (codes "Z") else none

-- parseRFC3339MicroUTCZ
unfoldable pub parse_rfc3339_micro_utcz : (Bytes → Option Time) → Bytes → Option Time
unfolding has_instant_shape fraction_end normalized bytes_eq
parse_rfc3339_micro_utcz parse_time s =
    if has_instant_shape (λ c. c == b'T') s
    then with_offset only_z parse_time s (fraction_end s)
    else none
