-- ===== src/History.antt =====
-- src/internal/telemetry/history_query.go: the resolutions of a history query, the count of its buckets
-- and the bounds of its range.
pub mod Floor
pub mod Micros
pub mod Counts
pub mod Select
pub mod Service
pub mod Mention
use project1_iot_server.Clock.{Time, Duration, before, valid_calendar_year, unix, nanosecond}
use project1_iot_server.Prelude.{
  ℕ, suc, ◌+◌, ◌-◌, ◌/◌, ◌%◌, ◌≡◌, refl, Bool, true, false, not, ◌&&◌, ◌||◌, Option, none, some,
  ◌==◌, if◌then◌else◌, ℤ, pos, negsuc, ltb_ℤ, leb_ℤ, eqb_ℤ, ◌+ℤ◌, add64, sub64, mul64, Bytes,
}

pub data HistoryError : Type 0 where
  nil_actor invalid_input history_not_found range_too_large invalid_resolution : HistoryError
  raw_limit_exceeded resolution_too_fine dependency unexpected : HistoryError
  -- the error of a context that has ended, an error of another package, and fmt.Errorf with two %w verbs
  context_ended : HistoryError
  foreign : ℕ → HistoryError
  wrapped : HistoryError → HistoryError → HistoryError

-- A value, or an error.
pub data Reply {ℓ} (V : Type ℓ) : Type ℓ where
  failure : HistoryError → Reply V
  reply : V → Reply V

infixl 5 ◌>>◌ ◌>>=◌
abbrev pub ◌>>=◌ {ℓ κ} : {V : Type ℓ} {W : Type κ} → Reply V → (V → Reply W) → Reply W
reply v >>= use_it = use_it v
failure e >>= use_it = failure e

abbrev pub ◌>>◌ {κ} : {W : Type κ} → Reply (Unit {0}) → Reply W → Reply W
reply v >> after_it = after_it
failure e >> after_it = failure e

abbrev pub fail_if : Bool → HistoryError → Reply (Unit {0})
fail_if false e = reply tt
fail_if true e = failure e

pub data Resolution : Type 0 where
  auto raw ms_100 s_1 s_10 m_1 m_5 m_15 h_1 h_6 d_1 : Resolution
  other_resolution : Bytes → Resolution

-- Resolution.Valid
unfoldable pub valid_resolution : Resolution → Bool
valid_resolution (other_resolution s) = false
valid_resolution _ = true

-- ResolutionDuration
unfoldable pub resolution_duration : Resolution → Option Duration
resolution_duration ms_100 = some (pos 100000000)
resolution_duration s_1 = some (pos 1000000000)
resolution_duration s_10 = some (pos 10000000000)
resolution_duration m_1 = some (pos 60000000000)
resolution_duration m_5 = some (pos 300000000000)
resolution_duration m_15 = some (pos 900000000000)
resolution_duration h_1 = some (pos 3600000000000)
resolution_duration h_6 = some (pos 21600000000000)
resolution_duration d_1 = some (pos 86400000000000)
resolution_duration _ = none

-- Go's / and % on int64, which round to zero. A divisor is never 0 here, and the quotient of the least
-- int64 by -1 is not formed.
abbrev pub neg_of : ℕ → ℤ
neg_of n = if n == 0 then pos 0 else negsuc (n - 1)

unfoldable pub quot : ℤ → ℤ → ℤ
quot (pos a) (pos b) = pos (a / b)
quot (pos a) (negsuc b) = neg_of (a / suc b)
quot (negsuc a) (pos b) = neg_of (suc a / b)
quot (negsuc a) (negsuc b) = pos (suc a / suc b)

unfoldable pub rem : ℤ → ℤ → ℤ
rem (pos a) (pos b) = pos (a % b)
rem (pos a) (negsuc b) = pos (a % suc b)
rem (negsuc a) (pos b) = neg_of (suc a % b)
rem (negsuc a) (negsuc b) = neg_of (suc a % suc b)

-- ToMicrosecondsSinceEpoch
unfoldable pub to_micros : Time → ℤ
unfolding mul64 add64 unix nanosecond
to_micros t = add64 (mul64 (unix t) (pos 1000000)) (pos (nanosecond t / 1000))

-- Duration.Microseconds
abbrev pub microseconds : Duration → ℤ
microseconds d = quot d (pos 1000)

abbrev differ : Bool → Bool → Bool
differ true b = not b
differ false b = b

-- floorDiv
unfoldable pub floor_div : ℤ → ℤ → ℤ
unfolding quot rem sub64
floor_div a b =
    let d = quot a b in
    let r = rem a b in
    if not (eqb_ℤ r (pos 0)) && differ (ltb_ℤ r (pos 0)) (ltb_ℤ b (pos 0))
    then sub64 d (pos 1)
    else d

-- The count of IntersectingBucketCount, by its first and its last microsecond.
unfoldable pub count_micros : ℤ → ℤ → ℤ → ℤ
unfolding floor_div sub64 add64
count_micros first last w = add64 (sub64 (floor_div last w) (floor_div first w)) (pos 1)

-- IntersectingBucketCount
unfoldable pub intersecting_bucket_count : Time → Time → Duration → Reply ℤ
unfolding to_micros quot sub64 count_micros
intersecting_bucket_count from to width = do
  fail_if (leb_ℤ width (pos 0)) (foreign 1)
  fail_if (not (before from to)) (foreign 2)
  let w = microseconds width
  fail_if (leb_ℤ w (pos 0)) (foreign 3)
  reply (count_micros (to_micros from) (sub64 (to_micros to) (pos 1)) w)

-- A time.Time with its location, by the offset of its clock from UTC in nanoseconds.
pub record ZonedTime : Type 0 where
  pub utc : Time
  pub zone : Duration

pub record TimeRange : Type 0 where
  pub from : ZonedTime
  pub to : ZonedTime

-- The tests of ValidateHistoryTimeRange on one end of the range.
unfoldable pub bad_year : ZonedTime → Bool
unfolding valid_calendar_year ◌+ℤ◌
bad_year t = not (valid_calendar_year (t.utc +ℤ t.zone)) || not (valid_calendar_year t.utc)

abbrev pub span : Time → Time → ℤ
span from to = sub64 (to_micros to) (to_micros from)

-- Its tests of the bounds of the range, in seconds and in microseconds.
unfoldable pub too_large : Time → Time → Duration → Bool
unfolding unix sub64 quot add64 to_micros
too_large from to max_range =
    ltb_ℤ (add64 (quot max_range (pos 1000000000)) (pos 1)) (sub64 (unix to) (unix from))
    || ltb_ℤ (microseconds max_range) (span from to)

-- The end of ValidateHistoryTimeRange for a bucket resolution.
abbrev pub or_invalid : Reply ℤ → ℤ → Reply (Unit {0})
or_invalid (failure e) max = failure invalid_input
or_invalid (reply count) max = fail_if (ltb_ℤ max count) resolution_too_fine

abbrev pub check_width : Time → Time → ℤ → Option Duration → Reply (Unit {0})
check_width from to max none = failure invalid_resolution
check_width from to max (some w) = or_invalid (intersecting_bucket_count from to w) max

unfoldable pub check_buckets : Time → Time → Resolution → ℤ → Reply (Unit {0})
unfolding resolution_duration intersecting_bucket_count
check_buckets from to res max = check_width from to max (resolution_duration res)

unfoldable pub check_resolution : Time → Time → Resolution → Duration → ℤ → Reply (Unit {0})
unfolding to_micros quot sub64 check_buckets
check_resolution from to raw window max =
    fail_if (ltb_ℤ (microseconds window) (span from to)) raw_limit_exceeded
check_resolution from to auto window max = reply tt
check_resolution from to res window max = check_buckets from to res max

-- ValidateHistoryTimeRange
unfoldable pub validate_history_time_range :
    TimeRange → Resolution → Duration → Duration → ℤ → Reply (Unit {0})
unfolding nanosecond bad_year too_large valid_resolution check_resolution
validate_history_time_range range res max_range window max = do
  let from = range.from.utc
  let to = range.to.utc
  fail_if (bad_year range.from || bad_year range.to) invalid_input
  fail_if (not (nanosecond from % 1000 == 0) || not (nanosecond to % 1000 == 0)) invalid_input
  fail_if (not (before from to)) invalid_input
  fail_if (too_large from to max_range) range_too_large
  fail_if (not (valid_resolution res)) invalid_resolution
  check_resolution from to res window max

pub reply_inj {ℓ} : {V : Type ℓ} {v w : V} → reply v ≡ reply w → v ≡ w
reply_inj h = cc

pub fail_if-eq-reply {κ} :
    {W : Type κ} (b : Bool) (e : HistoryError) (rest : Reply W) {w : W}
    → (fail_if b e >> rest) ≡ reply w
    → (b ≡ false) × (rest ≡ reply w)
fail_if-eq-reply false e rest h = (refl, h)
fail_if-eq-reply true e rest h = cc

pub passes {κ} :
    {W : Type κ} (b : Bool) (e : HistoryError) (rest : Reply W) {w : W}
    → b ≡ false
    → rest ≡ reply w
    → (fail_if b e >> rest) ≡ reply w
passes b e rest h k = rw h k

pub >>-eq-reply {κ} :
    {W : Type κ} (first : Reply (Unit {0})) (rest : Reply W) {w : W}
    → (first >> rest) ≡ reply w
    → (first ≡ reply tt) × (rest ≡ reply w)
>>-eq-reply (reply v) rest h = (refl, h)
>>-eq-reply (failure e) rest h = cc
