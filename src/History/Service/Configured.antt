-- ===== src/History/Service/Configured.antt =====
-- The resolution of an auto query under a valid configuration, for
-- src/internal/telemetry/history_preparation.go and history_service.go.
use mathlib.Core.Path.{subst}
use project1_iot_server.Clock.{
  Time, Duration, before, nanosecond, unix, year_10000, valid_calendar_year,
}
use project1_iot_server.History.{
  foreign, invalid_input, range_too_large, reply, fail_if-eq-reply, Resolution, ZonedTime, span,
  microseconds, quot, bad_year, too_large, validate_history_time_range,
}
use project1_iot_server.History.Micros.{exact_micros, to_micros_exact}
use project1_iot_server.History.Select.{select_auto_bucket_resolution}
use project1_iot_server.History.Select.Fits.{max_span, select_auto_fits}
use project1_iot_server.History.Service.{
  Config, Query, validate_config, max_timeout, greatest_range, greatest_window,
}
use project1_iot_server.History.Service.Admissible.{ValidRange}
use project1_iot_server.Prelude.{
  ℕ, ◌+◌, ◌%◌, ◌≤◌, ◌<◌, ◌≡◌, Bool, true, false, not, ◌||◌, arith, ◌==◌, ℤ, pos, negsuc, ◌≤ℤ◌,
  ltb_ℤ, leb_ℤ, ◌-ℤ◌, wrap64, add64, sub64,
}

whole : (m : ℕ) → nanosecond (pos m) % 1000 ≡ 0 → m % 1000 ≡ 0
unfolding nanosecond
whole m h = omega arith

exact_span :
    (m n : ℕ)
    → m < year_10000
    → n < year_10000
    → span (pos m) (pos n) ≡ exact_micros n -ℤ exact_micros m
unfolding sub64 wrap64 ◌-ℤ◌
exact_span m n h k = ground (arith, to_micros_exact m h, to_micros_exact n k)

close_enough :
    (m n : ℕ)
    → m % 1000 ≡ 0
    → n % 1000 ≡ 0
    → exact_micros n -ℤ exact_micros m ≤ℤ pos 2678400000000
    → n ≤ m + max_span
unfolding ◌-ℤ◌
close_enough m n a b h = ground arith

range_micros : (d : Duration) → d ≤ℤ greatest_range → microseconds d ≤ℤ pos 2678400000000
unfolding quot
range_micros (pos d) h = ground arith
range_micros (negsuc d) h = ground arith

second_false : (a b : Bool) → (a || b) ≡ false → b ≡ false
second_false a b h = ground arith

not_below : (a b : ℤ) → ltb_ℤ a b ≡ false → b ≤ℤ a
not_below a b h = ground arith

not_too_large :
    (from to : Time) (d : Duration) → too_large from to d ≡ false → span from to ≤ℤ microseconds d
unfolding too_large
not_too_large from to d h = not_below (microseconds d) (span from to) (
    second_false (ltb_ℤ (add64 (quot d (pos 1000000000)) (pos 1)) (sub64 (unix to) (unix from)))
      (ltb_ℤ (microseconds d) (span from to)) h)

in_years : (m : ℕ) → valid_calendar_year (pos m) ≡ true → m < year_10000
unfolding valid_calendar_year
in_years m h = ground arith

earlier : (m n : ℕ) → before (pos m) (pos n) ≡ true → m < n
earlier m n h = ground arith

le_trans : (a b c : ℤ) → a ≤ℤ b → b ≤ℤ c → a ≤ℤ c
le_trans a b c h k = omega arith

some_resolution :
    (from to : Time) (max_range : Duration) (max : ℤ)
    → valid_calendar_year from ≡ true
    → valid_calendar_year to ≡ true
    → nanosecond from % 1000 ≡ 0
    → nanosecond to % 1000 ≡ 0
    → before from to ≡ true
    → too_large from to max_range ≡ false
    → max_range ≤ℤ greatest_range
    → pos 33 ≤ℤ max
    → (res : Resolution) × (select_auto_bucket_resolution from to max ≡ reply res)
unfolding valid_calendar_year
some_resolution (negsuc m) to d max y z a b o l g k = cc
some_resolution (pos m) (negsuc n) d max y z a b o l g k = cc
some_resolution (pos m) (pos n) d max y z a b o l g k =
    let in_m = in_years m y in
    let in_n = in_years n z in
    let near =
      le_trans (span (pos m) (pos n)) (microseconds d) (pos 2678400000000)
        (not_too_large (pos m) (pos n) d l) (range_micros d g) in
    select_auto_fits m n max (earlier m n o) in_n (whole m a) (whole n b)
      (close_enough m n (whole m a) (whole n b)
        (subst (λ s. s ≤ℤ pos 2678400000000) (exact_span m n in_m in_n) near))
      k

-- The bounds of a configuration that the rest relies on.
config_bounds :
    (c : Config)
    → validate_config c ≡ reply tt
    → (ltb_ℤ greatest_range c.max_range ≡ false) × (ltb_ℤ c.min_points (pos 100) ≡ false)
unfolding validate_config
config_bounds c h =
    let (h1, r1) = fail_if-eq-reply (leb_ℤ c.query_timeout (pos 0)) (foreign 11) _ h in
    let (h2, r2) = fail_if-eq-reply (ltb_ℤ max_timeout c.query_timeout) (foreign 12) _ r1 in
    let (h3, r3) = fail_if-eq-reply (leb_ℤ c.max_range (pos 0)) (foreign 13) _ r2 in
    let (h4, r4) = fail_if-eq-reply (ltb_ℤ greatest_range c.max_range) (foreign 14) _ r3 in
    let (h5, r5) = fail_if-eq-reply (leb_ℤ c.raw_window (pos 0)) (foreign 15) _ r4 in
    let (h6, r6) = fail_if-eq-reply (ltb_ℤ greatest_window c.raw_window) (foreign 16) _ r5 in
    let (h7, r7) = fail_if-eq-reply (ltb_ℤ c.max_range c.raw_window) (foreign 17) _ r6 in
    let (h8, r8) = fail_if-eq-reply (ltb_ℤ c.min_points (pos 100)) (foreign 18) _ r7 in (h4, h8)

both_years :
    (t : ZonedTime) (b : Bool) → (bad_year t || b) ≡ false → valid_calendar_year t.utc ≡ true
unfolding bad_year
both_years t b h = ground arith

years : (s t : ZonedTime) → (bad_year s || bad_year t) ≡ false → bad_year t ≡ false
years s t h = ground arith

one_year : (t : ZonedTime) → bad_year t ≡ false → valid_calendar_year t.utc ≡ true
unfolding bad_year
one_year t h = ground arith

rests :
    (a b : ℕ)
    → (not (a % 1000 == 0) || not (b % 1000 == 0)) ≡ false
    → (a % 1000 ≡ 0) × (b % 1000 ≡ 0)
rests a b h = (ground arith, ground arith)

was_true : (b : Bool) → not b ≡ false → b ≡ true
was_true b h = ground arith

enough : (a b : ℤ) → ltb_ℤ a (pos 100) ≡ false → a ≤ℤ b → pos 33 ≤ℤ b
enough a b h k = ground arith

-- Under a configuration that ValidateHistoryPreparationConfig accepts, for a query with a valid range and
-- at least the least number of points, SelectAutoBucketResolution finds a resolution: a query with the
-- resolution auto never fails because every resolution is too fine.
pub auto_finds_resolution :
    (c : Config) (q : Query)
    → validate_config c ≡ reply tt
    → ValidRange c q
    → c.min_points ≤ℤ q.max_points
    → (res : Resolution) × (select_auto_bucket_resolution q.range.from.utc q.range.to.utc
          q.max_points
        ≡ reply res)
unfolding validate_history_time_range
auto_finds_resolution c q h v k =
    let from = q.range.from.utc in
    let to = q.range.to.utc in
    let (greatest, least) = config_bounds c h in
    let (h1, r1) =
      fail_if-eq-reply (bad_year q.range.from || bad_year q.range.to) invalid_input _ v in
    let (h2, r2) =
      fail_if-eq-reply (not (nanosecond from % 1000 == 0) || not (nanosecond to % 1000 == 0))
        invalid_input _ r1 in
    let (h3, r3) = fail_if-eq-reply (not (before from to)) invalid_input _ r2 in
    let (h4, r4) = fail_if-eq-reply (too_large from to c.max_range) range_too_large _ r3 in
    let (from_whole, to_whole) = rests (nanosecond from) (nanosecond to) h2 in
    some_resolution from to c.max_range q.max_points (both_years q.range.from _ h1)
      (one_year q.range.to (years q.range.from q.range.to h1)) from_whole to_whole
      (was_true (before from to) h3) h4 (not_below greatest_range c.max_range greatest)
      (enough c.min_points q.max_points least k)
