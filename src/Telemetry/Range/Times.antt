-- ===== src/Telemetry/Range/Times.antt =====
-- The times that validateRange returns.
use mathlib.Core.Path.{subst₂}
use project1_iot_server.Clock.{Time, Duration, valid_calendar_year}
use project1_iot_server.Telemetry.Errors.{ok, >>=-eq-ok}
use project1_iot_server.Telemetry.Model.{BatchDto, Limits}
use project1_iot_server.Telemetry.Timestamp.{parse_measured_at}
use project1_iot_server.Telemetry.Range.{
  check_times, ValidatedRange, check_sequence, check_future, validate_range,
}
use project1_iot_server.Telemetry.Range.Bounds.{Exact, check_sequence-Exact}
use project1_iot_server.Prelude.{
  ◌≡◌, sym, true, Option, none, some, arith, ℤ, pos, negsuc, ◌≤ℤ◌, IsInt64, ◌+ℤ◌,
}

-- The range of a batch that is accepted at a time of receipt.
pub record Checked (b : BatchDto) (l : Limits) (received_at : Time) (r : ValidatedRange)
    : Type 0 where
  pub span : Duration
  pub exact :
      Exact b.sample_count b.first_sequence b.sample_interval_us l.max_batch_duration
        r.last_sequence r.interval span
  pub first_eq : parse_measured_at b.measured_at ≡ some r.first_measured_at
  pub last_eq : r.last_measured_at ≡ r.first_measured_at +ℤ span
  pub last_year : valid_calendar_year r.last_measured_at ≡ true
  pub not_future : r.last_measured_at ≤ℤ received_at +ℤ l.max_future_skew

-- The checks after those on the sequence.
check_future-le :
    (threshold last : Time)
    → valid_calendar_year last ≡ true
    → check_future threshold last ≡ ok tt
    → last ≤ℤ threshold
unfolding check_future valid_calendar_year
check_future-le threshold (pos n) y h = ground arith
check_future-le threshold (negsuc n) y h = cc

check_times_parts :
    (q i s : ℤ) (o : Option Time) (l : Limits) (received_at : Time) (r : ValidatedRange)
    → check_times (q, i, s) o l received_at ≡ ok r
    → (o ≡ some r.first_measured_at)
      × (r.last_sequence ≡ q)
      × (r.interval ≡ i)
      × (r.last_measured_at ≡ r.first_measured_at +ℤ s)
      × (valid_calendar_year r.last_measured_at ≡ true)
      × (check_future (received_at +ℤ l.max_future_skew) r.last_measured_at ≡ ok tt)
unfolding check_times
check_times_parts q i s none l received_at r h = cc
check_times_parts q i s (some first) l received_at r h = ground arith

-- Every range that validateRange returns, for a sample count and a first sequence number of 64 bits,
-- is exact: no operation wrapped, the last sequence number is the first plus the count less one and
-- fits an int64, the span is that many intervals and within the limit, the first time is the one that
-- measured_at states, the last time is the span later, of a year up to 9999, and at most the allowed
-- skew after the receipt.
pub validate_range-Checked :
    (b : BatchDto) (l : Limits) (received_at : Time) (r : ValidatedRange)
    → IsInt64 b.sample_count
    → IsInt64 b.first_sequence
    → validate_range b l received_at ≡ ok r
    → Checked b l received_at r
unfolding validate_range
validate_range-Checked b l received_at r hc hf h =
    let ((q, i, s), hs, ht) =
      >>=-eq-ok
        (check_sequence b.sample_count b.first_sequence b.sample_interval_us l.max_batch_duration)
        (λ c. check_times c (parse_measured_at b.measured_at) l received_at) h in
    let p = check_times_parts q i s (parse_measured_at b.measured_at) l received_at r ht in
    let e =
      check_sequence-Exact b.sample_count b.first_sequence b.sample_interval_us l.max_batch_duration
        q i s hc hf hs in
    record {
      span = s;
      exact =
          subst₂
            (λ x y.
              Exact b.sample_count b.first_sequence b.sample_interval_us l.max_batch_duration x y s)
            (sym p.1) (sym p.2) e;
      first_eq = p.0;
      last_eq = p.3;
      last_year = p.4;
      not_future = check_future-le (received_at +ℤ l.max_future_skew) r.last_measured_at p.4 p.5;
    }
