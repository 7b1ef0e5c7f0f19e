-- ===== src/Tests/History.antt =====
-- Concrete history queries.
use project1_iot_server.Uuid.{Uuid}
use project1_iot_server.Identifier.{valid_gateway_id, valid_sensor_id}
use project1_iot_server.Clock.{nanosecond, unix}
use project1_iot_server.History.{
  s_1, raw_limit_exceeded, Reply, failure, reply, Resolution, auto, ZonedTime, quot, rem, to_micros,
  floor_div, count_micros, resolution_duration, intersecting_bucket_count,
  validate_history_time_range,
}
use project1_iot_server.History.Floor.{FloorOf, floor_div-FloorOf}
use project1_iot_server.History.Micros.{exact_micros}
use project1_iot_server.History.Counts.{Meets}
use project1_iot_server.History.Counts.Exact.{first_bucket, bucket_count}
use project1_iot_server.History.Select.{pick, first_fitting, select_auto_bucket_resolution}
use project1_iot_server.History.Select.Smallest.{FitsIn, TooFine, select_auto-finest}
use project1_iot_server.History.Service.{
  Config, Query, ResolvedSensor, Ended, validate_config, get_telemetry_history,
}
use project1_iot_server.History.Service.Admissible.Answered.{Asked, get_telemetry_history-Asked}
use project1_iot_server.History.Service.Configured.{auto_finds_resolution}
use project1_iot_server.Prelude.{
  ℕ, zero, suc, ◌≡◌, refl, ◌↔◌, false, Option, none, some, arith, length, replicate, All, ℤ, pos,
  negsuc, ◌≤ℤ◌, ◌<ℤ◌, ◌+ℤ◌, ◌-ℤ◌, ◌*ℤ◌, wrap64, add64, sub64, mul64, Bytes, codes, bytes_eq,
}

-- 1970, and a quarter of a second later.
abbrev epoch : ℕ
epoch = 62135596800000000000

abbrev later : ℕ
later = 62135596800250000000

floor_div-FloorOf_example : FloorOf (negsuc 6) 3 (floor_div (negsuc 6) (pos 3))
floor_div-FloorOf_example = floor_div-FloorOf (negsuc 6) 3 (omega arith, omega arith) (omega arith)

bucket_count_example :
    (count : ℕ) × (intersecting_bucket_count (pos epoch) (pos later) (pos 100000000)
      ≡ reply (pos count))
    × (Meets 100000 (exact_micros epoch) (exact_micros later) (pos 2) ↔ (
        (first_bucket epoch 100000 ≤ℤ pos 2) × (pos 2 <ℤ first_bucket epoch 100000 +ℤ pos count)))
bucket_count_example =
    bucket_count epoch later 100000000 (pos 2) (omega arith) (omega arith) refl refl (omega arith)

selected : select_auto_bucket_resolution (pos epoch) (pos later) (pos 2) ≡ reply s_1
unfolding select_auto_bucket_resolution first_fitting pick resolution_duration
    intersecting_bucket_count count_micros floor_div quot rem to_micros unix nanosecond add64 sub64
    mul64 wrap64 ◌+ℤ◌ ◌-ℤ◌ ◌*ℤ◌
selected = refl

select_auto-finest_example :
    FitsIn (pos epoch) (pos later) (pos 2) s_1
    × ((other : Resolution) (v w : ℤ)
        → resolution_duration other ≡ some v
        → resolution_duration s_1 ≡ some w
        → v <ℤ w
        → TooFine (pos epoch) (pos later) (pos 2) other)
select_auto-finest_example = select_auto-finest (pos epoch) (pos later) (pos 2) s_1 selected

abbrev default_config : Config
default_config = record {
  query_timeout = pos 5000000000;
  max_range = pos 2678400000000000;
  raw_window = pos 10000000000;
  min_points = pos 100;
  max_points = pos 2000;
}

abbrev utc_time : ℕ → ZonedTime
utc_time n = record { utc = pos n; zone = pos 0 }

abbrev query : Query
query = record {
  gateway_id = codes "gw-1";
  sensor_id = codes "s-1";
  range = record { from = utc_time epoch; to = utc_time later };
  resolution = auto;
  max_points = pos 100;
}

abbrev in_time : Ended
in_time = record {
  before_resolver = false;
  on_resolver_error = false;
  after_resolver = false;
  before_query = false;
  after_probe = false;
  after_query = false;
  after_callback = false;
}

abbrev caller : Uuid
caller = replicate 16 1

-- A reader that has too many raw samples, and a resolver that knows each Sensor.
abbrev reader : ℕ → Query → Reply (Option ℕ)
reader zero q = failure raw_limit_exceeded
reader (suc i) q = reply (some i)

abbrev resolver : Uuid → Bytes → Bytes → Reply (Option ResolvedSensor)
resolver actor g s = reply (some (record { gateway_id = g; sensor_id = s; unit = none }))

two_calls : length (get_telemetry_history reader default_config resolver in_time caller query).0 ≡ 2
unfolding get_telemetry_history bytes_eq valid_gateway_id valid_sensor_id
two_calls = refl

get_telemetry_history-Asked_example :
    All
      (Asked default_config resolver caller query)
      (get_telemetry_history reader default_config resolver in_time caller query).0
get_telemetry_history-Asked_example =
    get_telemetry_history-Asked reader default_config resolver in_time caller query

auto_finds_resolution_example :
    (res : Resolution) × (select_auto_bucket_resolution (pos epoch) (pos later) (pos 100)
      ≡ reply res)
unfolding validate_config validate_history_time_range
auto_finds_resolution_example = auto_finds_resolution default_config query refl refl (omega arith)
