-- ===== src/Tests/Query.antt =====
-- Concrete query strings of the history endpoints.
use project1_iot_server.Clock.{Time}
use project1_iot_server.Uuid.{Uuid, uuid_nil}
use project1_iot_server.Identifier.{valid_gateway_id, valid_sensor_id}
use project1_iot_server.History.{
  Reply, reply, failure, fail_if, TimeRange, ZonedTime, auto, raw, s_1, HistoryError,
}
use project1_iot_server.History
use project1_iot_server.History.Service
use project1_iot_server.History.Service.{ResolvedSensor}
use project1_iot_server.Outcome
use project1_iot_server.Outcome.{Outcome, fails, done}
use project1_iot_server.ReadBounds.{
  ConfigLib, default_history_config, default_twin_config, load_history, load_twin,
  to_telemetry_preparation_config, to_read_preparation_config,
}
use project1_iot_server.ReadBounds.Loaded.{loaded_configs_pass}
use project1_iot_server.Twin.{ParsedIdentity, sensor, parse_entity_urn}
use project1_iot_server.Twin.Read
use project1_iot_server.Twin.Read.{TwinHistoryQuery, ResolvedEntity, by_value}
use project1_iot_server.Twin.Read.Prepared.{Ended, prepare_history, resolve_entity}
use project1_iot_server.Query.{parse_telemetry_history_query, in_utc}
use project1_iot_server.Query.Raw.{QueryLib, bad_request}
use project1_iot_server.Query.Passed.{parsed_query_prepares}
use project1_iot_server.Query.Temporal.{
  TemporalPresentationOptions, measurement, aggregated_values, parse_temporal_history_query,
}
use project1_iot_server.Query.Temporal.Methods.{Presents}
use project1_iot_server.Query.Temporal.Prepared.{temporal_query_prepares}
use project1_iot_server.Prelude.{
  ℕ, ◌+◌, ◌-◌, ◌*◌, ◌≡◌, refl, false, none, some, List, [], ◌∷◌, map, if◌then◌else◌, replicate, pos,
  ◌≤ℤ◌, Bytes, codes, bytes_eq, split_on,
}

-- An empty environment, whose settings are the defaults.
abbrev empty_environment : ConfigLib
empty_environment = record {
  lookup = λ key. none;
  trim_space = λ s. s;
  parse_duration = λ s. none;
  atoi = λ s. none;
}

history_loaded : load_history empty_environment ≡ done default_history_config
unfolding load_history
history_loaded = refl

twin_loaded : load_twin empty_environment ≡ done default_twin_config
unfolding load_twin
twin_loaded = refl

-- A setting that is out of bounds.
abbrev wide_range : ConfigLib
wide_range = record empty_environment {
  lookup = λ key. if bytes_eq key (codes "HISTORY_MAX_RANGE") then some (codes "745h") else none;
  parse_duration = λ s. some (pos 2682000000000000);
}

wide_range_run : load_history wide_range ≡ fails 4
unfolding load_history bytes_eq
wide_range_run = refl

loaded_configs_pass_example :
    (History.Service.validate_config (to_telemetry_preparation_config default_history_config)
      ≡ reply tt)
    × (Read.validate_read_preparation_config
          (to_read_preparation_config default_twin_config default_history_config)
        ≡ done tt)
    × (pos 100 ≤ℤ pos 1000)
    × (pos 1000 ≤ℤ pos 2000)
    × (pos 1 ≤ℤ pos 50)
    × (pos 50 ≤ℤ pos 200)
    × (pos 1 ≤ℤ pos 50)
    × (pos 50 ≤ℤ pos 200)
loaded_configs_pass_example =
    loaded_configs_pass empty_environment default_history_config default_twin_config history_loaded
      twin_loaded

-- Query strings without escapes, decimal numbers, and two instants.
abbrev pair_of : List Bytes → Bytes × List Bytes
pair_of [] = ([], [])
pair_of (key ∷ values) = (key, values)

abbrev decimal_from : ℕ → Bytes → ℕ
decimal_from n [] = n
decimal_from n (c ∷ s) = decimal_from (n * 10 + (c - b'0')) s

abbrev start : Time
start = pos 63907920000000000000

abbrev five_later : Time
five_later = pos 63907920005000000000

abbrev query_lib : QueryLib
query_lib = record {
  parse_query = λ s. some (map (λ part. pair_of (split_on b'=' part)) (split_on b'&' s));
  atoi = λ s. some (pos (decimal_from 0 s));
  trim_space = λ s. s;
  parse_time = λ s.
      if bytes_eq s (codes "2026-03-01T00:00:00Z")
      then some start
      else if bytes_eq s (codes "2026-03-01T00:00:05.000Z")
      then some five_later
      else none;
}

abbrev raw_query : Bytes
raw_query =
    codes
      "gateway_id=gw-1&sensor_id=s_1&from=2026-03-01T00:00:00Z&to=2026-03-01T00:00:05.000z&max_points=500"

abbrev telemetry_query : History.Service.Query
telemetry_query = record {
  gateway_id = codes "gw-1";
  sensor_id = codes "s_1";
  range = record { from = in_utc start; to = in_utc five_later };
  resolution = auto;
  max_points = pos 500;
}

query_parsed :
    parse_telemetry_history_query query_lib default_history_config raw_query ≡ done telemetry_query
unfolding parse_telemetry_history_query bytes_eq split_on valid_gateway_id valid_sensor_id
query_parsed = refl

-- A repeated parameter, and a fraction of seven digits.
refused_run :
    (parse_telemetry_history_query query_lib default_history_config (codes "gateway_id=gw-1=gw-2")
      ≡ fails bad_request)
    × (parse_telemetry_history_query query_lib default_history_config (
          codes
            "gateway_id=gw-1&sensor_id=s_1&from=2026-03-01T00:00:00.1234567Z&to=2026-03-01T00:00:05.000Z")
        ≡ fails bad_request)
unfolding parse_telemetry_history_query bytes_eq split_on valid_gateway_id valid_sensor_id
refused_run = (refl, refl)

abbrev actor : Uuid
actor = replicate 16 1

abbrev sensor_row : ResolvedSensor
sensor_row = record { gateway_id = codes "gw-1"; sensor_id = codes "s_1"; unit = none }

abbrev in_time : History.Service.Ended
in_time = record {
  before_resolver = false;
  on_resolver_error = false;
  after_resolver = false;
  before_query = false;
  after_probe = false;
  after_query = false;
  after_callback = false;
}

actor_known : bytes_eq actor uuid_nil ≡ false
unfolding bytes_eq
actor_known = refl

parsed_query_prepares_example :
    History.Service.prepare
      (to_telemetry_preparation_config default_history_config)
      (λ a g s. reply (some sensor_row))
      in_time
      actor
      telemetry_query
    ≡ History.◌>>◌
        (fail_if in_time.before_resolver History.Service.ended_error)
        (History.Service.after_resolver in_time (reply (some sensor_row)))
parsed_query_prepares_example =
    parsed_query_prepares empty_environment default_history_config query_lib raw_query
      telemetry_query (λ a g s. reply (some sensor_row)) in_time actor history_loaded query_parsed
      actor_known

abbrev entity : Bytes
entity = codes "urn:ngsi-ld:Sensor:gw-1:s_1"

abbrev temporal_query : TwinHistoryQuery
temporal_query = record {
  entity_id = entity;
  property = by_value;
  range = record { from = in_utc start; to = in_utc five_later };
  resolution = s_1;
  max_points = pos 1000;
  effective_raw_window = pos 0;
}

abbrev options : TemporalPresentationOptions
options = record {
  format = aggregated_values;
  aggr_methods = codes "max" ∷ codes "avg" ∷ [];
  public_attr = measurement;
}

abbrev raw_temporal : Bytes
raw_temporal =
    codes
      "attrs=value&timerel=between&timeAt=2026-03-01T00:00:00Z&endTimeAt=2026-03-01T00:00:05.000Z&aggrPeriodDuration=PT1S&aggrMethods=max,avg"

temporal_parsed :
    parse_temporal_history_query query_lib default_history_config raw_temporal entity
    ≡ done (temporal_query, options)
unfolding parse_temporal_history_query bytes_eq split_on valid_gateway_id valid_sensor_id
temporal_parsed = refl

abbrev entity_row : ResolvedEntity
entity_row = record {
  internal_id = replicate 16 2;
  public_urn = entity;
  entity_kind = sensor;
  gateway_id = codes "gw-1";
  sensor_id = codes "s_1";
}

abbrev in_budget : Ended
in_budget = record {
  at_start = false;
  on_resolver_error = false;
  after_resolver = false;
  before_engine = false;
  after_engine = false;
  after_callback = false;
}

temporal_query_prepares_example :
    (p : ParsedIdentity) × (parse_entity_urn entity ≡ done p)
    × (p.kind ≡ sensor)
    × Presents s_1 aggregated_values (codes "max" ∷ codes "avg" ∷ [])
    × (prepare_history
          (to_read_preparation_config default_twin_config default_history_config)
          (λ a q. done (some entity_row))
          in_budget
          actor
          temporal_query
        ≡ Outcome.◌>>=◌ (resolve_entity (λ a q. done (some entity_row)) in_budget actor p) (λ found.
          done (found, record temporal_query { effective_raw_window = pos 10000000000 })))
temporal_query_prepares_example =
    temporal_query_prepares empty_environment default_history_config default_twin_config query_lib
      raw_temporal entity temporal_query options (λ a q. done (some entity_row)) in_budget actor
      history_loaded temporal_parsed actor_known
