-- ===== src/Query.antt =====
-- src/internal/httpserver/history_query_parser.go: the query strings of the history endpoints.
-- net/url, strconv, strings.TrimSpace and time.Parse are parameters; the texts of the messages are left
-- out.
pub mod Raw
pub mod Instant
pub mod Temporal
pub mod Passed
use project1_iot_server.Clock.{Time}
use project1_iot_server.Identifier.{valid_gateway_id, valid_sensor_id}
use project1_iot_server.History.{
  HistoryError, Reply, reply, failure, TimeRange, ZonedTime, Resolution, auto, raw, ms_100, s_1,
  s_10, m_1, m_5, m_15, h_1, h_6, d_1, other_resolution, valid_resolution,
  validate_history_time_range,
}
use project1_iot_server.History.Service.{Query}
use project1_iot_server.History.Mention.{
  mentions, is_range_too_large, is_raw_limit_exceeded, is_resolution_too_fine,
  is_invalid_resolution,
}
use project1_iot_server.Outcome.{fails, done, ◌>>◌, ◌>>=◌, fail_when, or_fail, from_option}
use project1_iot_server.ReadBounds.{HistoryConfig}
use project1_iot_server.Twin.{history, gateway, same_type, parse_entity_urn}
use project1_iot_server.Twin.Cursor.{find_key}
use project1_iot_server.Twin.Read.{
  TwinHistoryQuery, TwinStateQuery, HistorySelector, by_value, by_sample_interval_us,
}
use project1_iot_server.Query.Instant.{parse_rfc3339_micro}
use project1_iot_server.Prelude.{
  not, Option, none, some, [], ◌∷◌, if◌then◌else◌, ℤ, pos, Bytes, codes, is_empty, bytes_eq,
}
use project1_iot_server.Query.Raw.{
  Code, invalid_request, invalid_resolution, range_too_large, raw_limit_exceeded,
  resolution_too_fine, Parsed, QueryLib, bad_request, bad_entity, bad_property, bad_resolution,
  Params, parse_raw_query, required, points_of,
}

-- The conversion telemetry.Resolution(s).
unfoldable pub resolution_named : Bytes → Resolution
unfolding bytes_eq
resolution_named s =
    if bytes_eq s (codes "auto")
    then auto
    else if bytes_eq s (codes "raw")
    then raw
    else if bytes_eq s (codes "100ms")
    then ms_100
    else if bytes_eq s (codes "1s")
    then s_1
    else if bytes_eq s (codes "10s")
    then s_10
    else if bytes_eq s (codes "1m")
    then m_1
    else if bytes_eq s (codes "5m")
    then m_5
    else if bytes_eq s (codes "15m")
    then m_15
    else if bytes_eq s (codes "1h")
    then h_1
    else if bytes_eq s (codes "6h")
    then h_6
    else if bytes_eq s (codes "1d")
    then d_1
    else other_resolution s

unfoldable pub resolution_of : Option Bytes → Parsed Resolution
unfolding resolution_named valid_resolution
resolution_of none = done auto
resolution_of (some s) = do
  fail_when bad_resolution (not (valid_resolution (resolution_named s)))
  done (resolution_named s)

-- The code for an error of ValidateHistoryTimeRange.
unfoldable pub code_of : HistoryError → Code
unfolding mentions
code_of e =
    if mentions is_range_too_large e
    then range_too_large
    else if mentions is_raw_limit_exceeded e
    then raw_limit_exceeded
    else if mentions is_resolution_too_fine e
    then resolution_too_fine
    else if mentions is_invalid_resolution e
    then invalid_resolution
    else invalid_request

unfoldable pub checked_range : Reply (Unit {0}) → Parsed (Unit {0})
unfolding code_of
checked_range (reply v) = done v
checked_range (failure e) = fails (record { code = code_of e; cause = history e })

-- A range, a resolution and a number of points.
pub record Window : Type 0 where
  pub range : TimeRange
  pub resolution : Resolution
  pub max_points : ℤ

abbrev pub in_utc : Time → ZonedTime
in_utc t = record { utc = t; zone = pos 0 }

-- The end of the parsers, which hands on what ValidateHistoryTimeRange accepts.
unfoldable pub checked_window : HistoryConfig → Time → Time → Resolution → ℤ → Parsed Window
unfolding checked_range validate_history_time_range
checked_window c from to res points = do
  let range : TimeRange = record { from = in_utc from; to = in_utc to }
  checked_range (validate_history_time_range range res c.max_range c.raw_window points)
  done record { range = range; resolution = res; max_points = points }

-- parseCommonTimeAndResolution
unfoldable pub parse_common_time_and_resolution : QueryLib → HistoryConfig → Params → Parsed Window
unfolding required parse_rfc3339_micro resolution_of points_of checked_window
parse_common_time_and_resolution lib c params = do
  from_val ← required (find_key (codes "from") params)
  to_val ← required (find_key (codes "to") params)
  from ← from_option bad_request (parse_rfc3339_micro lib.parse_time from_val)
  to ← from_option bad_request (parse_rfc3339_micro lib.parse_time to_val)
  res ← resolution_of (find_key (codes "resolution") params)
  points ← points_of lib c (find_key (codes "max_points") params)
  checked_window c from to res points

-- ParseTelemetryHistoryQuery
unfoldable pub parse_telemetry_history_query : QueryLib → HistoryConfig → Bytes → Parsed Query
unfolding parse_raw_query required parse_common_time_and_resolution
parse_telemetry_history_query lib c raw_query = do
  params ← parse_raw_query lib raw_query (
      codes "gateway_id"
      ∷ codes "sensor_id"
      ∷ codes "from"
      ∷ codes "to"
      ∷ codes "resolution"
      ∷ codes "max_points"
      ∷ [])
  gateway_id ← required (find_key (codes "gateway_id") params)
  fail_when bad_request (not (valid_gateway_id gateway_id))
  sensor_id ← required (find_key (codes "sensor_id") params)
  fail_when bad_request (not (valid_sensor_id sensor_id))
  w ← parse_common_time_and_resolution lib c params
  done record {
    gateway_id = gateway_id;
    sensor_id = sensor_id;
    range = w.range;
    resolution = w.resolution;
    max_points = w.max_points;
  }

-- The selectors of a Sensor.
unfoldable pub selector_of : Bytes → Option HistorySelector
unfolding bytes_eq
selector_of s =
    if bytes_eq s (codes "value")
    then some by_value
    else if bytes_eq s (codes "sample_interval_us")
    then some by_sample_interval_us
    else none

unfoldable pub twin_query : Bytes → HistorySelector → Window → TwinHistoryQuery
twin_query entity property w = record {
  entity_id = entity;
  property = property;
  range = w.range;
  resolution = w.resolution;
  max_points = w.max_points;
  effective_raw_window = pos 0;
}

-- ParseTwinHistoryQuery
unfoldable pub parse_twin_history_query :
    QueryLib → HistoryConfig → Bytes → Bytes → Parsed TwinHistoryQuery
unfolding parse_entity_urn parse_raw_query required selector_of parse_common_time_and_resolution
    twin_query same_type
parse_twin_history_query lib c raw_query entity = do
  p ← or_fail bad_entity (parse_entity_urn entity)
  params ←
      parse_raw_query lib raw_query (
        codes "property" ∷ codes "from" ∷ codes "to" ∷ codes "resolution" ∷ codes "max_points" ∷ [])
  property ← required (find_key (codes "property") params)
  fail_when bad_property (same_type p.kind gateway)
  selector ← from_option bad_property (selector_of property)
  w ← parse_common_time_and_resolution lib c params
  done (twin_query entity selector w)

-- ParseTwinStateQuery
unfoldable pub parse_twin_state_query : Bytes → Bytes → Parsed TwinStateQuery
unfolding parse_entity_urn
parse_twin_state_query raw_query entity = do
  fail_when bad_request (not (is_empty raw_query))
  p ← or_fail bad_entity (parse_entity_urn entity)
  done record { entity_id = entity }
