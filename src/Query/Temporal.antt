-- ===== src/Query/Temporal.antt =====
-- ParseTemporalHistoryQuery of src/internal/httpserver/history_query_parser.go.
pub mod Methods
pub mod Prepared
use project1_iot_server.Clock.{Time, before}
use project1_iot_server.History.{Resolution, raw, ms_100, s_1, s_10, m_1, m_5, m_15, h_1, h_6, d_1}
use project1_iot_server.Json.{mem}
use project1_iot_server.Outcome.{done, ◌>>◌, ◌>>=◌, fail_when, or_fail, from_option}
use project1_iot_server.ReadBounds.{HistoryConfig}
use project1_iot_server.Twin.{gateway, same_type, parse_entity_urn}
use project1_iot_server.Twin.Cursor.{find_key}
use project1_iot_server.Twin.Cursor.Payload.{has_byte}
use project1_iot_server.Twin.Read.{
  TwinHistoryQuery, HistorySelector, by_value, by_sample_interval_us,
}
use project1_iot_server.Query.{Window, checked_window, twin_query}
use project1_iot_server.Query.Raw.{
  Params, QueryLib, Parsed, bad_request, bad_entity, bad_property, bad_resolution, parse_raw_query,
  required, points_of,
}
use project1_iot_server.Query.Instant.{parse_rfc3339_micro_utcz}
use project1_iot_server.Prelude.{
  Bool, true, false, not, ◌||◌, Option, none, some, List, [], ◌∷◌, if◌then◌else◌, Bytes, codes,
  is_empty, bytes_eq, split_on,
}

-- The strings of TemporalPresentationOptions.
pub data Format : Type 0 where
  temporal_values aggregated_values : Format

pub data PublicAttr : Type 0 where
  measurement sample_interval_us : PublicAttr

pub record TemporalPresentationOptions : Type 0 where
  pub format : Format
  pub aggr_methods : List Bytes
  pub public_attr : PublicAttr

abbrev pub allowed_keys : List Bytes
allowed_keys =
    codes "attrs"
    ∷ codes "timerel"
    ∷ codes "timeAt"
    ∷ codes "endTimeAt"
    ∷ codes "timeproperty"
    ∷ codes "aggrPeriodDuration"
    ∷ codes "aggrMethods"
    ∷ codes "format"
    ∷ codes "max_points"
    ∷ []

-- The switch on attrs.
unfoldable pub attr_of : Bytes → Option (HistorySelector × PublicAttr)
unfolding bytes_eq
attr_of s =
    if bytes_eq s (codes "measurement") || bytes_eq s (codes "value")
    then some (by_value, measurement)
    else if bytes_eq s (codes "sample_interval_us")
    then some (by_sample_interval_us, sample_interval_us)
    else none

-- timeproperty, where it is set.
abbrev pub other_property : Option Bytes → Bool
other_property none = false
other_property (some s) = not (bytes_eq s (codes "observedAt"))

-- CanonicalDurationsToResolution
unfoldable pub canonical_resolution : Bytes → Option Resolution
unfolding bytes_eq
canonical_resolution s =
    if bytes_eq s (codes "PT0.1S")
    then some ms_100
    else if bytes_eq s (codes "PT1S")
    then some s_1
    else if bytes_eq s (codes "PT10S")
    then some s_10
    else if bytes_eq s (codes "PT1M")
    then some m_1
    else if bytes_eq s (codes "PT5M")
    then some m_5
    else if bytes_eq s (codes "PT15M")
    then some m_15
    else if bytes_eq s (codes "PT1H")
    then some h_1
    else if bytes_eq s (codes "PT6H")
    then some h_6
    else if bytes_eq s (codes "P1D")
    then some d_1
    else none

-- A parameter that is set and not empty.
abbrev pub set_value : Option Bytes → Option Bytes
set_value none = none
set_value (some s) = if is_empty s then none else some s

-- The resolution, and whether it has buckets.
unfoldable pub period_of : Option Bytes → Parsed (Resolution × Bool)
unfolding canonical_resolution
period_of none = done (raw, false)
period_of (some s) = do res ← from_option bad_resolution (canonical_resolution s); done (res, true)

abbrev pub all_methods : List Bytes
all_methods = codes "avg" ∷ codes "min" ∷ codes "max" ∷ codes "totalCount" ∷ []

-- The loop over the tokens of aggrMethods, with the ones that it has seen.
unfoldable pub read_methods : (Bytes → Bytes) → List Bytes → List Bytes → Parsed (List Bytes)
read_methods trim seen [] = done []
read_methods trim seen (token ∷ tokens) = do
  let t = trim token
  fail_when bad_request (is_empty t || mem t seen || not (mem t all_methods))
  more ← read_methods trim (t ∷ seen) tokens
  done (t ∷ more)

-- aggrMethods of a query without and with buckets.
abbrev pub is_set {ℓ} : {A : Type ℓ} → Option A → Bool
is_set none = false
is_set (some a) = true

abbrev pub bucket_methods : (Bytes → Bytes) → Option Bytes → Parsed (List Bytes)
bucket_methods trim none = done all_methods
bucket_methods trim (some s) = read_methods trim [] (split_on b',' s)

unfoldable pub methods_of : (Bytes → Bytes) → Bool → Option Bytes → Parsed (List Bytes)
unfolding read_methods split_on
methods_of trim false s = do fail_when bad_request (is_set s); done []
methods_of trim true s = bucket_methods trim (set_value s)

abbrev pub format_for : Bool → Format
format_for true = aggregated_values
format_for false = temporal_values

unfoldable pub format_named : Bytes → Option Format
unfolding bytes_eq
format_named s =
    if bytes_eq s (codes "temporalValues")
    then some temporal_values
    else if bytes_eq s (codes "aggregatedValues")
    then some aggregated_values
    else none

abbrev pub fits_format : Bool → Format → Bool
fits_format true aggregated_values = true
fits_format false temporal_values = true
fits_format true temporal_values = false
fits_format false aggregated_values = false

unfoldable pub format_of : Bool → Option Bytes → Parsed Format
unfolding format_named
format_of is_bucket none = done (format_for is_bucket)
format_of is_bucket (some s) = do
  f ← from_option bad_request (format_named s)
  fail_when bad_request (not (fits_format is_bucket f))
  done f

-- The parts of ParseTemporalHistoryQuery: attrs,
unfoldable pub temporal_attr : Params → Parsed (HistorySelector × PublicAttr)
unfolding required attr_of has_byte
temporal_attr params = do
  attrs ← required (find_key (codes "attrs") params)
  fail_when bad_request (has_byte b',' attrs)
  from_option bad_property (attr_of attrs)

-- timerel, timeAt, endTimeAt and timeproperty,
unfoldable pub temporal_range : QueryLib → Params → Parsed (Time × Time)
unfolding required parse_rfc3339_micro_utcz bytes_eq
temporal_range lib params = do
  timerel ← required (find_key (codes "timerel") params)
  fail_when bad_request (not (bytes_eq timerel (codes "between")))
  time_at ← required (find_key (codes "timeAt") params)
  from ← from_option bad_request (parse_rfc3339_micro_utcz lib.parse_time time_at)
  end_time_at ← required (find_key (codes "endTimeAt") params)
  to ← from_option bad_request (parse_rfc3339_micro_utcz lib.parse_time end_time_at)
  fail_when bad_request (not (before from to))
  fail_when bad_request (other_property (find_key (codes "timeproperty") params))
  done (from, to)

-- and aggrPeriodDuration, aggrMethods and format.
pub record Shape : Type 0 where
  pub resolution : Resolution
  pub shape_format : Format
  pub methods : List Bytes

unfoldable pub temporal_shape : QueryLib → Params → Parsed Shape
unfolding period_of methods_of format_of
temporal_shape lib params = do
  period ← period_of (set_value (find_key (codes "aggrPeriodDuration") params))
  methods ← methods_of lib.trim_space period.1 (find_key (codes "aggrMethods") params)
  format ← format_of period.1 (set_value (find_key (codes "format") params))
  done record { resolution = period.0; shape_format = format; methods = methods }

unfoldable pub temporal_answer :
    Bytes
    → HistorySelector × PublicAttr
    → Shape
    → Window
    → TwinHistoryQuery × TemporalPresentationOptions
unfolding twin_query
temporal_answer entity chosen shape w = (
  twin_query entity chosen.0 w,
  record { format = shape.shape_format; aggr_methods = shape.methods; public_attr = chosen.1 },
)

-- ParseTemporalHistoryQuery
unfoldable pub parse_temporal_history_query :
    QueryLib
    → HistoryConfig
    → Bytes
    → Bytes
    → Parsed (TwinHistoryQuery × TemporalPresentationOptions)
unfolding parse_entity_urn parse_raw_query temporal_attr temporal_range temporal_shape points_of
    checked_window temporal_answer same_type
parse_temporal_history_query lib c raw_query entity = do
  p ← or_fail bad_entity (parse_entity_urn entity)
  fail_when bad_property (same_type p.kind gateway)
  params ← parse_raw_query lib raw_query allowed_keys
  chosen ← temporal_attr params
  range ← temporal_range lib params
  shape ← temporal_shape lib params
  points ← points_of lib c (find_key (codes "max_points") params)
  w ← checked_window c range.0 range.1 shape.resolution points
  done (temporal_answer entity chosen shape w)
