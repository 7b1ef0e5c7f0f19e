-- ===== src/Twin.antt =====
-- src/internal/digitaltwin: errors.go, identity.go and protocol.go, the errors of the package, the URNs
-- of Gateways and Sensors, and the caps on texts.
pub mod Cursor
pub mod Plain
pub mod Documented
pub mod Relationship
pub mod Read
pub mod Filters
pub mod RoundTrip
pub mod Linked
use project1_iot_server.Identifier.{valid_gateway_id, valid_sensor_id}
use project1_iot_server.History.{HistoryError}
use project1_iot_server.Outcome.{Outcome, fails, done, ◌>>◌, fail_when}
use project1_iot_server.Prelude.{
  ℕ, ◌-◌, Bool, true, false, not, ◌||◌, Option, none, some, List, [], ◌∷◌, ltb, ◌==◌, if◌then◌else◌,
  length, any, Bytes, codes, is_empty, bytes_eq, split_on,
}

pub data TwinError : Type 0 where
  nil_actor not_found invalid_input invalid_cursor invalid_property : TwinError
  dependency_unavailable unexpected : TwinError
  -- an error of the telemetry package, of a context that has ended, of another package, and fmt.Errorf
  -- with two %w verbs
  history : HistoryError → TwinError
  context_ended : TwinError
  foreign : ℕ → TwinError
  wrapped : TwinError → TwinError → TwinError

-- A Go string of type EntityType, which may hold any text.
pub data EntityType : Type 0 where
  gateway sensor : EntityType
  other_type : Bytes → EntityType

-- EntityType.Valid
abbrev pub valid_type : EntityType → Bool
valid_type (other_type s) = false
valid_type gateway = true
valid_type sensor = true

-- The conversions string(t) and EntityType(s).
abbrev pub type_name : EntityType → Bytes
type_name gateway = codes "Gateway"
type_name sensor = codes "Sensor"
type_name (other_type s) = s

unfoldable pub entity_type_of : Bytes → EntityType
unfolding bytes_eq
entity_type_of s =
    if bytes_eq s (codes "Gateway")
    then gateway
    else if bytes_eq s (codes "Sensor")
    then sensor
    else other_type s

unfoldable pub same_type : EntityType → EntityType → Bool
same_type t u = bytes_eq (type_name t) (type_name u)

-- ParsedIdentity
pub record ParsedIdentity : Type 0 where
  pub kind : EntityType
  pub gateway_id : Bytes
  pub sensor_id : Bytes
  pub urn : Bytes

abbrev pub gateway_urn_prefix : Bytes
gateway_urn_prefix = codes "urn:ngsi-ld:Gateway:"

abbrev pub sensor_urn_prefix : Bytes
sensor_urn_prefix = codes "urn:ngsi-ld:Sensor:"

abbrev pub max_decoded_urn_length : ℕ
max_decoded_urn_length = 160

-- strings.HasPrefix with strings.TrimPrefix: what follows the prefix.
unfoldable pub strip_prefix : Bytes → Bytes → Option Bytes
strip_prefix [] s = some s
strip_prefix (p ∷ ps) [] = none
strip_prefix (p ∷ ps) (c ∷ s) = let rest = strip_prefix ps s in if p == c then rest else none

unfoldable pub gateway_identity : Bytes → Bytes → Outcome TwinError ParsedIdentity
gateway_identity raw remainder = do
  fail_when invalid_input (is_empty remainder || any (λ c. c == b':') remainder)
  fail_when invalid_input (not (valid_gateway_id remainder))
  done record { kind = gateway; gateway_id = remainder; sensor_id = []; urn = raw }

unfoldable pub sensor_identity : Bytes → List Bytes → Outcome TwinError ParsedIdentity
sensor_identity raw (g ∷ s ∷ []) = do
  fail_when invalid_input (is_empty g || is_empty s)
  fail_when invalid_input (not (valid_gateway_id g))
  fail_when invalid_input (not (valid_sensor_id s))
  done record { kind = sensor; gateway_id = g; sensor_id = s; urn = raw }
sensor_identity raw _ = fails invalid_input

-- By what follows the prefix of a Gateway and of a Sensor.
unfoldable pub identity_of : Bytes → Option Bytes → Option Bytes → Outcome TwinError ParsedIdentity
unfolding gateway_identity sensor_identity split_on
identity_of raw (some remainder) s = gateway_identity raw remainder
identity_of raw none (some remainder) = sensor_identity raw (split_on b':' remainder)
identity_of raw none none = fails invalid_input

-- ParseEntityURN
unfoldable pub parse_entity_urn : Bytes → Outcome TwinError ParsedIdentity
unfolding strip_prefix identity_of
parse_entity_urn raw =
    if is_empty raw || ltb max_decoded_urn_length (length raw)
    then fails invalid_input
    else identity_of raw (strip_prefix gateway_urn_prefix raw) (strip_prefix sensor_urn_prefix raw)
