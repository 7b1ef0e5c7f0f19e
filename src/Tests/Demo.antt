-- ===== src/Tests/Demo.antt =====
-- A platform, a batch and tables that the runs share. The decoder knows one payload.
use project1_iot_server.Clock.{Time}
use project1_iot_server.Uuid.{Uuid, UuidLib}
use project1_iot_server.Json.{Event, open_brace, open_bracket, close, key, value, failure, JsonLib}
use project1_iot_server.Telemetry.Model.{Limits}
use project1_iot_server.Telemetry.Message.{Platform}
use project1_iot_server.Store.{Db}
use project1_iot_server.Prelude.{
  true, Option, none, some, List, [], ◌∷◌, ◌++◌, ◌==◌, if◌then◌else◌, length, pos, Bytes, codes,
  bytes_eq,
}

abbrev pub topic : Bytes
topic = codes "gateways/gw-1/telemetry/s-1"

abbrev pub message_id : Bytes
message_id = codes "message-identity"

abbrev pub boot_id : Bytes
boot_id = codes "boot-identity-ok"

-- A short name for a payload, and one for its array of samples.
abbrev pub payload : Bytes
payload = codes "batch"

abbrev quoted : Bytes → Bytes
quoted s = codes "'" ++ s ++ codes "'"

abbrev unquote_from : Bytes → Bytes
unquote_from [] = []
unquote_from (c ∷ []) = []
unquote_from (c ∷ d ∷ s) = c ∷ unquote_from (d ∷ s)

abbrev unquote : Bytes → Option Bytes
unquote [] = none
unquote (c ∷ s) = some (unquote_from s)

abbrev pub payload_events : List Event
payload_events =
    open_brace
    ∷ key (codes "protocol_version")
    ∷ value (codes "1")
    ∷ key (codes "message_id")
    ∷ value (quoted message_id)
    ∷ key (codes "message_type")
    ∷ value (quoted (codes "telemetry_batch"))
    ∷ key (codes "gateway_id")
    ∷ value (quoted (codes "gw-1"))
    ∷ key (codes "sensor_id")
    ∷ value (quoted (codes "s-1"))
    ∷ key (codes "boot_id")
    ∷ value (quoted boot_id)
    ∷ key (codes "first_sequence")
    ∷ value (codes "5")
    ∷ key (codes "sample_count")
    ∷ value (codes "2")
    ∷ key (codes "measured_at")
    ∷ value (quoted (codes "2026-03-01T07:00:00Z"))
    ∷ key (codes "sample_interval_us")
    ∷ value (codes "1000000")
    ∷ key (codes "samples")
    ∷ value (codes "pair")
    ∷ close
    ∷ []

abbrev sample_events : List Event
sample_events = open_bracket ∷ value (codes "1") ∷ value (codes "2") ∷ close ∷ []

abbrev events : Bytes → List Event
events s =
    if bytes_eq s payload
    then payload_events
    else if bytes_eq s (codes "pair")
    then sample_events
    else failure ∷ []

abbrev pub json : JsonLib
json = record {
  events = events;
  unmarshal_string = unquote;
  unmarshal_float64 = λ raw. some 4607182418800017408;
}

abbrev pub uuid : UuidLib
uuid = record {
  version = λ id. 4;
  is_rfc4122 = λ id. true;
  validates = λ s. length s == 16;
  parse = λ s. some s;
  format = λ id. id;
}

abbrev pub platform : Platform
platform = record { json = json; uuid = uuid; sha256_hex = λ s. codes "sha" ++ s }

abbrev pub limits : Limits
limits = record {
  max_payload_bytes = pos 100;
  max_samples = pos 10;
  max_batch_duration = pos 60000000000;
  max_future_skew = pos 5000000000;
}

-- 2026-03-01T07:00:10Z
abbrev pub received_at : Time
received_at = pos 63907945210000000000

abbrev pub format_time : Time → Bytes
format_time t = codes "time"

abbrev pub sensor_entity : Uuid
sensor_entity = codes "entity-of-sensor"

-- Tables without telemetry, for one Sensor.
abbrev pub tables : Db
tables = record {
  has_gateway = λ g. bytes_eq g (codes "gw-1");
  sensor_unit = λ g s. if bytes_eq s (codes "s-1") then some (some (codes "C")) else none;
  twin_graph = λ g s. some (codes "entity-of-gatewy", sensor_entity, true);
  ledger = [];
  telemetry = [];
  twin_states = λ id.
      some (record { reported_state = some []; reported_version = pos 0; last_reported_at = none });
  temporal = [];
}
