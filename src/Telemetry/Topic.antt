-- ===== src/Telemetry/Topic.antt =====
-- src/internal/telemetry/topic.go: the topic gateways/<gateway>/telemetry/<sensor>.
pub mod RoundTrip
use project1_iot_server.Identifier.{valid_gateway_id, valid_sensor_id}
use project1_iot_server.Telemetry.Errors.{Result, ok, err, reason, invalid_topic, Error}
use project1_iot_server.Prelude.{
  ◌+◌, ◌/◌, not, ◌||◌, List, [], ◌∷◌, ◌++◌, if◌then◌else◌, Bytes, codes, bytes_eq, split_on,
}

pub record ParsedTopic : Type 0 where
  pub source_topic : Bytes
  pub gateway_id : Bytes
  pub sensor_id : Bytes

abbrev invalid_topic_error : Error
invalid_topic_error = reason invalid_topic "topic"

-- The checks on the result of strings.Split.
of_segments : Bytes → List Bytes → Result ParsedTopic
of_segments topic (a ∷ gateway ∷ b ∷ sensor ∷ []) =
    if not (bytes_eq a (codes "gateways")) || not (bytes_eq b (codes "telemetry"))
    then err invalid_topic_error
    else if not (valid_gateway_id gateway) || not (valid_sensor_id sensor)
    then err invalid_topic_error
    else ok (record { source_topic = topic; gateway_id = gateway; sensor_id = sensor })
of_segments topic _ = err invalid_topic_error

-- ParseTopic
unfoldable pub parse_topic : Bytes → Result ParsedTopic
unfolding of_segments
parse_topic topic = of_segments topic (split_on b'/' topic)

-- fmt.Sprintf("gateways/%s/telemetry/%s", gateway, sensor)
abbrev pub telemetry_topic : Bytes → Bytes → Bytes
telemetry_topic gateway sensor =
    codes "gateways" ++ (b'/' ∷ gateway ++ (b'/' ∷ codes "telemetry" ++ (b'/' ∷ sensor)))
