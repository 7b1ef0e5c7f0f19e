-- ===== src/Tests/Telemetry.antt =====
-- Concrete runs of the telemetry codec.
use project1_iot_server.Clock.{valid_calendar_year}
use project1_iot_server.Identifier.{valid_gateway_id, valid_sensor_id}
use project1_iot_server.Uuid.{valid_message_id}
use project1_iot_server.Json.Members.{decode_object_exact, Distinct, Among}
use project1_iot_server.Telemetry.Topic.RoundTrip.{parse_topic_exact}
use project1_iot_server.Telemetry.Decode.Accepted.{Accepted, decode_batch-Accepted}
use project1_iot_server.Telemetry.Range.Times.{Checked, validate_range-Checked}
use project1_iot_server.Telemetry.Message.Samples.{IsSample, validate-IsSample}
use project1_iot_server.Store.Metadata.{LedgerMessage, ledger_metadata}
use project1_iot_server.Store.Metadata.Total.{Describes, validate-ledger_metadata}
use project1_iot_server.Json.{
  Fields, mem, names, decode_object, decode_int64, decode_int32, decode_string, is_null,
}
use project1_iot_server.Telemetry.Errors.{ok}
use project1_iot_server.Telemetry.Timestamp.{parse_measured_at}
use project1_iot_server.Telemetry.Topic.{telemetry_topic, ParsedTopic, parse_topic}
use project1_iot_server.Telemetry.Model.{SampleCandidate, BatchDto, validate_limits}
use project1_iot_server.Telemetry.Decode.{
  batch_field_names, decode_batch, decode_identity, decode_content, match_topic, decode_samples,
}
use project1_iot_server.Telemetry.Range.{
  ValidatedRange, validate_range, check_sequence, check_times, check_future,
}
use project1_iot_server.Telemetry.Message.{Message, message_of, validate}
use project1_iot_server.Tests.Demo.{
  payload_events, message_id, boot_id, json, uuid, topic, payload, platform, limits, received_at,
}
use project1_iot_server.Prelude.{
  ℕ, ◌≡◌, refl, ◌↔◌, true, none, some, [], ◌∷◌, arith, get_elem?, pos, ◌+ℤ◌, ◌-ℤ◌, ◌*ℤ◌, wrap64,
  add64, sub64, mul64, Bytes, codes, bytes_eq, split_on,
}

year_one : parse_measured_at (codes "0001-01-01T00:00:00Z") ≡ some (pos 0)
unfolding parse_measured_at bytes_eq valid_calendar_year ◌+ℤ◌ ◌*ℤ◌ ◌-ℤ◌
year_one = refl

with_offset :
    parse_measured_at (codes "2026-03-01T07:00:00.25+07:00") ≡ some (pos 63907920000250000000)
unfolding parse_measured_at bytes_eq valid_calendar_year ◌+ℤ◌ ◌*ℤ◌ ◌-ℤ◌
with_offset = refl

no_leap_day : parse_measured_at (codes "2026-02-29T00:00:00Z") ≡ none
unfolding parse_measured_at bytes_eq valid_calendar_year ◌+ℤ◌ ◌*ℤ◌ ◌-ℤ◌
no_leap_day = refl

abbrev pub batch : BatchDto
batch = record {
  protocol_version = pos 1;
  message_id = message_id;
  message_type = codes "telemetry_batch";
  gateway_id = codes "gw-1";
  sensor_id = codes "s-1";
  boot_id = boot_id;
  first_sequence = pos 5;
  sample_count = pos 2;
  measured_at = codes "2026-03-01T07:00:00Z";
  sample_interval_us = pos 1000000;
  samples = 4607182418800017408 ∷ 4607182418800017408 ∷ [];
}

abbrev pub parsed : ParsedTopic
parsed = record { source_topic = topic; gateway_id = codes "gw-1"; sensor_id = codes "s-1" }

abbrev pub range : ValidatedRange
range = record {
  first_measured_at = pos 63907945200000000000;
  last_measured_at = pos 63907945201000000000;
  last_sequence = pos 6;
  interval = pos 1000000000;
}

abbrev pub message : Message
message = message_of platform parsed batch range payload received_at

topic_run : parse_topic topic ≡ ok parsed
unfolding parse_topic valid_gateway_id valid_sensor_id split_on bytes_eq
topic_run = refl

pub range_run : validate_range batch limits received_at ≡ ok range
unfolding validate_range check_sequence check_times check_future parse_measured_at bytes_eq
    valid_calendar_year ◌+ℤ◌ ◌*ℤ◌ ◌-ℤ◌ wrap64 add64 sub64 mul64
range_run = refl

pub batch_run : decode_batch json uuid payload parsed limits ≡ ok batch
unfolding decode_batch decode_object decode_identity decode_content match_topic decode_samples
    decode_int64 decode_int32 decode_string is_null valid_gateway_id valid_sensor_id
    valid_message_id bytes_eq
batch_run = refl

pub validate_run : validate platform (some limits) topic payload received_at ≡ ok message
unfolding validate validate_limits
validate_run = rw (topic_run, batch_run, range_run)

abbrev fields : Fields
fields =
    (codes "samples", codes "pair")
    ∷ (codes "sample_interval_us", codes "1000000")
    ∷ (codes "measured_at", codes "'2026-03-01T07:00:00Z'")
    ∷ (codes "sample_count", codes "2")
    ∷ (codes "first_sequence", codes "5")
    ∷ (codes "boot_id", codes "'boot-identity-ok'")
    ∷ (codes "sensor_id", codes "'s-1'")
    ∷ (codes "gateway_id", codes "'gw-1'")
    ∷ (codes "message_type", codes "'telemetry_batch'")
    ∷ (codes "message_id", codes "'message-identity'")
    ∷ (codes "protocol_version", codes "1")
    ∷ []

fields_run : decode_object batch_field_names payload_events ≡ some fields
unfolding decode_object bytes_eq
fields_run = refl

decode_object_exact_example :
    ((k : Bytes) → mem k batch_field_names ≡ true → mem k (names fields) ≡ true)
    × Distinct (names fields)
    × Among batch_field_names (names fields)
decode_object_exact_example = decode_object_exact batch_field_names payload_events fields fields_run

parse_topic_exact_example : (parse_topic topic ≡ ok parsed) ↔ (
    (topic ≡ topic)
    × (topic ≡ telemetry_topic (codes "gw-1") (codes "s-1"))
    × (valid_gateway_id (codes "gw-1") ≡ true)
    × (valid_sensor_id (codes "s-1") ≡ true))
parse_topic_exact_example = parse_topic_exact topic parsed

validate_range-Checked_example : Checked batch limits received_at range
validate_range-Checked_example =
    validate_range-Checked batch limits received_at range (omega arith, omega arith)
      (omega arith, omega arith) range_run

decode_batch-Accepted_example : Accepted uuid parsed limits batch
decode_batch-Accepted_example =
    decode_batch-Accepted json uuid payload parsed limits batch batch_run

validate-IsSample_example :
    (r : ValidatedRange) × Checked message.batch limits received_at r
    × ((k : ℕ) (s : SampleCandidate)
        → get_elem? message.samples k ≡ some s
        → IsSample message r k s)
validate-IsSample_example =
    validate-IsSample platform limits topic payload received_at message validate_run

validate-ledger_metadata_example :
    (r : ValidatedRange) × (e : LedgerMessage) × Checked message.batch limits received_at r
    × (ledger_metadata (some message) ≡ ok e)
    × Describes message r.last_sequence e
validate-ledger_metadata_example =
    validate-ledger_metadata platform limits topic payload received_at message refl validate_run
