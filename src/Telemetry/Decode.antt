-- ===== src/Telemetry/Decode.antt =====
-- src/internal/telemetry/decode.go: one telemetry_batch object with exactly eleven members.
pub mod Accepted
use project1_iot_server.Identifier.{valid_gateway_id, valid_sensor_id}
use project1_iot_server.Uuid.{Uuid, uuid_nil, UuidLib, valid_message_id}
use project1_iot_server.Json.{
  Event, open_bracket, value, close, Fields, JsonLib, field, decode_object, decode_int64,
  decode_int32, decode_string, is_null,
}
use project1_iot_server.Telemetry.Errors.{
  Result, ok, reason, payload_too_large, unsupported_protocol, invalid_topic, invalid_payload_error,
  ◌>>=◌, ◌>>◌, reject_if, or_error,
}
use project1_iot_server.Telemetry.Topic.{ParsedTopic}
use project1_iot_server.Telemetry.Model.{Float64, BatchDto, Limits}
use project1_iot_server.Prelude.{
  ℕ, suc, ◌/◌, ◌%◌, Bool, not, ◌||◌, Option, none, some, List, [], ◌∷◌, ◌==◌, if◌then◌else◌, length,
  ℤ, pos, pos_part, ltb_ℤ, leb_ℤ, eqb_ℤ, Bytes, codes, bytes_eq,
}

-- batchFieldNames
abbrev pub batch_field_names : List Bytes
batch_field_names =
    codes "protocol_version"
    ∷ codes "message_id"
    ∷ codes "message_type"
    ∷ codes "gateway_id"
    ∷ codes "sensor_id"
    ∷ codes "boot_id"
    ∷ codes "first_sequence"
    ∷ codes "sample_count"
    ∷ codes "measured_at"
    ∷ codes "sample_interval_us"
    ∷ codes "samples"
    ∷ []

-- math.IsNaN or math.IsInf: all bits of the exponent are set.
abbrev pub is_nan_or_inf : Float64 → Bool
is_nan_or_inf v = v / 4503599627370496 % 2048 == 2047

-- The value of one item of the array, after the tests on it.
abbrev checked_float : Option Float64 → Option Float64
checked_float none = none
checked_float (some v) = if is_nan_or_inf v then none else some v

abbrev push_item : Option Float64 → Option (List Float64) → Option (List Float64)
push_item (some v) (some vs) = some (v ∷ vs)
push_item _ _ = none

-- The batch that decodeBatch returns. The version and the type are the constants that they were
-- compared with.
abbrev pub batch_of : Uuid × Bytes × Bytes × Uuid → ℤ × ℤ × Bytes × ℤ × List Float64 → BatchDto
batch_of (message_id, gateway_id, sensor_id, boot_id)
      (first, count, measured_at, interval, samples) =
    record {
      protocol_version = pos 1;
      message_id = message_id;
      message_type = codes "telemetry_batch";
      gateway_id = gateway_id;
      sensor_id = sensor_id;
      boot_id = boot_id;
      first_sequence = first;
      sample_count = count;
      measured_at = measured_at;
      sample_interval_us = interval;
      samples = samples;
    }

-- The last test of decodeBatch, on the identifiers of the topic.
unfoldable pub match_topic :
    ParsedTopic → Uuid × Bytes × Bytes × Uuid → ℤ × ℤ × Bytes × ℤ × List Float64 → Result BatchDto
match_topic topic ids content = do
  reject_if (not (bytes_eq ids.1 topic.gateway_id) || not (bytes_eq ids.2 topic.sensor_id))
      (reason invalid_topic "topic")
  ok (batch_of ids content)

module _ (json : JsonLib) where
  decode_item : Bytes → Option Float64
  decode_item raw = if is_null raw then none else checked_float (json.unmarshal_float64 raw)

  -- The loop of decodeSamples with `room` places left, the closing bracket and io.EOF behind it.
  read_samples : ℕ → List Event → Option (List Float64)
  unfolding decode_item
  read_samples room (close ∷ []) = some []
  read_samples (suc room) (value raw ∷ rest) = push_item (decode_item raw) (read_samples room rest)
  read_samples room _ = none

  -- decodeSamples
  samples_of : ℕ → List Event → Option (List Float64)
  unfolding read_samples
  samples_of maximum (open_bracket ∷ rest) = read_samples maximum rest
  samples_of maximum _ = none

  unfoldable pub decode_samples : Bytes → ℕ → Option (List Float64)
  unfolding samples_of
  decode_samples raw maximum = if is_null raw then none else samples_of maximum (json.events raw)

  -- The members from the first sequence number on: the sequence, count, time, interval and samples.
  unfoldable pub decode_content : Fields → Limits → Result (ℤ × ℤ × Bytes × ℤ × List Float64)
  decode_content fs l = do
    first ←
        or_error (decode_int64 (field (codes "first_sequence") fs))
          (invalid_payload_error "first_sequence")
    count ←
        or_error (decode_int32 (field (codes "sample_count") fs))
          (invalid_payload_error "sample_count")
    measured_at ←
        or_error (decode_string json (field (codes "measured_at") fs))
          (invalid_payload_error "measured_at")
    interval ←
        or_error (decode_int64 (field (codes "sample_interval_us") fs))
          (invalid_payload_error "sample_interval_us")
    reject_if (leb_ℤ count (pos 0) || ltb_ℤ l.max_samples count)
        (invalid_payload_error "sample_count")
    samples ←
        or_error (decode_samples (field (codes "samples") fs) (pos_part l.max_samples))
          (invalid_payload_error "samples")
    reject_if (not (eqb_ℤ (pos (length samples)) count)) (invalid_payload_error "sample_count")
    ok (first, count, measured_at, interval, samples)

  module _ (u : UuidLib) where
    -- uuid.Validate and uuid.Parse on a decoded string.
    abbrev validated_uuid : Option Bytes → Option Uuid
    validated_uuid none = none
    validated_uuid (some s) = if u.validates s then u.parse s else none

    -- decodeUUID
    decode_uuid : Bytes → Option Uuid
    decode_uuid raw = validated_uuid (decode_string json raw)

    -- The members up to the boot identifier.
    unfoldable pub decode_identity : Fields → Result (Uuid × Bytes × Bytes × Uuid)
    unfolding decode_uuid
    decode_identity fs = do
      version ←
          or_error (decode_int64 (field (codes "protocol_version") fs))
            (invalid_payload_error "protocol_version")
      reject_if (not (eqb_ℤ version (pos 1))) (reason unsupported_protocol "protocol_version")
      message_id ←
          or_error (decode_uuid (field (codes "message_id") fs))
            (invalid_payload_error "message_id")
      reject_if (not (valid_message_id u message_id)) (invalid_payload_error "message_id")
      message_type ←
          or_error (decode_string json (field (codes "message_type") fs))
            (invalid_payload_error "message_type")
      reject_if (not (bytes_eq message_type (codes "telemetry_batch")))
          (reason unsupported_protocol "message_type")
      gateway_id ←
          or_error (decode_string json (field (codes "gateway_id") fs))
            (invalid_payload_error "gateway_id")
      reject_if (not (valid_gateway_id gateway_id)) (invalid_payload_error "gateway_id")
      sensor_id ←
          or_error (decode_string json (field (codes "sensor_id") fs))
            (invalid_payload_error "sensor_id")
      reject_if (not (valid_sensor_id sensor_id)) (invalid_payload_error "sensor_id")
      boot_id ←
          or_error (decode_uuid (field (codes "boot_id") fs)) (invalid_payload_error "boot_id")
      reject_if (bytes_eq boot_id uuid_nil || not (u.is_rfc4122 boot_id))
          (invalid_payload_error "boot_id")
      ok (message_id, gateway_id, sensor_id, boot_id)

    -- decodeBatch
    unfoldable pub decode_batch : Bytes → ParsedTopic → Limits → Result BatchDto
    decode_batch payload topic l = do
      reject_if (ltb_ℤ l.max_payload_bytes (pos (length payload)))
          (reason payload_too_large "payload")
      reject_if (leb_ℤ l.max_payload_bytes (pos 0) || leb_ℤ l.max_samples (pos 0))
          (invalid_payload_error "limits")
      fs ←
          or_error (decode_object batch_field_names (json.events payload))
            (invalid_payload_error "object")
      ids ← decode_identity fs
      content ← decode_content fs l
      match_topic topic ids content
