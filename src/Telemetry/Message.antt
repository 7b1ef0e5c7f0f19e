-- ===== src/Telemetry/Message.antt =====
-- src/internal/telemetry/message.go: validation of one message, and the expansion of its samples.
pub mod Expanded
pub mod Samples
use project1_iot_server.Clock.{Time}
use project1_iot_server.Uuid.{UuidLib}
use project1_iot_server.Json.{JsonLib}
use project1_iot_server.Telemetry.Errors.{
  Result, ok, err, reason, payload_too_large, invalid_payload_error, ◌>>=◌, ◌>>◌, reject_if,
}
use project1_iot_server.Telemetry.Topic.{ParsedTopic, parse_topic}
use project1_iot_server.Telemetry.Model.{
  Float64, BatchDto, SampleCandidate, Limits, validate_limits,
}
use project1_iot_server.Telemetry.Decode.{decode_batch}
use project1_iot_server.Telemetry.Range.{ValidatedRange, validate_range}
use project1_iot_server.Prelude.{
  ℕ, suc, ◌+◌, Option, none, some, List, [], ◌∷◌, length, ℤ, pos, ltb_ℤ, ◌+ℤ◌, add64, mul64, Bytes,
}

-- What the program takes from other packages: encoding/json, github.com/google/uuid, and
-- hex.EncodeToString of sha256.Sum256.
pub record Platform : Type 0 where
  pub json : JsonLib
  pub uuid : UuidLib
  pub sha256_hex : Bytes → Bytes

pub record Message : Type 0 where
  pub topic : ParsedTopic
  pub batch : BatchDto
  pub raw_payload : Bytes
  pub payload_hash : Bytes
  pub received_at : Time
  pub samples : List SampleCandidate

-- One sample of the loop of Validate. The index is exact as an int32, since there are at most
-- 2147483647 samples.
abbrev pub candidate : BatchDto → ValidatedRange → ℕ → Float64 → SampleCandidate
candidate b r index v = record {
  gateway_id = b.gateway_id;
  sensor_id = b.sensor_id;
  boot_id = b.boot_id;
  message_id = b.message_id;
  sample_index = index;
  sequence_num = add64 b.first_sequence (pos index);
  measured_at = r.first_measured_at +ℤ mul64 (pos index) r.interval;
  value = v;
}

-- The loop of Validate, from an index on.
unfoldable pub expand_from : BatchDto → ValidatedRange → ℕ → List Float64 → List SampleCandidate
expand_from b r index [] = []
expand_from b r index (v ∷ vs) = candidate b r index v ∷ expand_from b r (suc index) vs

abbrev pub message_of : Platform → ParsedTopic → BatchDto → ValidatedRange → Bytes → Time → Message
message_of p topic b r payload received_at = record {
  topic = topic;
  batch = b;
  raw_payload = payload;
  payload_hash = p.sha256_hex payload;
  received_at = received_at;
  samples = expand_from b r 0 b.samples;
}

-- Validator.Validate; `none` is a nil validator.
unfoldable pub validate : Platform → Option Limits → Bytes → Bytes → Time → Result Message
validate p none topic payload received_at = err (invalid_payload_error "limits")
validate p (some l) topic payload received_at = do
  validate_limits l
  reject_if (ltb_ℤ l.max_payload_bytes (pos (length payload))) (reason payload_too_large "payload")
  parsed ← parse_topic topic
  batch ← decode_batch p.json p.uuid payload parsed l
  range ← validate_range batch l received_at
  ok (message_of p parsed batch range payload received_at)

abbrev pub head? : List SampleCandidate → Option SampleCandidate
head? [] = none
head? (s ∷ ss) = some s

abbrev pub last? : List SampleCandidate → Option SampleCandidate
last? [] = none
last? (s ∷ []) = some s
last? (s ∷ t ∷ ss) = last? (t ∷ ss)

-- Message.FirstSample, Message.LastSample
abbrev pub first_sample : Message → Option SampleCandidate
first_sample m = head? m.samples

abbrev pub last_sample : Message → Option SampleCandidate
last_sample m = last? m.samples
