-- ===== src/Store/Metadata.antt =====
-- ledgerMetadata of src/internal/telemetry/postgres_ledger.go.
pub mod Total
pub mod Entry
use project1_iot_server.Uuid.{Uuid, uuid_nil}
use project1_iot_server.Telemetry.Errors.{
  Result, ok, err, reason, invalid_payload, ◌>>=◌, ◌>>◌, reject_if, or_error,
}
use project1_iot_server.Telemetry.Topic.{ParsedTopic}
use project1_iot_server.Telemetry.Model.{SampleCandidate}
use project1_iot_server.Telemetry.Message.{Message, first_sample, last_sample}
use project1_iot_server.Prelude.{
  ℕ, ◌-◌, Bool, not, ◌||◌, Option, none, some, ltb, ◌==◌, length, pos, ltb_ℤ, eqb_ℤ, sub64, Bytes,
  is_empty, bytes_eq,
}

-- ledgerMessage
pub record LedgerMessage : Type 0 where
  pub topic : ParsedTopic
  pub payload_hash : Bytes
  pub sensor_id : Bytes
  pub boot_id : Uuid
  pub message_id : Uuid
  pub first_sample : SampleCandidate
  pub last_sample : SampleCandidate
  pub sample_count : ℕ

abbrev zero_uuid : Uuid → Bool
zero_uuid id = bytes_eq id uuid_nil

-- The second test of ledgerMetadata, on the first and the last sample.
unfoldable pub inconsistent : ParsedTopic → SampleCandidate → SampleCandidate → ℕ → Bool
inconsistent topic first last count =
    not (bytes_eq first.gateway_id topic.gateway_id)
    || not (bytes_eq last.gateway_id topic.gateway_id)
    || not (bytes_eq first.sensor_id topic.sensor_id)
    || not (bytes_eq last.sensor_id topic.sensor_id)
    || zero_uuid first.message_id
    || not (bytes_eq first.message_id last.message_id)
    || zero_uuid first.boot_id
    || not (bytes_eq first.boot_id last.boot_id)
    || not (first.sample_index == 0)
    || not (last.sample_index == count - 1)
    || ltb_ℤ first.sequence_num (pos 0)
    || ltb_ℤ last.sequence_num first.sequence_num
    || not (eqb_ℤ (sub64 last.sequence_num first.sequence_num) (pos (count - 1)))

abbrev pub entry_of : Message → SampleCandidate → SampleCandidate → ℕ → LedgerMessage
entry_of m first last count = record {
  topic = m.topic;
  payload_hash = m.payload_hash;
  sensor_id = m.topic.sensor_id;
  boot_id = first.boot_id;
  message_id = first.message_id;
  first_sample = first;
  last_sample = last;
  sample_count = count;
}

unfoldable pub metadata_of : Message → SampleCandidate → SampleCandidate → ℕ → Result LedgerMessage
metadata_of m first last count = do
  reject_if (inconsistent m.topic first last count) (reason invalid_payload "message_samples")
  ok (entry_of m first last count)

-- ledgerMetadata; `none` is a nil message.
unfoldable pub ledger_metadata : Option Message → Result LedgerMessage
ledger_metadata none = err (reason invalid_payload "message")
ledger_metadata (some m) = do
  first ← or_error (first_sample m) (reason invalid_payload "message")
  last ← or_error (last_sample m) (reason invalid_payload "message")
  let count = length m.samples
  reject_if
      (is_empty m.topic.gateway_id
        || is_empty m.topic.sensor_id
        || is_empty m.topic.source_topic
        || is_empty m.payload_hash
        || count == 0
        || ltb 2147483647 count)
      (reason invalid_payload "message")
  metadata_of m first last count
