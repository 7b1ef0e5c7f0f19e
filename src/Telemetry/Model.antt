-- ===== src/Telemetry/Model.antt =====
-- src/internal/telemetry/model.go: the batch as it is received, its expanded samples, and the limits.
-- A float64 is its bit pattern.
use project1_iot_server.Clock.{Time, Duration}
use project1_iot_server.Uuid.{Uuid}
use project1_iot_server.Telemetry.Errors.{Result, ok, reason, invalid_payload, ◌>>◌, reject_if}
use project1_iot_server.Prelude.{ℕ, ◌||◌, List, ℤ, pos, ltb_ℤ, leb_ℤ, Bytes}

abbrev pub Float64 : Type 0
Float64 = ℕ

pub record BatchDto : Type 0 where
  pub protocol_version : ℤ
  pub message_id : Uuid
  pub message_type : Bytes
  pub gateway_id : Bytes
  pub sensor_id : Bytes
  pub boot_id : Uuid
  pub first_sequence : ℤ
  pub sample_count : ℤ
  pub measured_at : Bytes
  pub sample_interval_us : ℤ
  pub samples : List Float64

pub record SampleCandidate : Type 0 where
  pub gateway_id : Bytes
  pub sensor_id : Bytes
  pub boot_id : Uuid
  pub message_id : Uuid
  pub sample_index : ℕ
  pub sequence_num : ℤ
  pub measured_at : Time
  pub value : Float64

pub record Limits : Type 0 where
  pub max_payload_bytes : ℤ
  pub max_samples : ℤ
  pub max_batch_duration : Duration
  pub max_future_skew : Duration

-- Limits.Validate
unfoldable pub validate_limits : Limits → Result (Unit {0})
validate_limits l = do
  reject_if (leb_ℤ l.max_payload_bytes (pos 0)) (reason invalid_payload "max_payload_bytes")
  reject_if (leb_ℤ l.max_samples (pos 0) || ltb_ℤ (pos 2147483647) l.max_samples)
      (reason invalid_payload "max_samples")
  reject_if (leb_ℤ l.max_batch_duration (pos 0)) (reason invalid_payload "max_batch_duration")
  reject_if (ltb_ℤ l.max_future_skew (pos 0)) (reason invalid_payload "max_future_skew")
  ok tt
