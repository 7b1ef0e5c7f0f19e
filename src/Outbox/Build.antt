-- ===== src/Outbox/Build.antt =====
-- BuildSyntheticBatch of src/internal/gatewaysim/batch.go and Enqueue of outbox.go. Formatting a time,
-- json.Marshal of a batch and the division of the synthetic value are parameters.
use project1_iot_server.Clock.{Time, is_zero}
use project1_iot_server.Identifier.{valid_gateway_id, valid_sensor_id}
use project1_iot_server.Uuid.{Uuid, uuid_nil, valid_message_id}
use project1_iot_server.Telemetry.Errors.{Result, ok, opaque, ◌>>=◌, ◌>>◌, reject_if, or_error}
use project1_iot_server.Telemetry.Topic.{telemetry_topic}
use project1_iot_server.Telemetry.Model.{Float64, BatchDto, Limits}
use project1_iot_server.Telemetry.Message.{Platform, validate, first_sample}
use project1_iot_server.Outbox.{
  Row, pending, Outbox, Faults, begin_tx, read_stream, read_usage, insert_row, write_stream,
  outbox_full, statement, settle, next_of, total_bytes,
}
use project1_iot_server.Prelude.{
  ℕ, zero, suc, ◌+◌, ◌-◌, ◌%◌, not, ◌||◌, Option, some, List, [], ◌∷◌, ltb, ◌==◌, if◌then◌else◌,
  length, any, ℤ, pos, negsuc, pos_part, ltb_ℤ, leb_ℤ, add64, Bytes, codes, bytes_eq,
}

pub record Builder : Type 0 where
  pub platform : Platform
  -- the format "2006-01-02T15:04:05.000000Z07:00" of a time in UTC
  pub format_measured_at : Time → Bytes
  pub marshal : BatchDto → Option Bytes
  -- 20 + float64(position) / 100
  pub reading : ℤ → Float64

-- ServerLimits
abbrev pub server_limits : Limits
server_limits = record {
  max_payload_bytes = pos 65536;
  max_samples = pos 1000;
  max_batch_duration = pos 60000000000;
  max_future_skew = pos 120000000000;
}

-- EnqueueRequest
pub record EnqueueRequest : Type 0 where
  pub boot_id : Uuid
  pub message_id : Uuid
  pub measured_at : Time
  pub received_at : Time
  pub sample_count : ℤ
  pub sample_interval_us : ℤ

-- The position in syntheticValue
abbrev wave : ℕ → ℕ
wave position = if ltb 1000 position then 2000 - position else position

-- sequence % period, raised by the period where Go's remainder is negative
abbrev wave_position : ℤ → ℤ
wave_position (pos n) = pos (wave (n % 2000))
wave_position (negsuc n) = let r = suc n % 2000 in pos (wave (if r == 0 then 0 else 2000 - r))

-- The loop over the samples, from an index on
abbrev synthetic_from : Builder → ℤ → ℕ → ℕ → List Float64
synthetic_from b first index zero = []
synthetic_from b first index (suc n) =
    b.reading (wave_position (add64 first (pos index))) ∷ synthetic_from b first (suc index) n

abbrev pub batch_for : Builder → Outbox → ℤ → EnqueueRequest → BatchDto
batch_for b o first r = record {
  protocol_version = pos 1;
  message_id = r.message_id;
  message_type = codes "telemetry_batch";
  gateway_id = o.gateway_id;
  sensor_id = o.sensor_id;
  boot_id = r.boot_id;
  first_sequence = first;
  sample_count = r.sample_count;
  measured_at = b.format_measured_at r.measured_at;
  sample_interval_us = r.sample_interval_us;
  samples = synthetic_from b first 0 (pos_part r.sample_count);
}

-- BuildSyntheticBatch, with the topic and the payload of its result
unfoldable pub build_batch : Builder → Outbox → ℤ → EnqueueRequest → Result (Bytes × Bytes)
build_batch b o first r = do
  reject_if (not (valid_gateway_id o.gateway_id)) (opaque "gatewaysim: invalid gateway identifier")
  reject_if (not (valid_sensor_id o.sensor_id)) (opaque "gatewaysim: invalid sensor identifier")
  reject_if (bytes_eq r.boot_id uuid_nil || not (b.platform.uuid.is_rfc4122 r.boot_id))
      (opaque "gatewaysim: invalid boot id")
  reject_if (not (valid_message_id b.platform.uuid r.message_id))
      (opaque "gatewaysim: invalid message id")
  reject_if (leb_ℤ r.sample_count (pos 0)) (opaque "gatewaysim: sample count must be positive")
  reject_if (leb_ℤ r.sample_interval_us (pos 0))
      (opaque "gatewaysim: sample interval must be positive")
  reject_if (is_zero r.measured_at) (opaque "gatewaysim: measured_at must be set")
  payload ← or_error (b.marshal (batch_for b o first r)) (opaque "gatewaysim: marshal batch")
  let topic = telemetry_topic o.gateway_id o.sensor_id
  message ← validate b.platform (some server_limits) topic payload r.received_at
  first ← or_error (first_sample message) (opaque "gatewaysim: validated batch has no samples")
  ok (topic, payload)

abbrev pub row_for : Outbox → ℤ → EnqueueRequest → Time → Bytes → Bytes → Row
row_for o first r now topic payload = record {
  id = suc o.last_id;
  message_id = r.message_id;
  boot_id = r.boot_id;
  topic = topic;
  payload = payload;
  byte_size = length topic + length payload;
  first_sequence = first;
  sample_count = r.sample_count;
  status = pending;
  enqueued_at = now;
}

-- The row and the counter of the stream that Enqueue writes
abbrev pub with_row : Outbox → Row → Outbox
with_row o row = record o {
  last_id = row.id;
  rows = row ∷ o.rows;
  streams = λ boot.
      if bytes_eq boot row.boot_id
      then some (add64 row.first_sequence row.sample_count)
      else o.streams boot;
}

-- Enqueue behind nextSequence. The column message_id is unique.
unfoldable pub enqueue_at :
    Builder → Faults → Time → EnqueueRequest → Outbox → ℤ → Result (Row × Outbox)
enqueue_at b f now r o first = do
  statement f read_usage
  reject_if (leb_ℤ o.max_rows (pos (length o.rows))) outbox_full
  (topic, payload) ← build_batch b o first r
  reject_if (ltb_ℤ o.max_bytes (pos (total_bytes o.rows + (length topic + length payload))))
      outbox_full
  statement f insert_row
  reject_if (any (λ row. bytes_eq row.message_id r.message_id) o.rows)
      (opaque "UNIQUE constraint failed")
  statement f write_stream
  let row = row_for o first r now topic payload
  ok (row, with_row o row)

-- Enqueue
unfoldable pub enqueue : Builder → Faults → Time → EnqueueRequest → Outbox → Result Row × Outbox
enqueue b f now r o = settle f.fate o (do
  statement f begin_tx
  statement f read_stream
  first ← next_of (o.streams r.boot_id)
  enqueue_at b f now r o first)
