-- ===== src/Tests/Outbox.antt =====
-- Concrete runs of the outbox.
use project1_iot_server.Clock.{valid_calendar_year}
use project1_iot_server.Identifier.{valid_gateway_id, valid_sensor_id}
use project1_iot_server.Uuid.{valid_message_id}
use project1_iot_server.Json.{decode_object, decode_int64, decode_int32, decode_string, is_null}
use project1_iot_server.Telemetry.Topic.{parse_topic}
use project1_iot_server.Telemetry.Model.{validate_limits}
use project1_iot_server.Telemetry.Decode.{
  decode_batch, decode_identity, decode_content, match_topic, decode_samples,
}
use project1_iot_server.Telemetry.Range.{validate_range, check_sequence, check_times, check_future}
use project1_iot_server.Telemetry.Timestamp.{parse_measured_at}
use project1_iot_server.Telemetry.Message.{validate, expand_from}
use project1_iot_server.Store.{confirmed}
use project1_iot_server.Outbox.{Outbox, Faults, delete_pending, next_of, settle, statement}
use project1_iot_server.Outbox.Build.{Builder, EnqueueRequest, build_batch, enqueue, enqueue_at}
use project1_iot_server.Outbox.Allocated.{times_used}
use project1_iot_server.Outbox.Steps.{enqueues, deletes, here, next}
use project1_iot_server.Outbox.Sequences.{Sound, outbox-Sound}
use project1_iot_server.Tests.Demo.{platform, payload, message_id, boot_id, received_at}
use project1_iot_server.Prelude.{
  ◌≡◌, refl, none, some, [], arith, pos, ◌+ℤ◌, ◌-ℤ◌, ◌*ℤ◌, wrap64, add64, sub64, mul64, codes,
  bytes_eq, split_on,
}

abbrev builder : Builder
builder = record {
  platform = platform;
  format_measured_at = λ t. codes "2026-03-01T07:00:00.000000Z";
  marshal = λ batch. some payload;
  reading = λ position. 4607182418800017408;
}

abbrev pub fresh_outbox : Outbox
fresh_outbox = record {
  gateway_id = codes "gw-1";
  sensor_id = codes "s-1";
  max_rows = pos 2;
  max_bytes = pos 100;
  last_id = 0;
  rows = [];
  streams = λ boot. none;
}

abbrev request : EnqueueRequest
request = record {
  boot_id = boot_id;
  message_id = message_id;
  measured_at = received_at;
  received_at = received_at;
  sample_count = pos 2;
  sample_interval_us = pos 1000000;
}

abbrev pub no_faults : Faults
no_faults = record { fails = λ op. none; fate = confirmed }

abbrev filled : Outbox
filled = (enqueue builder no_faults received_at request fresh_outbox).1

fresh_outbox-Sound : Sound fresh_outbox
unfolding times_used
fresh_outbox-Sound = record {
  allocated = record {
    once = λ boot n. omega arith;
    past = λ boot n h. absurd (omega arith);
    word = λ boot. tt;
  };
  quota = record { rows_le = omega arith; bytes_le = omega arith };
}

-- The number 2 follows the two samples of the first batch.
enqueue_run : filled.streams boot_id ≡ some (pos 2)
unfolding enqueue settle statement next_of enqueue_at build_batch valid_gateway_id bytes_eq
    valid_sensor_id valid_message_id validate validate_limits parse_topic split_on decode_batch
    decode_object decode_identity decode_int64 valid_calendar_year decode_int32 decode_string
    is_null add64 mul64 sub64 wrap64 ◌*ℤ◌ ◌+ℤ◌ ◌-ℤ◌ decode_content decode_samples match_topic
    expand_from check_future check_sequence check_times validate_range parse_measured_at
enqueue_run = refl

outbox-Sound_example : Sound (delete_pending no_faults (codes "gw-1") message_id filled).1
outbox-Sound_example =
    outbox-Sound builder fresh_outbox (delete_pending no_faults (codes "gw-1") message_id filled).1
      fresh_outbox-Sound
      (next (next here (enqueues no_faults received_at request refl))
        (deletes no_faults (codes "gw-1") message_id))
