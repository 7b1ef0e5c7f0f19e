-- ===== src/Tests/Acks.antt =====
-- Concrete runs of the ACKs on the side of a Gateway.
use project1_iot_server.Identifier.{valid_gateway_id}
use project1_iot_server.Clock.{valid_calendar_year}
use project1_iot_server.Uuid.{valid_message_id}
use project1_iot_server.Json.{
  Event, open_brace, key, value, close, decode_object, decode_int64, decode_string, is_null,
}
use project1_iot_server.Telemetry.Errors.{ok}
use project1_iot_server.Telemetry.Ack.{committed, CommitAck, ack_topic, new_commit_ack}
use project1_iot_server.Outbox.{Row, pending, delete_pending, settle, statement}
use project1_iot_server.Outbox.Acks.{
  Parsers, Processor, parse_own_ack_topic, of_ack_segments, check_ack, parse_commit_ack,
  after_delete, handle_parsed, handle_admission,
}
use project1_iot_server.Outbox.Acks.Deleted.{Handled, handle_admission-Handled}
use project1_iot_server.Outbox.Acks.OwnTopic.{parse_own_ack_topic-new_commit_ack}
use project1_iot_server.Tests.Demo.{uuid, message_id, boot_id, topic, payload, received_at}
use project1_iot_server.Tests.Outbox.{fresh_outbox, no_faults}
use project1_iot_server.Prelude.{
  ◌≡◌, refl, false, none, some, List, [], ◌∷◌, arith, pos, Bytes, codes, bytes_eq, Lacks, split_on,
}

abbrev ack_events : List Event
ack_events =
    open_brace
    ∷ key (codes "protocol_version")
    ∷ value (codes "1")
    ∷ key (codes "message_type")
    ∷ value (codes "telemetry_ack")
    ∷ key (codes "message_id")
    ∷ value message_id
    ∷ key (codes "status")
    ∷ value (codes "committed")
    ∷ key (codes "committed_at")
    ∷ value (codes "2026-03-01T07:00:10Z")
    ∷ close
    ∷ []

-- A decoder that knows one text, and reads a string without quotes.
abbrev parsers : Parsers
parsers = record {
  json = record {
    events = λ s. ack_events;
    unmarshal_string = λ s. some s;
    unmarshal_float64 = λ s. none;
  };
  uuid = uuid;
  parse_time = λ s. some received_at;
}

abbrev queued : Row
queued = record {
  id = 1;
  message_id = message_id;
  boot_id = boot_id;
  topic = topic;
  payload = payload;
  byte_size = 32;
  first_sequence = pos 0;
  sample_count = pos 2;
  status = pending;
  enqueued_at = received_at;
}

abbrev processor : Processor
processor = record {
  outbox = record fresh_outbox { rows = queued ∷ [] };
  capacity = 4;
  admissions = [];
  notified = false;
  fatal = none;
  admitted = 1;
  acknowledged = 0;
  dropped_retained = 0;
  dropped_oversize = 0;
  dropped_full = 0;
  delete_failed = 0;
}

abbrev own_topic : Bytes
own_topic = ack_topic uuid (codes "gw-1") message_id

abbrev after : Processor
after = handle_admission parsers no_faults own_topic (codes "ack") processor

after_run : (after.acknowledged ≡ 1) × (after.outbox.rows ≡ [])
unfolding handle_admission handle_parsed parse_commit_ack parse_own_ack_topic of_ack_segments
    check_ack decode_object decode_int64 decode_string is_null valid_message_id split_on bytes_eq
    delete_pending settle statement after_delete
after_run = (refl, refl)

handle_admission-Handled_example : Handled parsers own_topic (codes "ack") processor after
handle_admission-Handled_example =
    handle_admission-Handled parsers no_faults own_topic (codes "ack") processor

abbrev ack : CommitAck
ack = record { message_id = message_id; committed_at = received_at }

ack_run : new_commit_ack uuid (codes "gw-1") message_id committed received_at ≡ ok (own_topic, ack)
unfolding new_commit_ack valid_gateway_id valid_message_id valid_calendar_year bytes_eq
ack_run = refl

message_id-Lacks : Lacks b'/' message_id
message_id-Lacks = ground arith

parse_own_ack_topic-new_commit_ack_example :
    parse_own_ack_topic uuid own_topic (codes "gw-1") ≡ ok message_id
parse_own_ack_topic-new_commit_ack_example =
    parse_own_ack_topic-new_commit_ack uuid (codes "gw-1") message_id committed received_at
      own_topic ack refl message_id-Lacks ack_run
