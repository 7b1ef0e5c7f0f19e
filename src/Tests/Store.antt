-- ===== src/Tests/Store.antt =====
-- Concrete runs of the transaction.
use project1_iot_server.Telemetry.Errors.{ok, opaque}
use project1_iot_server.Telemetry.Message.{candidate, expand_from}
use project1_iot_server.Store.{Db, TwinState, Faults, applied, no_faults, run}
use project1_iot_server.Store.Metadata.{
  LedgerMessage, entry_of, ledger_metadata, metadata_of, inconsistent,
}
use project1_iot_server.Store.Resources.{Resource, resolve_resource}
use project1_iot_server.Store.Ledger.{row_of, find_row, insert_telemetry_ledger, insert_or_classify}
use project1_iot_server.Store.Reported.{
  Candidate, new_candidate, put_state, next_state, advance, update_state, apply_reported_state,
  append_interval, state_advances,
}
use project1_iot_server.Store.Reported.Forward.{Moves}
use project1_iot_server.Telemetry.Ack.{committed, duplicate_committed}
use project1_iot_server.Store.Persist.{PersistResult, result_of, transaction, write_rest, persist}
use project1_iot_server.Store.Persist.Effect.{Effect, persist-Effect}
use project1_iot_server.Store.Persist.Resend.{here, there, resend}
use project1_iot_server.Store.Persist.Streams.{AtMostOnce, rows_of, at_most_once}
use project1_iot_server.Store.Persist.States.{persist-Moves}
use project1_iot_server.Tests.Demo.{tables, uuid, format_time, sensor_entity, boot_id}
use project1_iot_server.Tests.Telemetry.{message, batch, range}
use project1_iot_server.Prelude.{
  ℕ, ◌≡◌, refl, none, some, [], ◌∷◌, arith, pos, ◌+ℤ◌, add64, sub64, mul64, codes, bytes_eq,
}

abbrev one : ℕ
one = 4607182418800017408

abbrev entry : LedgerMessage
entry = entry_of message (candidate batch range 0 one) (candidate batch range 1 one) 2

abbrev resource : Resource
resource = record {
  gateway_id = codes "gw-1";
  sensor_id = codes "s-1";
  entity_id = sensor_entity;
  unit = some (codes "C");
}

abbrev state : TwinState
state = record { reported_state = some []; reported_version = pos 0; last_reported_at = none }

abbrev reported : Candidate
reported = record {
  value = one;
  observed_at = pos 63907945201000000000;
  boot_id = boot_id;
  sequence_num = pos 6;
  sample_interval_us = pos 1000000;
  unit = some (codes "C");
}

abbrev written : Db
written = record tables {
  ledger = row_of entry ∷ [];
  telemetry = message.samples;
  twin_states =
      put_state tables.twin_states sensor_entity (next_state format_time uuid state reported);
  temporal =
      record {
        observed_at = pos 63907945201000000000;
        entity_id = sensor_entity;
        value_number = pos 1000000;
        boot_id = boot_id;
        message_id = entry.message_id;
      }
      ∷ [];
}

abbrev pub answer : PersistResult
answer = result_of resource entry committed 2

-- COMMIT reports an error after it took effect.
abbrev lost_answer : Faults
lost_answer = record { fails = λ op. none; fate = applied (opaque "connection reset") }

metadata_run : ledger_metadata (some message) ≡ ok entry
unfolding ledger_metadata metadata_of inconsistent bytes_eq sub64 add64 mul64 ◌+ℤ◌ expand_from
metadata_run = refl

transaction_run :
    transaction format_time uuid lost_answer tables message entry ≡ ok (written, answer)
unfolding transaction run resolve_resource insert_telemetry_ledger insert_or_classify find_row
    write_rest apply_reported_state new_candidate update_state state_advances advance
    append_interval bytes_eq ◌+ℤ◌ expand_from mul64 add64
transaction_run = refl

persist-Effect_example :
    Effect no_faults message tables (persist format_time uuid no_faults tables message)
persist-Effect_example = persist-Effect format_time uuid no_faults message tables

resend_example :
    persist format_time uuid no_faults
      (persist format_time uuid lost_answer tables message).1
      message
    ≡ (
      ok (record answer { outcome = duplicate_committed; samples_saved = 0 }),
      (persist format_time uuid lost_answer tables message).1,
    )
resend_example =
    resend format_time uuid lost_answer tables message entry (written, answer)
      (persist format_time uuid lost_answer tables message).1 metadata_run transaction_run refl here

tables-AtMostOnce : AtMostOnce tables.ledger
unfolding AtMostOnce rows_of
tables-AtMostOnce p = omega arith

at_most_once_example : AtMostOnce (persist format_time uuid lost_answer tables message).1.ledger
at_most_once_example =
    at_most_once format_time uuid tables (persist format_time uuid lost_answer tables message).1
      tables-AtMostOnce (there lost_answer message here)

persist-Moves_example :
    Moves
      (tables.twin_states sensor_entity)
      ((persist format_time uuid lost_answer tables message).1.twin_states sensor_entity)
persist-Moves_example = persist-Moves format_time uuid lost_answer tables message sensor_entity
