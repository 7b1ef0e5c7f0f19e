-- ===== src/Tests/Ingress.antt =====
-- Concrete runs of the ingress.
use project1_iot_server.Ingress.{
  item_sent, item_counted, depth_read, received, ending, count_accepted, read_depth, raise_mark,
  Options, State, Services, Item, taken, persisted, zero_counters, start, begin_drain,
  stop_admission, admit, admit_topic, enqueue, new_ingress, drained,
}
use project1_iot_server.Ingress.Process.{
  count_commit, begin_item, end_item, send_ack, publish_wire, publish, acknowledge, commit_item,
  commit_valid, after_persist, identity_matches,
}
use project1_iot_server.Ingress.Drained.{worker_steps_bounded}
use project1_iot_server.Ingress.Emptied.{Surroundings, Empties, workers_empty}
use project1_iot_server.Ingress.Measure.{left_to_do, worker_steps}
use project1_iot_server.Ingress.Steps.{
  counts, observes, raises, begins, ends, drains, leave, take, starts, admits, takes, commits,
  acknowledges, leaves, Steps, here, next,
}
use project1_iot_server.Ingress.Counted.{Counted, outcomes}
use project1_iot_server.Ingress.Counted.Working.{ingress-Counted, drained_complete}
use project1_iot_server.Ingress.Acks.Published.{Backed}
use project1_iot_server.Ingress.Acks.Confirmed.{ack_after_commit}
use project1_iot_server.Clock.{valid_calendar_year}
use project1_iot_server.Identifier.{valid_gateway_id, valid_sensor_id}
use project1_iot_server.Uuid.{valid_message_id}
use project1_iot_server.Json.{decode_object, decode_int64, decode_int32, decode_string, is_null}
use project1_iot_server.Telemetry.Ack.{new_commit_ack}
use project1_iot_server.Telemetry.Topic.{parse_topic}
use project1_iot_server.Telemetry.Model.{validate_limits}
use project1_iot_server.Telemetry.Decode.{
  decode_batch, decode_identity, decode_content, match_topic, decode_samples,
}
use project1_iot_server.Telemetry.Range.{validate_range, check_sequence, check_times, check_future}
use project1_iot_server.Telemetry.Timestamp.{parse_measured_at}
use project1_iot_server.Telemetry.Message.{validate, expand_from}
use project1_iot_server.Store.{no_faults, run}
use project1_iot_server.Store.Metadata.{ledger_metadata, metadata_of, inconsistent}
use project1_iot_server.Store.Resources.{resolve_resource}
use project1_iot_server.Store.Ledger.{find_row, insert_telemetry_ledger, insert_or_classify}
use project1_iot_server.Store.Reported.{
  new_candidate, advance, update_state, apply_reported_state, append_interval, state_advances,
}
use project1_iot_server.Store.Persist.{finish, transaction, write_rest, persist}
use project1_iot_server.Tests.Telemetry.{message}
use project1_iot_server.Tests.Store.{answer}
use project1_iot_server.Tests.Demo.{
  platform, limits, format_time, tables, topic, payload, received_at,
}
use project1_iot_server.Prelude.{
  ◌+◌, ◌≤◌, ◌≡◌, refl, ap, true, false, none, some, [], ◌∷◌, ◌++◌, arith, length, All, pos, ◌+ℤ◌,
  ◌-ℤ◌, ◌*ℤ◌, wrap64, add64, sub64, mul64, bytes_eq, split_on,
}

abbrev services : Services
services = record {
  platform = platform;
  limits = limits;
  format_time = format_time;
  marshal = λ ack. some ack.message_id;
}

abbrev options : Options
options = record {
  queue_capacity = pos 2;
  worker_count = pos 1;
  max_payload_bytes = pos 100;
  persist_timeout = pos 1000;
  publish_timeout = pos 1000;
}

abbrev s0 : State
s0 = record {
  capacity = 2;
  worker_count = 1;
  max_payload_bytes = pos 100;
  started = false;
  draining = false;
  stopping = false;
  queue = [];
  admitting = [];
  running = 0;
  working = [];
  counters = zero_counters;
  db = tables;
  deliveries = [];
}

abbrev s1 : State
s1 = record s0 { started = true; running = 1 }

abbrev delivery : Item
delivery = record { topic = topic; payload = payload; received_at = received_at }

abbrev s2 : State
s2 = (admit topic payload received_at false s1).1

-- The rest of the call of Admit.
abbrev a1 : State
a1 = count_accepted ([] ++ (item_counted ∷ [])) s2

abbrev a2 : State
a2 = read_depth [] [] a1

abbrev a3 : State
a3 = raise_mark 1 ([] ++ []) a2

abbrev s3 : State
s3 = take delivery [] a3

abbrev begun : State
begun = begin_item ([] ++ (taken delivery ∷ [])) s3

abbrev s4 : State
s4 = commit_item services no_faults delivery (record begun { working = [] ++ [] })

abbrev s5 : State
s5 = acknowledge services received_at none message answer (record s4 { working = [] ++ [] })

abbrev ended : State
ended = end_item ([] ++ []) s5

abbrev s6 : State
s6 = begin_drain ended

abbrev s7 : State
s7 = leave s6

new_run : new_ingress options tables ≡ some s0
unfolding new_ingress
new_run = refl

start_run : start s0 ≡ some s1
unfolding start
start_run = refl

admitting_run :
    (s2.admitting ≡ item_sent ∷ [])
    × (a1.admitting ≡ item_counted ∷ [])
    × (a2.admitting ≡ depth_read 1 ∷ [])
    × (a3.queue ≡ delivery ∷ [])
    × (a3.running ≡ 1)
    × (a3.working ≡ [])
    × (s3.working ≡ received delivery ∷ [])
    × (begun.working ≡ taken delivery ∷ [])
unfolding admit admit_topic enqueue parse_topic valid_gateway_id valid_sensor_id split_on bytes_eq
    count_accepted read_depth raise_mark begin_item end_item
admitting_run = (refl, refl, refl, refl, refl, refl, refl, refl)

held_run : s4.working ≡ persisted message answer ∷ []
unfolding admit admit_topic enqueue parse_topic valid_gateway_id valid_sensor_id split_on bytes_eq
    count_accepted read_depth raise_mark begin_item end_item commit_item commit_valid validate
    validate_limits decode_batch decode_object decode_identity decode_content match_topic
    decode_samples decode_int64 decode_int32 decode_string is_null valid_message_id validate_range
    check_sequence check_times check_future parse_measured_at valid_calendar_year ◌+ℤ◌ ◌*ℤ◌ ◌-ℤ◌
    wrap64 add64 sub64 mul64 expand_from persist finish ledger_metadata metadata_of inconsistent
    transaction run resolve_resource insert_telemetry_ledger insert_or_classify find_row write_rest
    apply_reported_state new_candidate update_state state_advances advance append_interval
    after_persist identity_matches
held_run = refl

end_run :
    (s6.stopping ≡ true)
    × (s6.queue ≡ [])
    × (length s6.working ≡ 0)
    × (s6.running ≡ 1)
    × (drained s7 ≡ true)
    × (length s5.deliveries ≡ 1)
    × (s6.started ≡ true)
    × (s5.working ≡ ending ∷ [])
    × (ended.admitting ≡ [])
    × (ended.counters.queue_high_water ≡ 1)
unfolding admit admit_topic enqueue parse_topic valid_gateway_id valid_sensor_id split_on bytes_eq
    count_accepted read_depth raise_mark begin_item count_commit end_item commit_item commit_valid
    validate validate_limits decode_batch decode_object decode_identity decode_content match_topic
    decode_samples decode_int64 decode_int32 decode_string is_null valid_message_id validate_range
    check_sequence check_times check_future parse_measured_at valid_calendar_year ◌+ℤ◌ ◌*ℤ◌ ◌-ℤ◌
    wrap64 add64 sub64 mul64 expand_from persist finish ledger_metadata metadata_of inconsistent
    transaction run resolve_resource insert_telemetry_ledger insert_or_classify find_row write_rest
    apply_reported_state new_candidate update_state state_advances advance append_interval
    after_persist identity_matches drained begin_drain stop_admission acknowledge send_ack
    publish_wire publish new_commit_ack
end_run = (refl, refl, refl, refl, refl, refl, refl, refl, refl, refl)

until_taken : Steps services s0 s3
until_taken =
    let admitted =
      next (next here (starts s1 start_run)) (admits topic payload received_at false) in
    let counted = next admitted (counts [] [] admitting_run.0) in
    let observed_depth = next counted (observes [] [] admitting_run.1) in
    let returned = next observed_depth (raises 1 [] [] admitting_run.2) in
    next returned (
      takes delivery [] admitting_run.3 (omega (arith, ap length admitting_run.5, admitting_run.4)))

until_ack : Steps services s0 s5
until_ack =
    next
      (next (next until_taken (begins delivery [] [] admitting_run.6))
        (commits no_faults delivery [] [] admitting_run.7))
      (acknowledges received_at none message answer [] [] held_run)

until_drain : Steps services s0 s6
until_drain = next (next until_ack (ends [] [] end_run.7)) (drains end_run.8)

until_end : Steps services s0 s7
until_end = next until_drain (leaves end_run.0 end_run.1 (omega (arith, end_run.2, end_run.3)))

ingress-Counted_example : Counted s5
ingress-Counted_example = ingress-Counted services options tables s0 s5 new_run until_ack

drained_complete_example :
    (length s7.queue ≡ 0) × (length s7.working ≡ 0) × (s7.counters.accepted ≡ outcomes s7.counters)
drained_complete_example =
    drained_complete services options tables s0 s7 new_run until_end end_run.4

ack_after_commit_example : All (Backed services s5.db) s5.deliveries
ack_after_commit_example = ack_after_commit services options tables s0 s5 new_run until_ack

last_step : Steps services s6 s7
last_step = next here (leaves end_run.0 end_run.1 (omega (arith, end_run.2, end_run.3)))

worker_steps_bounded_example : worker_steps last_step + left_to_do s7 ≤ left_to_do s6
worker_steps_bounded_example = worker_steps_bounded services s6 s7 last_step end_run.6 end_run.0

abbrev surroundings : Surroundings
surroundings = record { faults = λ s. no_faults; now = λ s. received_at; answer = λ s. none }

workers_empty_example : Empties services surroundings s6
workers_empty_example =
    workers_empty services surroundings options tables s0 s6 new_run until_drain end_run.0
