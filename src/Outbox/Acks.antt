-- ===== src/Outbox/Acks.antt =====
-- src/internal/gatewaysim/ack.go: the parser of a commit ACK and the worker that deletes its row.
-- time.Parse is a parameter.
pub mod Deleted
pub mod OwnTopic
use project1_iot_server.Clock.{Time, is_zero}
use project1_iot_server.Uuid.{Uuid, uuid_nil, UuidLib, valid_message_id}
use project1_iot_server.Json.{JsonLib, Fields, field, decode_object, decode_int64, decode_string}
use project1_iot_server.Telemetry.Errors.{
  Error, Result, ok, err, opaque, ◌>>=◌, ◌>>◌, reject_if, or_error,
}
use project1_iot_server.Telemetry.Ack.{CommitAck}
use project1_iot_server.Outbox.{Outbox, Faults, delete_pending}
use project1_iot_server.Prelude.{
  ℕ, suc, ◌+◌, ◌/◌, Bool, true, false, not, ◌||◌, Option, none, some, List, [], ◌∷◌, ◌++◌, ltb,
  ◌==◌, if◌then◌else◌, length, pos, eqb_ℤ, Bytes, codes, bytes_eq, split_on,
}

-- What the program takes from other packages.
pub record Parsers : Type 0 where
  pub json : JsonLib
  pub uuid : UuidLib
  -- time.Parse with the layout RFC3339Nano, in UTC
  pub parse_time : Bytes → Option Time

abbrev pub ack_oversize : Error
ack_oversize = opaque "gatewaysim: ACK exceeds the size bound"

abbrev pub ack_malformed : Error
ack_malformed = opaque "gatewaysim: ACK is not a strict v1 committed telemetry_ack"

abbrev pub ack_bad_topic : Error
ack_bad_topic = opaque "gatewaysim: ACK topic is not the own committed ACK topic"

-- ackFieldNames
abbrev pub ack_field_names : List Bytes
ack_field_names =
    codes "protocol_version"
    ∷ codes "message_type"
    ∷ codes "message_id"
    ∷ codes "status"
    ∷ codes "committed_at"
    ∷ []

abbrev pub own_id : UuidLib → Bytes → Option Uuid → Result Uuid
own_id u segment none = err ack_bad_topic
own_id u segment (some id) =
    if bytes_eq id uuid_nil || not (bytes_eq (u.format id) segment)
    then err ack_bad_topic
    else ok id

-- The checks on the result of strings.Split
unfoldable pub of_ack_segments : UuidLib → Bytes → List Bytes → Result Uuid
of_ack_segments u gateway_id (a ∷ g ∷ b ∷ s ∷ []) =
    if not (bytes_eq a (codes "gateways"))
      || not (bytes_eq b (codes "acks"))
      || not (bytes_eq g gateway_id)
    then err ack_bad_topic
    else own_id u s (u.parse s)
of_ack_segments u gateway_id _ = err ack_bad_topic

-- parseOwnACKTopic
unfoldable pub parse_own_ack_topic : UuidLib → Bytes → Bytes → Result Uuid
parse_own_ack_topic u topic gateway_id = of_ack_segments u gateway_id (split_on b'/' topic)

-- strings.HasSuffix(s, "Z")
abbrev ends_in_z : Bytes → Bool
ends_in_z [] = false
ends_in_z (c ∷ []) = c == b'Z'
ends_in_z (c ∷ d ∷ s) = ends_in_z (d ∷ s)

-- The members of ParseCommitACK, for the identifier of the topic
unfoldable pub check_ack : Parsers → Uuid → Fields → Result CommitAck
check_ack p topic_id fs = do
  version ← or_error (decode_int64 (field (codes "protocol_version") fs)) ack_malformed
  reject_if (not (eqb_ℤ version (pos 1))) ack_malformed
  message_type ← or_error (decode_string p.json (field (codes "message_type") fs)) ack_malformed
  reject_if (not (bytes_eq message_type (codes "telemetry_ack"))) ack_malformed
  status ← or_error (decode_string p.json (field (codes "status") fs)) ack_malformed
  reject_if (not (bytes_eq status (codes "committed"))) ack_malformed
  raw_id ← or_error (decode_string p.json (field (codes "message_id") fs)) ack_malformed
  id ← or_error (p.uuid.parse raw_id) ack_malformed
  reject_if (not (valid_message_id p.uuid id)) ack_malformed
  reject_if (not (bytes_eq id topic_id)) ack_malformed
  raw_time ← or_error (decode_string p.json (field (codes "committed_at") fs)) ack_malformed
  at ← or_error (p.parse_time raw_time) ack_malformed
  reject_if (not (ends_in_z raw_time) || is_zero at) ack_malformed
  ok (record { message_id = id; committed_at = at })

-- ParseCommitACK
unfoldable pub parse_commit_ack : Parsers → Bytes → Bytes → Bytes → Result CommitAck
parse_commit_ack p topic payload gateway_id = do
  reject_if (ltb 1024 (length payload)) ack_oversize
  topic_id ← parse_own_ack_topic p.uuid topic gateway_id
  fs ← or_error (decode_object ack_field_names (p.json.events payload)) ack_malformed
  check_ack p topic_id fs

-- ACKProcessor, with its outbox
pub record Processor : Type 0 where
  pub outbox : Outbox
  pub capacity : ℕ
  pub admissions : List (Bytes × Bytes)
  pub notified : Bool
  pub fatal : Option Error
  pub admitted : ℕ
  pub acknowledged : ℕ
  pub dropped_retained : ℕ
  pub dropped_oversize : ℕ
  pub dropped_full : ℕ
  pub delete_failed : ℕ

-- Admit
unfoldable pub admit_ack : Bytes → Bytes → Bool → Processor → Processor
admit_ack topic payload retained p =
    if retained
    then record p { dropped_retained = suc p.dropped_retained }
    else if ltb 1024 (length payload)
    then record p { dropped_oversize = suc p.dropped_oversize }
    else if ltb (length p.admissions) p.capacity
    then record p {
      admissions = p.admissions ++ ((topic, payload) ∷ []);
      admitted = suc p.admitted;
    }
    else record p { dropped_full = suc p.dropped_full }

-- setFatal, which keeps the first error
abbrev pub set_fatal : Option Error → Error → Option Error
set_fatal none e = some e
set_fatal (some first) e = some first

-- handleAdmission behind DeletePending, by its result
unfoldable pub after_delete : Result Bool → Processor → Processor
after_delete (err e) p = record p {
  delete_failed = suc p.delete_failed;
  fatal = set_fatal p.fatal e;
}
after_delete (ok false) p = p
after_delete (ok true) p = record p { acknowledged = suc p.acknowledged; notified = true }

-- handleAdmission behind the parser
unfoldable pub handle_parsed : Faults → Result CommitAck → Processor → Processor
handle_parsed f (err e) p = p
handle_parsed f (ok ack) p =
    let (deleted, outbox) = delete_pending f p.outbox.gateway_id ack.message_id p.outbox in
    after_delete deleted (record p { outbox = outbox })

-- handleAdmission
unfoldable pub handle_admission : Parsers → Faults → Bytes → Bytes → Processor → Processor
handle_admission l f topic payload p =
    handle_parsed f (parse_commit_ack l topic payload p.outbox.gateway_id) p
