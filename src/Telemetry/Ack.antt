-- ===== src/Telemetry/Ack.antt =====
-- src/internal/telemetry/ack.go: the application ACK of a confirmed commit.
use project1_iot_server.Clock.{Time, is_zero, valid_calendar_year}
use project1_iot_server.Identifier.{valid_gateway_id}
use project1_iot_server.Uuid.{Uuid, UuidLib, valid_message_id}
use project1_iot_server.Telemetry.Errors.{Result, ok, invalid_payload_error, ◌>>◌, reject_if}
use project1_iot_server.Prelude.{Bool, true, false, not, ◌∷◌, ◌++◌, Bytes, codes}

-- CommitOutcome
pub data CommitOutcome : Type 0 where
  outcome_unconfirmed committed duplicate_committed : CommitOutcome

abbrev pub is_confirmed : CommitOutcome → Bool
is_confirmed outcome_unconfirmed = false
is_confirmed committed = true
is_confirmed duplicate_committed = true

-- CommitACK. Its version, type and status are constants: 1, "telemetry_ack" and "committed".
pub record CommitAck : Type 0 where
  pub message_id : Uuid
  pub committed_at : Time

abbrev pub ack_topic : UuidLib → Bytes → Uuid → Bytes
ack_topic u gateway_id id =
    codes "gateways" ++ (b'/' ∷ gateway_id ++ (b'/' ∷ codes "acks" ++ (b'/' ∷ u.format id)))

-- NewCommitACK
unfoldable pub new_commit_ack :
    UuidLib → Bytes → Uuid → CommitOutcome → Time → Result (Bytes × CommitAck)
new_commit_ack u gateway_id id outcome confirmed_at = do
  reject_if (not (valid_gateway_id gateway_id)) (invalid_payload_error "gateway_id")
  reject_if (not (valid_message_id u id)) (invalid_payload_error "message_id")
  reject_if (not (is_confirmed outcome)) (invalid_payload_error "outcome")
  reject_if (is_zero confirmed_at) (invalid_payload_error "committed_at")
  reject_if (not (valid_calendar_year confirmed_at)) (invalid_payload_error "committed_at")
  ok (ack_topic u gateway_id id, record { message_id = id; committed_at = confirmed_at })
