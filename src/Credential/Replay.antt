-- ===== src/Credential/Replay.antt =====
-- ReplayOperation, Metadata and MutationResult of src/internal/mqttcredential/model.go.
pub mod Completed
use project1_iot_server.Uuid.{Uuid}
use project1_iot_server.Clock.{Time}
use project1_iot_server.Credential.{
  Code, invalid_request, operation_in_progress, idempotency_conflict, recovery_required, Answer,
  refused, done, ◌>>=◌, ◌>>◌, refuse_when, fails, revoke, CredentialStatus, credential_revoked,
  OperationStatus, operation_pending, operation_succeeded, operation_recovery_needed,
  operation_resolved_by_recovery, eq_action,
}
use project1_iot_server.Credential.Operation.{
  MutationInput, validate_mutation_input, Operation, has_status, validate,
}
use project1_iot_server.Prelude.{
  Bool, true, false, not, ◌&&◌, ◌||◌, Option, none, some, if◌then◌else◌, ℤ, Bytes, bytes_eq,
}

pub record Metadata : Type 0 where
  pub gateway_id : Bytes
  pub username : Bytes
  pub credential_version : ℤ
  pub status : CredentialStatus
  pub last_operation_id : Uuid
  pub operation_status : OperationStatus
  pub activated_at : Option Time
  pub revoked_at : Option Time
  pub last_error_code : Option Code

pub data NextAction : Type 0 where
  no_next_action provision_again rotate_again : NextAction

pub record MutationResult : Type 0 where
  pub metadata : Metadata
  pub operation_id : Uuid
  pub secret_returned : Bool
  pub next_action : NextAction
  pub replayed_status : OperationStatus
  pub error_code : Option Code

-- The test for a conflict.
unfoldable pub other_request : Operation → Uuid → MutationInput → Bool
other_request o actor input =
    not (bytes_eq o.actor_user_id actor)
    || not (bytes_eq o.idempotency_key input.idempotency_key)
    || not (bytes_eq o.gateway_id input.gateway_id)
    || not (eq_action o.action input.action)

abbrev is_revoked : CredentialStatus → Bool
is_revoked credential_revoked = true
is_revoked _ = false

abbrev next_action_of : Operation → Metadata → NextAction
next_action_of o current =
    if has_status operation_succeeded o.status
      && not (eq_action o.action revoke)
      && not (is_revoked current.status)
    then rotate_again
    else (if is_revoked current.status then provision_again else no_next_action)

-- The switch on the status.
unfoldable pub unresolved : OperationStatus → Answer (Unit {0})
unresolved operation_pending = refused operation_in_progress
unresolved operation_recovery_needed = refused recovery_required
unresolved _ = done tt

abbrev pub resolved_result : Operation → Metadata → MutationResult
resolved_result o current = record {
  metadata = current;
  operation_id = o.operation_id;
  secret_returned = false;
  next_action = provision_again;
  replayed_status = operation_resolved_by_recovery;
  error_code = none;
}

abbrev pub ended_result : Operation → Metadata → MutationResult
ended_result o current = record {
  metadata = current;
  operation_id = o.operation_id;
  secret_returned = false;
  next_action = next_action_of o current;
  replayed_status = o.status;
  error_code = o.error_code;
}

unfoldable pub replay_matching : Operation → Metadata → Option Uuid → Answer MutationResult
unfolding unresolved
replay_matching o current (some r) = do
  refuse_when invalid_request (not (bytes_eq current.gateway_id o.gateway_id))
  done (resolved_result o current)
replay_matching o current none = do
  unresolved o.status
  refuse_when invalid_request (not (bytes_eq current.gateway_id o.gateway_id))
  done (ended_result o current)

-- ReplayOperation
unfoldable pub replay_operation :
    Operation → Uuid → MutationInput → Metadata → Answer MutationResult
unfolding validate_mutation_input other_request validate replay_matching
replay_operation o actor input current = do
  refuse_when invalid_request (fails (validate_mutation_input actor input))
  refuse_when idempotency_conflict (other_request o actor input)
  validate o
  replay_matching o current o.recovery_id
