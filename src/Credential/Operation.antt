-- ===== src/Credential/Operation.antt =====
-- Operation, MutationInput and ResetInput of src/internal/mqttcredential/model.go and
-- reset_contract.go, with their validation.
use project1_iot_server.Identifier.{valid_gateway_id}
use project1_iot_server.Uuid.{Uuid, uuid_nil}
use project1_iot_server.Clock.{Time, is_zero, before}
use project1_iot_server.Credential.{
  Code, invalid_request, Answer, refused, ◌>>◌, refuse_when, fails, Action, rotate, revoke, reset,
  ExecutionContract, contract_empty, CredentialStatus, OperationStatus, operation_pending,
  operation_succeeded, operation_failed, operation_recovery_needed, OperationPhase, DeliveryStatus,
  ResetReason, validate_contract, validate_action, validate_credential_status,
  validate_operation_status, validate_phase, validate_delivery, validate_reset_reason, eq_action,
  is_simplified, eq_operation_status,
}
use project1_iot_server.Prelude.{
  Bool, true, false, not, ◌&&◌, ◌||◌, Option, none, some, if◌then◌else◌, ℤ, pos, leb_ℤ, Bytes,
  bytes_eq,
}

abbrev pub is_nil : Uuid → Bool
is_nil id = bytes_eq id uuid_nil

pub record MutationInput : Type 0 where
  pub gateway_id : Bytes
  pub idempotency_key : Uuid
  pub action : Action

pub record ResetInput : Type 0 where
  pub gateway_id : Bytes
  pub idempotency_key : Uuid
  pub reason : ResetReason

-- ValidateMutationInput, ValidateResetInput
unfoldable pub validate_mutation_input : Uuid → MutationInput → Answer (Unit {0})
validate_mutation_input actor input = do
  refuse_when invalid_request
      (is_nil actor || is_nil input.idempotency_key || not (valid_gateway_id input.gateway_id))
  validate_action input.action

unfoldable pub validate_reset_input : Uuid → ResetInput → Answer (Unit {0})
validate_reset_input actor input = do
  refuse_when invalid_request
      (is_nil actor || is_nil input.idempotency_key || not (valid_gateway_id input.gateway_id))
  validate_reset_reason input.reason

-- VerificationEvidence
pub record Evidence : Type 0 where
  pub ram_applied : Bool
  pub snapshot_observed : Bool
  pub fresh_positive_verified : Bool

pub record CredentialSnapshot : Type 0 where
  pub status : CredentialStatus
  pub credential_version : ℤ
  pub activated_at : Option Time
  pub revoked_at : Option Time

pub record Operation : Type 0 where
  pub operation_id : Uuid
  pub actor_user_id : Uuid
  pub gateway_id : Bytes
  pub idempotency_key : Uuid
  pub action : Action
  pub credential_version : ℤ
  pub status : OperationStatus
  pub phase : OperationPhase
  pub evidence : Evidence
  pub delivery_status : DeliveryStatus
  pub created_at : Time
  pub updated_at : Time
  pub completed_at : Option Time
  pub previous : Option CredentialSnapshot
  pub error_code : Option Code
  pub recovery_id : Option Uuid
  pub replacement_predecessor_id : Option Uuid
  pub execution_contract : ExecutionContract
  pub reset_predecessor_id : Option Uuid
  pub reset_reason : Option ResetReason

abbrev pub is_some {ℓ} : {A : Type ℓ} → Option A → Bool
is_some none = false
is_some (some a) = true

abbrev pub has_status : OperationStatus → OperationStatus → Bool
has_status s t = eq_operation_status t s

-- The tests of ValidateHistorical on the predecessors.
unfoldable pub bad_replacement : Uuid → Action → Option Uuid → Bool
bad_replacement id action none = false
bad_replacement id action (some p) = is_nil p || bytes_eq p id || not (eq_action action rotate)

unfoldable pub bad_contract : ExecutionContract → Bool
unfolding validate_contract
bad_contract contract_empty = false
bad_contract c = fails (validate_contract c)

unfoldable pub bad_reset_link : Uuid → Option Uuid → Option ResetReason → Bool
unfolding validate_reset_reason
bad_reset_link id (some p) (some r) = is_nil p || bytes_eq p id || fails (validate_reset_reason r)
bad_reset_link id _ _ = true

abbrev reset_input : Operation → Option ResetReason → Answer (Unit {0})
reset_input o none = refused invalid_request
reset_input o (some r) =
    validate_reset_input o.operation_id
      record { gateway_id = o.gateway_id; idempotency_key = o.idempotency_key; reason = r }

-- The branch of ValidateHistorical for ActionReset, which has tested that there is a reason, and the
-- other one.
unfoldable pub validate_reset_operation : Operation → Answer (Unit {0})
validate_reset_operation o = do
  refuse_when invalid_request (not (is_simplified o.execution_contract))
  refuse_when invalid_request (bad_reset_link o.operation_id o.reset_predecessor_id o.reset_reason)
  refuse_when invalid_request (is_some o.recovery_id || is_some o.replacement_predecessor_id)
  reset_input o o.reset_reason

unfoldable pub validate_mutation_operation : Operation → Answer (Unit {0})
validate_mutation_operation o = do
  refuse_when invalid_request (is_some o.reset_predecessor_id || is_some o.reset_reason)
  validate_mutation_input o.operation_id
      record { gateway_id = o.gateway_id; idempotency_key = o.idempotency_key; action = o.action }

unfoldable pub validate_by_action : Operation → Answer (Unit {0})
validate_by_action o =
    if eq_action o.action reset then validate_reset_operation o else validate_mutation_operation o

unfoldable pub bad_recovery : OperationStatus → Option Uuid → Bool
bad_recovery s none = false
bad_recovery s (some r) =
    is_nil r || not (has_status operation_pending s) && not (has_status operation_recovery_needed s)

-- Whether a status is that of an operation that has ended.
unfoldable pub ended : OperationStatus → Bool
ended s = has_status operation_succeeded s || has_status operation_failed s

abbrev pub differ : Bool → Bool → Bool
differ true b = not b
differ false b = b

unfoldable pub bad_completion : Time → Option Time → Bool
bad_completion created none = false
bad_completion created (some t) = is_zero t || before t created

-- The proof that a success must keep.
unfoldable pub unproven : ExecutionContract → Action → Evidence → Bool
unproven contract action e =
    not e.ram_applied
    || not (is_simplified contract) && not e.snapshot_observed
    || not (eq_action action revoke) && not e.fresh_positive_verified

unfoldable pub bad_previous : Option CredentialSnapshot → Bool
unfolding validate_credential_status
bad_previous none = false
bad_previous (some p) =
    leb_ℤ p.credential_version (pos 0) || fails (validate_credential_status p.status)

-- The tests of ValidateHistorical after the enumerations.
unfoldable pub validate_progress : Operation → Answer (Unit {0})
validate_progress o = do
  refuse_when invalid_request (bad_recovery o.status o.recovery_id)
  refuse_when invalid_request
      (leb_ℤ o.credential_version (pos 0) || differ (ended o.status) (is_some o.completed_at))
  refuse_when invalid_request (bad_completion o.created_at o.completed_at)
  refuse_when invalid_request
      (has_status operation_succeeded o.status && unproven o.execution_contract o.action o.evidence)
  refuse_when invalid_request (bad_previous o.previous)

-- Operation.ValidateHistorical, Operation.Validate
unfoldable pub validate_historical : Operation → Answer (Unit {0})
validate_historical o = do
  refuse_when invalid_request (is_nil o.operation_id)
  refuse_when invalid_request (bad_replacement o.operation_id o.action o.replacement_predecessor_id)
  refuse_when invalid_request (bad_contract o.execution_contract)
  validate_by_action o
  validate_operation_status o.status
  validate_phase o.phase
  validate_delivery o.delivery_status
  validate_progress o

unfoldable pub validate : Operation → Answer (Unit {0})
validate o = do refuse_when invalid_request (is_nil o.actor_user_id); validate_historical o

-- Operation.Terminal
unfoldable pub terminal : Operation → Bool
terminal o = ended o.status || is_some o.recovery_id
