-- ===== src/Credential/Reset.antt =====
-- CheckResetEligibility of src/internal/mqttcredential/reset_contract.go.
pub mod Eligible
use project1_iot_server.Credential.Replay.{Metadata}
use project1_iot_server.Credential.{
  invalid_request, credential_conflict, Answer, refused, ◌>>=◌, ◌>>◌, refuse_when, provision,
  rotate, reset, CredentialStatus, credential_provisioning, credential_active, credential_rotating,
  credential_revoking, credential_recovery_needed, operation_pending, operation_succeeded,
  operation_recovery_needed, ResetReason, recovery_after_unknown, lost_secret_recovery,
  other_reset_reason, validate_reset_reason, eq_action, eq_operation_status,
}
use project1_iot_server.Credential.Operation.{
  is_nil, CredentialSnapshot, Operation, is_some, has_status, validate_historical,
}
use project1_iot_server.Prelude.{
  Bool, true, false, not, ◌&&◌, ◌||◌, Option, none, some, if◌then◌else◌, ℤ, eqb_ℤ, bytes_eq,
}

-- The version that the metadata must show.
unfoldable pub expected_version : Operation → Option CredentialSnapshot → ℤ
expected_version o none = o.credential_version
expected_version o (some p) =
    if has_status operation_recovery_needed o.status
    then p.credential_version
    else o.credential_version

unfoldable pub other_operation_shown : Metadata → Operation → Bool
other_operation_shown current op =
    not (bytes_eq current.last_operation_id op.operation_id)
    || not (bytes_eq current.gateway_id op.gateway_id)
    || not (eq_operation_status current.operation_status op.status)

abbrev pub transient : CredentialStatus → Bool
transient credential_provisioning = true
transient credential_rotating = true
transient credential_revoking = true
transient credential_recovery_needed = true
transient _ = false

abbrev pub is_active : CredentialStatus → Bool
is_active credential_active = true
is_active _ = false

-- The switch on the reason.
unfoldable pub by_reason : Metadata → Operation → ResetReason → Answer (Unit {0})
by_reason current op recovery_after_unknown = do
  refuse_when credential_conflict (
      not (has_status operation_pending op.status)
      && not (has_status operation_recovery_needed op.status))
  refuse_when credential_conflict (not (transient current.status))
by_reason current op lost_secret_recovery = do
  refuse_when credential_conflict (
      not (has_status operation_succeeded op.status)
      || not (eq_action op.action provision)
        && not (eq_action op.action rotate)
        && not (eq_action op.action reset))
  refuse_when credential_conflict (
      not (is_active current.status)
      || not (has_status operation_succeeded current.operation_status))
by_reason current op (other_reset_reason s) = refused invalid_request

-- CheckResetEligibility
unfoldable pub check_reset_eligibility : Metadata → Operation → ResetReason → Answer (Unit {0})
unfolding validate_reset_reason validate_historical expected_version other_operation_shown by_reason
check_reset_eligibility current op reason = do
  validate_reset_reason reason
  refuse_when invalid_request (is_nil op.operation_id || is_nil current.last_operation_id)
  refuse_when credential_conflict (other_operation_shown current op)
  refuse_when credential_conflict
      (not (eqb_ℤ current.credential_version (expected_version op op.previous)))
  validate_historical op
  refuse_when credential_conflict (is_some op.recovery_id)
  by_reason current op reason
