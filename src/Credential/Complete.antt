-- ===== src/Credential/Complete.antt =====
-- CompleteOperation of src/internal/mqttcredential/model.go.
pub mod Outcomes
pub mod Sound
pub mod Life
pub mod Admitted
use project1_iot_server.Clock.{Time, is_zero, before}
use project1_iot_server.Credential.{
  Code, invalid_request, Answer, refused, done, ◌>>=◌, ◌>>◌, refuse_when, fails, Action, provision,
  revoke, reset, CredentialStatus, credential_empty, credential_active, credential_revoked,
  credential_failed, credential_recovery_needed, OperationStatus, operation_pending,
  operation_succeeded, operation_failed, operation_recovery_needed, OperationPhase, phase_finalize,
  phase_recovery, ExecutionOutcome, verified_success, unchanged_failure, needs_recovery,
  maintenance_closed, other_outcome, eq_action,
}
use project1_iot_server.Credential.Operation.{
  Evidence, CredentialSnapshot, Operation, is_some, has_status, unproven, validate_historical,
  terminal,
}
use project1_iot_server.Prelude.{
  Bool, true, false, not, ◌&&◌, ◌||◌, Option, none, some, ℤ, leb_ℤ, eqb_ℤ,
}

pub record Completion : Type 0 where
  pub operation : Operation
  pub credential : CredentialSnapshot

-- Whether a credential has this status.
abbrev pub is_active : CredentialStatus → Bool
is_active credential_active = true
is_active _ = false

abbrev pub is_closed : CredentialStatus → Bool
is_closed credential_revoked = true
is_closed credential_failed = true
is_closed _ = false

-- The first guard: a live operation and a time that is not before it.
unfoldable pub not_completable : Operation → Time → Bool
unfolding validate_historical terminal
not_completable o now =
    fails (validate_historical o)
    || terminal o
    || is_zero now
    || before now o.created_at
    || before now o.updated_at

-- The guards on the previous credential.
unfoldable pub bad_start : Operation → Option CredentialSnapshot → Bool
bad_start o none = not (eq_action o.action provision)
bad_start o (some p) =
    not (eq_action o.action provision)
    && not (is_active p.status)
    && not (is_some o.replacement_predecessor_id)
    && not (eq_action o.action reset)

unfoldable pub bad_version : Operation → Option CredentialSnapshot → Bool
bad_version o none = false
bad_version o (some p) =
    eq_action o.action provision && not (is_closed p.status)
    || eq_action o.action revoke && not (eqb_ℤ o.credential_version p.credential_version)
    || not (eq_action o.action revoke) && leb_ℤ o.credential_version p.credential_version

-- The credential before the outcome.
abbrev pub base_state : Operation → Option CredentialSnapshot → CredentialSnapshot
base_state o none = record {
  status = credential_empty;
  credential_version = o.credential_version;
  activated_at = none;
  revoked_at = none;
}
base_state o (some p) = p

-- The operation after its outcome.
abbrev pub with_outcome :
    Operation
    → OperationStatus
    → OperationPhase
    → Option Time
    → Option Code
    → Evidence
    → Time
    → Operation
with_outcome o s p completed code e now = record o {
  status = s;
  phase = p;
  completed_at = completed;
  error_code = code;
  evidence = e;
  updated_at = now;
}

abbrev pub succeeded_operation : Operation → Evidence → Time → Operation
succeeded_operation o e now =
    with_outcome o operation_succeeded phase_finalize (some now) none e now

abbrev pub failed_operation : Operation → Evidence → Time → Operation
failed_operation o e now =
    with_outcome o operation_failed phase_finalize (some now) o.error_code e now

abbrev pub uncertain_operation : Operation → Evidence → Time → Operation
uncertain_operation o e now =
    with_outcome o operation_recovery_needed phase_recovery none o.error_code e now

abbrev pub activated : CredentialSnapshot → Action → ℤ → Time → CredentialSnapshot
activated p revoke version now = record p {
  status = credential_revoked;
  credential_version = version;
  revoked_at = some now;
}
activated p _ version now = record {
  status = credential_active;
  credential_version = version;
  activated_at = some now;
  revoked_at = none;
}

abbrev pub failed_state : Option CredentialSnapshot → CredentialSnapshot → CredentialSnapshot
failed_state none s = record s { status = credential_failed }
failed_state (some p) s = s

abbrev pub no_evidence : Evidence → Bool
no_evidence e = not (e.ram_applied || e.snapshot_observed || e.fresh_positive_verified)

-- Observations of one operation are never discarded.
abbrev pub both_observed : Evidence → Evidence → Evidence
both_observed e f = record {
  ram_applied = e.ram_applied || f.ram_applied;
  snapshot_observed = e.snapshot_observed || f.snapshot_observed;
  fresh_positive_verified = e.fresh_positive_verified || f.fresh_positive_verified;
}

-- The switch on the outcome.
unfoldable pub by_outcome : Operation → ExecutionOutcome → Evidence → Time → Answer Completion
unfolding unproven
by_outcome o verified_success e now = do
  refuse_when invalid_request (unproven o.execution_contract o.action e)
  done record {
    operation = succeeded_operation o e now;
    credential = activated (base_state o o.previous) o.action o.credential_version now;
  }
by_outcome o unchanged_failure e now = do
  refuse_when invalid_request (
      not (has_status operation_pending o.status)
      || not (no_evidence o.evidence)
      || not (no_evidence e))
  done record {
    operation = failed_operation o e now;
    credential = failed_state o.previous (base_state o o.previous);
  }
by_outcome o needs_recovery e now = done record {
  operation = uncertain_operation o (both_observed e o.evidence) now;
  credential = record (base_state o o.previous) { status = credential_recovery_needed };
}
by_outcome o maintenance_closed e now = refused invalid_request
by_outcome o (other_outcome s) e now = refused invalid_request

-- CompleteOperation
unfoldable pub complete_operation :
    Operation → ExecutionOutcome → Evidence → Time → Answer Completion
complete_operation o outcome e now = do
  refuse_when invalid_request (not_completable o now)
  refuse_when invalid_request (bad_start o o.previous)
  refuse_when invalid_request (bad_version o o.previous)
  by_outcome o outcome e now
