-- ===== src/Credential/Reset/Eligible.antt =====
-- What eligibility for a reset means, for src/internal/mqttcredential/reset_contract.go.
use project1_iot_server.Credential.Complete.Sound.{progress-parts}
use project1_iot_server.Credential.Replay.{Metadata}
use project1_iot_server.Credential.Reset.{
  expected_version, other_operation_shown, transient, is_active, by_reason, check_reset_eligibility,
}
use project1_iot_server.Credential.{
  invalid_request, credential_conflict, done, Action, provision, rotate, revoke, reset,
  other_action, CredentialStatus, credential_empty, credential_provisioning, credential_active,
  credential_rotating, credential_revoking, credential_revoked, credential_failed,
  credential_recovery_needed, other_credential, OperationStatus, operation_pending,
  operation_succeeded, operation_failed, operation_recovery_needed, operation_resolved_by_recovery,
  other_operation, ResetReason, recovery_after_unknown, lost_secret_recovery, other_reset_reason,
  validate_reset_reason, eq_action, >>-eq-done, refuse_when-eq-done,
}
use project1_iot_server.Credential.Operation.{
  is_nil, CredentialSnapshot, Operation, is_some, has_status, unproven, validate_progress,
  validate_historical,
}
use project1_iot_server.Prelude.{
  ◌≡◌, refl, ◌⊎◌, inl, inr, true, false, not, ◌&&◌, ◌||◌, Option, none, some, arith, eqb_ℤ,
  eqb_ℤ→eq, bytes_eq→eq,
}

-- Why an operation may be reset: its end is unknown, or its secret is lost though the broker has it.
pub data Eligible (current : Metadata) (op : Operation) : ResetReason → Type 0 where
  end_unknown :
      (op.status ≡ operation_pending) ⊎ (op.status ≡ operation_recovery_needed)
      → transient current.status ≡ true
      → Eligible current op recovery_after_unknown
  secret_lost :
      op.status ≡ operation_succeeded
      → op.evidence.ram_applied ≡ true
      → op.evidence.fresh_positive_verified ≡ true
      → current.status ≡ credential_active
      → current.credential_version ≡ op.credential_version
      → Eligible current op lost_secret_recovery

live_status :
    (s : OperationStatus)
    → (not (has_status operation_pending s) && not (has_status operation_recovery_needed s)) ≡ false
    → (s ≡ operation_pending) ⊎ (s ≡ operation_recovery_needed)
live_status operation_pending h = inl refl
live_status operation_recovery_needed h = inr refl
live_status operation_succeeded h = cc
live_status operation_failed h = cc
live_status operation_resolved_by_recovery h = cc
live_status (other_operation s) h = cc

success_status :
    (s : OperationStatus) → has_status operation_succeeded s ≡ true → s ≡ operation_succeeded
success_status operation_succeeded h = refl
success_status operation_pending h = cc
success_status operation_recovery_needed h = cc
success_status operation_failed h = cc
success_status operation_resolved_by_recovery h = cc
success_status (other_operation s) h = cc

active_status : (s : CredentialStatus) → is_active s ≡ true → s ≡ credential_active
active_status credential_active h = refl
active_status credential_empty h = cc
active_status credential_provisioning h = cc
active_status credential_rotating h = cc
active_status credential_revoking h = cc
active_status credential_revoked h = cc
active_status credential_failed h = cc
active_status credential_recovery_needed h = cc
active_status (other_credential s) h = cc

success_proven :
    (o : Operation)
    → validate_progress o ≡ done tt
    → o.status ≡ operation_succeeded
    → unproven o.execution_contract o.action o.evidence ≡ false
unfolding validate_progress
success_proven o h e = ground arith

applied_lem :
    (o : Operation)
    → unproven o.execution_contract o.action o.evidence ≡ false
    → o.evidence.ram_applied ≡ true
unfolding unproven
applied_lem o h = ground arith

-- An action that issues a password is no revocation, so a success has logged in.
issuing_fresh :
    (o : Operation) (a : Action)
    → (not (eq_action a provision) && not (eq_action a rotate) && not (eq_action a reset)) ≡ false
    → unproven o.execution_contract a o.evidence ≡ false
    → o.evidence.fresh_positive_verified ≡ true
unfolding unproven
issuing_fresh o revoke h k = cc
issuing_fresh o (other_action s) h k = cc
issuing_fresh o provision h k = ground arith
issuing_fresh o rotate h k = ground arith
issuing_fresh o reset h k = ground arith

version_shown :
    (o : Operation) (p : Option CredentialSnapshot)
    → o.status ≡ operation_succeeded
    → expected_version o p ≡ o.credential_version
unfolding expected_version
version_shown o none e = refl
version_shown o (some p) e = rw e refl

by_reason-Eligible :
    (current : Metadata) (op : Operation) (reason : ResetReason)
    → validate_progress op ≡ done tt
    → eqb_ℤ current.credential_version (expected_version op op.previous) ≡ true
    → by_reason current op reason ≡ done tt
    → Eligible current op reason
unfolding by_reason expected_version
by_reason-Eligible current op recovery_after_unknown h v k =
    let (s, t) =
      refuse_when-eq-done credential_conflict
        (not (has_status operation_pending op.status)
          && not (has_status operation_recovery_needed op.status))
        _ k in
    end_unknown (live_status op.status s) (ground arith)
by_reason-Eligible current op lost_secret_recovery h v k =
    let (issued, k1) =
      refuse_when-eq-done credential_conflict
        (not (has_status operation_succeeded op.status)
          || not (eq_action op.action provision)
            && not (eq_action op.action rotate)
            && not (eq_action op.action reset))
        _ k in
    let ended_well = success_status op.status (ground arith) in
    let proof = success_proven op h ended_well in
    secret_lost ended_well (applied_lem op proof) (issuing_fresh op op.action (ground arith) proof)
      (active_status current.status (ground arith))
      (eqb_ℤ→eq _ _ (ground (arith, version_shown op op.previous ended_well)))
by_reason-Eligible current op (other_reset_reason s) h v k = cc

-- A reset is found eligible only for a valid operation that the metadata shows as the last one of its
-- Gateway and that no recovery has closed. With the reason of an unknown end it is pending or in need of
-- recovery, and so is the credential in transition; with the reason of a lost secret it has succeeded
-- with the new password applied and used, and the credential is active in the same version.
pub check_reset_eligibility-Eligible :
    (current : Metadata) (op : Operation) (reason : ResetReason)
    → check_reset_eligibility current op reason ≡ done tt
    → (validate_historical op ≡ done tt)
      × (op.recovery_id ≡ none)
      × (current.last_operation_id ≡ op.operation_id)
      × (current.gateway_id ≡ op.gateway_id)
      × Eligible current op reason
unfolding check_reset_eligibility other_operation_shown
check_reset_eligibility-Eligible current op reason h =
    let (known, h1) = >>-eq-done (validate_reset_reason reason) _ h in
    let (ids, h2) =
      refuse_when-eq-done invalid_request
        (is_nil op.operation_id || is_nil current.last_operation_id) _ h1 in
    let (shown, h3) =
      refuse_when-eq-done credential_conflict (other_operation_shown current op) _ h2 in
    let (version, h4) =
      refuse_when-eq-done credential_conflict
        (not (eqb_ℤ current.credential_version (expected_version op op.previous))) _ h3 in
    let (valid, h5) = >>-eq-done (validate_historical op) _ h4 in
    let (open_end, h6) = refuse_when-eq-done credential_conflict (is_some op.recovery_id) _ h5 in
    (
      valid,
      ground arith,
      bytes_eq→eq _ _ (ground arith),
      bytes_eq→eq _ _ (ground arith),
      by_reason-Eligible current op reason (progress-parts op valid) (ground arith) h6,
    )
