-- ===== src/Tests/Credential.antt =====
-- Concrete operations on a credential.
use project1_iot_server.Credential.Complete.{
  Completion, succeeded_operation, activated, complete_operation, by_outcome, not_completable,
  bad_start, bad_version,
}
use project1_iot_server.Credential.Complete.Sound.{complete_operation-Completed}
use project1_iot_server.Credential.Complete.Outcomes.{Completed}
use project1_iot_server.Credential.Complete.Life.{
  started, completed, AfterCompletions, completions-Settled,
}
use project1_iot_server.Credential.Versions.{
  AllocatedVersion, allocate_version, allocate_version-AllocatedVersion,
}
use project1_iot_server.Credential.Replay.{Metadata, other_request, replay_operation}
use project1_iot_server.Credential.Replay.Completed.{Told, complete-replay}
use project1_iot_server.Credential.Reset.{
  other_operation_shown, expected_version, by_reason, check_reset_eligibility,
}
use project1_iot_server.Credential.Reset.Eligible.{Eligible, check_reset_eligibility-Eligible}
use project1_iot_server.Uuid.{Uuid}
use project1_iot_server.Identifier.{valid_gateway_id}
use project1_iot_server.Credential.{
  credential_recovery_needed, operation_recovery_needed, phase_recovery, phase_finalize,
  operation_succeeded, needs_recovery, credential_rotating, done, verified_success,
  idempotency_conflict, refused, rotate, contract_lifecycle, credential_active, operation_pending,
  phase_intent, delivery_unknown, lost_secret_recovery, validate_contract, validate_action,
  validate_credential_status, validate_operation_status, validate_phase, validate_delivery,
  validate_reset_reason,
}
use project1_iot_server.Credential.Operation.{
  MutationInput, validate_mutation_input, Evidence, CredentialSnapshot, Operation, bad_replacement,
  bad_contract, validate_mutation_operation, validate_by_action, bad_recovery, ended,
  bad_completion, unproven, bad_previous, validate_progress, validate_historical, validate,
  terminal,
}
use project1_iot_server.Prelude.{
  ℕ, ◌≡◌, refl, ◌⊎◌, true, false, none, some, arith, replicate, pos, codes, bytes_eq,
}

abbrev id : ℕ → Uuid
id n = replicate 16 n

abbrev old : CredentialSnapshot
old = record {
  status = credential_active;
  credential_version = pos 1;
  activated_at = some (pos 50);
  revoked_at = none;
}

abbrev nothing_seen : Evidence
nothing_seen = record {
  ram_applied = false;
  snapshot_observed = false;
  fresh_positive_verified = false;
}

abbrev all_seen : Evidence
all_seen = record { ram_applied = true; snapshot_observed = true; fresh_positive_verified = true }

abbrev rotation : Operation
rotation = record {
  operation_id = id 1;
  actor_user_id = id 2;
  gateway_id = codes "gw-1";
  idempotency_key = id 3;
  action = rotate;
  credential_version = pos 2;
  status = operation_pending;
  phase = phase_intent;
  evidence = nothing_seen;
  delivery_status = delivery_unknown;
  created_at = pos 100;
  updated_at = pos 100;
  completed_at = none;
  previous = some old;
  error_code = none;
  recovery_id = none;
  replacement_predecessor_id = none;
  execution_contract = contract_lifecycle;
  reset_predecessor_id = none;
  reset_reason = none;
}

abbrev rotated : Completion
rotated = record {
  operation = succeeded_operation rotation all_seen (pos 200);
  credential = activated old rotate (pos 2) (pos 200);
}

abbrev before_rotation : Completion
before_rotation = record {
  operation = rotation;
  credential = record old { status = credential_rotating };
}

rotation_valid : validate rotation ≡ done tt
unfolding validate bytes_eq bad_replacement bad_contract validate_by_action
    validate_mutation_operation validate_mutation_input valid_gateway_id validate_operation_status
    validate_phase validate_delivery validate_progress bad_recovery ended bad_completion
    bad_previous unproven validate_action validate_contract validate_credential_status
    validate_historical
rotation_valid = refl

rotation_completes : complete_operation rotation verified_success all_seen (pos 200) ≡ done rotated
unfolding complete_operation not_completable terminal bad_start bad_version by_outcome bytes_eq
    bad_replacement bad_contract validate_by_action validate_mutation_operation
    validate_mutation_input valid_gateway_id validate_operation_status validate_phase
    validate_delivery validate_progress bad_recovery ended bad_completion bad_previous unproven
    validate_action validate_contract validate_credential_status validate_historical
rotation_completes = refl

allocate_version-AllocatedVersion_example :
    AllocatedVersion (pos 4) (pos 7) (allocate_version (pos 4) (pos 7))
allocate_version-AllocatedVersion_example =
    allocate_version-AllocatedVersion (pos 4) (pos 7) (omega arith, omega arith)
      (omega arith, omega arith)

complete_operation-Completed_example :
    (validate_historical rotated.operation ≡ done tt) × Completed rotation (pos 200) rotated
complete_operation-Completed_example =
    complete_operation-Completed rotation verified_success all_seen (pos 200) rotated
      rotation_completes

-- The broker is not reached at first, and the rotation is verified later.
abbrev doubted : Completion
doubted = record {
  operation = record rotation {
    status = operation_recovery_needed;
    phase = phase_recovery;
    updated_at = pos 150;
  };
  credential = record old { status = credential_recovery_needed };
}

abbrev recovered : Completion
recovered = record {
  operation = record rotation {
    status = operation_succeeded;
    phase = phase_finalize;
    completed_at = some (pos 200);
    evidence = all_seen;
    updated_at = pos 200;
  };
  credential = record old { credential_version = pos 2; activated_at = some (pos 200) };
}

doubted_completes : complete_operation rotation needs_recovery nothing_seen (pos 150) ≡ done doubted
unfolding complete_operation not_completable terminal bad_start bad_version by_outcome bytes_eq
    bad_replacement bad_contract validate_by_action validate_mutation_operation
    validate_mutation_input valid_gateway_id validate_operation_status validate_phase
    validate_delivery validate_progress bad_recovery ended bad_completion bad_previous unproven
    validate_action validate_contract validate_credential_status validate_historical
doubted_completes = refl

recovered_completes :
    complete_operation doubted.operation verified_success all_seen (pos 200) ≡ done recovered
unfolding complete_operation not_completable terminal bad_start bad_version by_outcome bytes_eq
    bad_replacement bad_contract validate_by_action validate_mutation_operation
    validate_mutation_input valid_gateway_id validate_operation_status validate_phase
    validate_delivery validate_progress bad_recovery ended bad_completion bad_previous unproven
    validate_action validate_contract validate_credential_status validate_historical
recovered_completes = refl

completions-Settled_example : AfterCompletions before_rotation recovered
completions-Settled_example = completions-Settled (
    completed verified_success all_seen (pos 200)
      (completed needs_recovery nothing_seen (pos 150) started doubted_completes)
      recovered_completes)

abbrev request : MutationInput
request = record { gateway_id = codes "gw-1"; idempotency_key = id 3; action = rotate }

abbrev shown : Metadata
shown = record {
  gateway_id = codes "gw-1";
  username = codes "gw-1";
  credential_version = pos 2;
  status = credential_active;
  last_operation_id = id 1;
  operation_status = operation_succeeded;
  activated_at = some (pos 200);
  revoked_at = none;
  last_error_code = none;
}

complete-replay_example :
    ((other_request rotation (id 2) request ≡ true)
      × (replay_operation rotated.operation (id 2) request shown ≡ refused idempotency_conflict))
    ⊎ Told operation_succeeded rotated.operation shown
        (replay_operation rotated.operation (id 2) request shown)
unfolding validate_mutation_input bytes_eq valid_gateway_id validate_action
complete-replay_example =
    complete-replay rotation verified_success all_seen (pos 200) rotated (id 2) request shown
      rotation_valid rotation_completes refl refl

check_reset_eligibility-Eligible_example :
    (validate_historical rotated.operation ≡ done tt)
    × (rotated.operation.recovery_id ≡ none)
    × (shown.last_operation_id ≡ rotated.operation.operation_id)
    × (shown.gateway_id ≡ rotated.operation.gateway_id)
    × Eligible shown rotated.operation lost_secret_recovery
unfolding check_reset_eligibility other_operation_shown expected_version by_reason
    validate_reset_reason bytes_eq bad_replacement bad_contract validate_by_action
    validate_mutation_operation validate_mutation_input valid_gateway_id validate_operation_status
    validate_phase validate_delivery validate_progress bad_recovery ended bad_completion
    bad_previous unproven validate_action validate_contract validate_credential_status
    validate_historical
check_reset_eligibility-Eligible_example =
    check_reset_eligibility-Eligible shown rotated.operation lost_secret_recovery refl
