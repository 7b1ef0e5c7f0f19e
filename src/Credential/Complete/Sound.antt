-- ===== src/Credential/Complete/Sound.antt =====
-- What one CompleteOperation does, for src/internal/mqttcredential/model.go.
use project1_iot_server.Clock.{Time}
use project1_iot_server.Credential.Complete.{
  with_outcome, Completion, not_completable, bad_start, bad_version, complete_operation,
}
use project1_iot_server.Credential.{
  Code, invalid_request, Answer, refused, done, ◌>>◌, refuse_when, OperationStatus,
  operation_succeeded, operation_failed, operation_recovery_needed, OperationPhase, phase_finalize,
  phase_recovery, ExecutionOutcome, validate_operation_status, validate_phase, validate_delivery,
  >>-eq-done, refuse_when-eq-done,
}
use project1_iot_server.Credential.Operation.{
  is_nil, Evidence, Operation, is_some, has_status, bad_replacement, bad_contract,
  validate_reset_operation, validate_mutation_operation, validate_by_action, bad_recovery, ended,
  bad_completion, unproven, validate_progress, validate_historical, terminal,
}
use project1_iot_server.Prelude.{◌≡◌, refl, false, ◌&&◌, Option, none, some, arith}
use project1_iot_server.Credential.Complete.Outcomes.{
  Completed, succeeds, fails_unchanged, stays_uncertain, Proven-unproven, accepted,
  by_outcome-Completed,
}

-- The guards that a completion has passed.
pub complete-parts :
    (o : Operation) (outcome : ExecutionOutcome) (e : Evidence) (now : Time) {c : Completion}
    → complete_operation o outcome e now ≡ done c
    → (not_completable o now ≡ false) × Completed o now c
unfolding complete_operation
complete-parts o outcome e now h =
    let (live, h1) = refuse_when-eq-done invalid_request (not_completable o now) _ h in
    let (start, h2) = refuse_when-eq-done invalid_request (bad_start o o.previous) _ h1 in
    let (version, h3) = refuse_when-eq-done invalid_request (bad_version o o.previous) _ h2 in
    (live, by_outcome-Completed o outcome e now h3)

retain :
    (g : Answer (Unit {0})) (n m : Answer (Unit {0}))
    → (g >> n) ≡ done tt
    → (n ≡ done tt → m ≡ done tt)
    → (g >> m) ≡ done tt
retain (done v) n m h k = k h
retain (refused c) n m h k = cc

replace :
    (g k : Answer (Unit {0})) (n m : Answer (Unit {0}))
    → (g >> n) ≡ done tt
    → k ≡ done tt
    → (n ≡ done tt → m ≡ done tt)
    → (k >> m) ≡ done tt
replace (done v) (done w) n m h e k = k h
replace (done v) (refused c) n m h e k = cc
replace (refused c) g n m h e k = cc

with_progress :
    (o : Operation) (s : OperationStatus) (p : OperationPhase) (completed : Option Time)
    (code : Option Code) (e : Evidence) (now : Time)
    → validate_historical o ≡ done tt
    → validate_operation_status s ≡ done tt
    → validate_phase p ≡ done tt
    → validate_progress (with_outcome o s p completed code e now) ≡ done tt
    → validate_historical (with_outcome o s p completed code e now) ≡ done tt
unfolding validate_historical validate_by_action validate_reset_operation
    validate_mutation_operation
with_progress o s p completed code e now h status phase progress =
    retain (refuse_when invalid_request (is_nil o.operation_id)) _ _ h λ h1.
      retain
        (refuse_when invalid_request
          (bad_replacement o.operation_id o.action o.replacement_predecessor_id))
        _ _ h1
        λ h2. retain (refuse_when invalid_request (bad_contract o.execution_contract)) _ _ h2 λ h3.
          retain (validate_by_action o) _ _ h3 λ h4.
            replace (validate_operation_status o.status) (validate_operation_status s) _ _ h4 status
              λ h5.
                replace (validate_phase o.phase) (validate_phase p) _ _ h5 phase
                  λ h6. retain (validate_delivery o.delivery_status) _ _ h6 λ h7. progress

pub progress-parts :
    (o : Operation) → validate_historical o ≡ done tt → validate_progress o ≡ done tt
unfolding validate_historical
progress-parts o h =
    let (h1, r1) = refuse_when-eq-done invalid_request (is_nil o.operation_id) _ h in
    let (h2, r2) =
      refuse_when-eq-done invalid_request
        (bad_replacement o.operation_id o.action o.replacement_predecessor_id) _ r1 in
    let (h3, r3) = refuse_when-eq-done invalid_request (bad_contract o.execution_contract) _ r2 in
    let (h4, r4) = >>-eq-done (validate_by_action o) _ r3 in
    let (h5, r5) = >>-eq-done (validate_operation_status o.status) _ r4 in
    let (h6, r6) = >>-eq-done (validate_phase o.phase) _ r5 in
    let (h7, r7) = >>-eq-done (validate_delivery o.delivery_status) _ r6 in r7

completed_progress :
    (o : Operation) (s : OperationStatus) (p : OperationPhase) (completed : Option Time)
    (code : Option Code) (e : Evidence) (now : Time)
    → validate_progress o ≡ done tt
    → o.recovery_id ≡ none
    → (ended s ≡ is_some completed)
    → bad_completion o.created_at completed ≡ false
    → (has_status operation_succeeded s && unproven o.execution_contract o.action e) ≡ false
    → validate_progress (with_outcome o s p completed code e now) ≡ done tt
unfolding validate_progress bad_recovery
completed_progress o s p completed code e now h r h1 h2 h3 = ground arith

-- The facts of a live operation and a time.
pub live-parts :
    (o : Operation) (now : Time)
    → not_completable o now ≡ false
    → (validate_historical o ≡ done tt)
      × (o.recovery_id ≡ none)
      × (bad_completion o.created_at (some now) ≡ false)
unfolding not_completable terminal bad_completion
live-parts o now h = (accepted (validate_historical o) (ground arith), ground arith, ground arith)

Completed-validate_historical :
    (o : Operation) (now : Time) {c : Completion}
    → not_completable o now ≡ false
    → Completed o now c
    → validate_historical c.operation ≡ done tt
unfolding validate_operation_status validate_phase ended bad_completion
Completed-validate_historical o now live (succeeds {e} proof after) =
    let (valid, r, t) = live-parts o now live in
    with_progress o operation_succeeded phase_finalize (some now) none e now valid refl refl (
      completed_progress o _ _ _ none e now (progress-parts o valid) r refl t
        (Proven-unproven _ _ _ proof))
Completed-validate_historical o now live (fails_unchanged {e} pending n m after) =
    let (valid, r, t) = live-parts o now live in
    with_progress o operation_failed phase_finalize (some now) o.error_code e now valid refl refl
      (completed_progress o _ _ _ _ e now (progress-parts o valid) r refl t refl)
Completed-validate_historical o now live (stays_uncertain {e} k after) =
    let (valid, r, t) = live-parts o now live in
    with_progress o operation_recovery_needed phase_recovery none o.error_code e now valid refl refl
      (completed_progress o _ _ _ _ e now (progress-parts o valid) r refl refl refl)

-- An operation that CompleteOperation returns is valid again, and it and the credential are those of one
-- of three outcomes. A success is proven by its evidence, and the credential is revoked at that time in
-- the version of the operation for a revocation, and active since that time in that version for any
-- other action; a failure is of a pending operation without any observation, and leaves a previous
-- credential as it was, or a failed one where there was none; an uncertain one keeps each observation
-- and leaves the previous version and times in need of recovery.
pub complete_operation-Completed :
    (o : Operation) (outcome : ExecutionOutcome) (e : Evidence) (now : Time) (c : Completion)
    → complete_operation o outcome e now ≡ done c
    → (validate_historical c.operation ≡ done tt) × Completed o now c
complete_operation-Completed o outcome e now c h =
    let (live, r) = complete-parts o outcome e now h in
    (Completed-validate_historical o now live r, r)
