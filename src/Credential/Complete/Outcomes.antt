-- ===== src/Credential/Complete/Outcomes.antt =====
-- What one CompleteOperation may do, and that its switch on the outcome does one of these things, for
-- src/internal/mqttcredential/model.go.
use project1_iot_server.Clock.{Time}
use mathlib.Core.Path.{subst}
use project1_iot_server.Credential.Complete.{
  no_evidence, Completion, base_state, activated, failed_state, by_outcome,
}
use project1_iot_server.Credential.{
  phase_finalize, phase_recovery, credential_active, credential_revoked, credential_failed,
  invalid_request, Answer, refused, done, fails, Action, provision, rotate, revoke, reset,
  other_action, ExecutionContract, credential_recovery_needed, OperationStatus, operation_pending,
  operation_succeeded, operation_failed, operation_recovery_needed, operation_resolved_by_recovery,
  other_operation, ExecutionOutcome, verified_success, unchanged_failure, needs_recovery,
  maintenance_closed, other_outcome, eq_action, is_simplified, refuse_when-eq-done, done_inj,
}
use project1_iot_server.Credential.Operation.{
  CredentialSnapshot, Evidence, Operation, has_status, unproven,
}
use project1_iot_server.Prelude.{
  ℤ, Option, none, some, ◌≡◌, refl, ◌⊎◌, inl, inr, Bool, true, false, not, ◌&&◌, ◌||◌, arith,
}

-- The proof of a success, on the evidence of an operation: the broker applied it, the snapshot was read
-- back unless the contract is the simplified one, and a new password was used unless it is a revocation.
abbrev pub Proven : ExecutionContract → Action → Evidence → Type 0
Proven contract action e =
    (e.ram_applied ≡ true)
    × ((is_simplified contract ≡ true) ⊎ (e.snapshot_observed ≡ true))
    × ((action ≡ revoke) ⊎ (e.fresh_positive_verified ≡ true))

abbrev pub Implies : Bool → Bool → Type 0
Implies a b = a ≡ true → b ≡ true

-- Nothing that `e` has observed is missing in `f`.
abbrev pub Keeps : Evidence → Evidence → Type 0
Keeps e f =
    Implies e.ram_applied f.ram_applied
    × Implies e.snapshot_observed f.snapshot_observed
    × Implies e.fresh_positive_verified f.fresh_positive_verified

abbrev pub activation : Option CredentialSnapshot → Option Time
activation none = none
activation (some p) = p.activated_at

-- The credential after a success with the version `v` at `now`, by the action: a revocation keeps the
-- time of the activation, and any other action makes the credential active.
abbrev pub AfterSuccess :
    Action → ℤ → Option CredentialSnapshot → Time → CredentialSnapshot → Type 0
AfterSuccess revoke v p now c = c ≡ record {
  status = credential_revoked;
  credential_version = v;
  activated_at = activation p;
  revoked_at = some now;
}
AfterSuccess _ v p now c = c ≡ record {
  status = credential_active;
  credential_version = v;
  activated_at = some now;
  revoked_at = none;
}

-- The credential after a failure: the previous one, or a failed one where there was none.
abbrev pub AfterFailure : ℤ → Option CredentialSnapshot → CredentialSnapshot → Type 0
AfterFailure v none c = c ≡ record {
  status = credential_failed;
  credential_version = v;
  activated_at = none;
  revoked_at = none;
}
AfterFailure v (some p) c = c ≡ p

-- The credential after an uncertain outcome: the previous version and times, in need of recovery.
abbrev pub AfterDoubt : ℤ → Option CredentialSnapshot → CredentialSnapshot → Type 0
AfterDoubt v none c = c ≡ record {
  status = credential_recovery_needed;
  credential_version = v;
  activated_at = none;
  revoked_at = none;
}
AfterDoubt v (some p) c = c ≡ record {
  status = credential_recovery_needed;
  credential_version = p.credential_version;
  activated_at = p.activated_at;
  revoked_at = p.revoked_at;
}

-- What the three accepted outcomes do to the operation and to the credential.
pub data Completed (o : Operation) (now : Time) : Completion → Type 0 where
  succeeds :
      {e : Evidence} {c : CredentialSnapshot}
      → Proven o.execution_contract o.action e
      → AfterSuccess o.action o.credential_version o.previous now c
      → Completed o now record {
        operation = record o {
          status = operation_succeeded;
          phase = phase_finalize;
          completed_at = some now;
          error_code = none;
          evidence = e;
          updated_at = now;
        };
        credential = c;
      }
  fails_unchanged :
      {e : Evidence} {c : CredentialSnapshot}
      → o.status ≡ operation_pending
      → no_evidence o.evidence ≡ true
      → no_evidence e ≡ true
      → AfterFailure o.credential_version o.previous c
      → Completed o now record {
        operation = record o {
          status = operation_failed;
          phase = phase_finalize;
          completed_at = some now;
          error_code = o.error_code;
          evidence = e;
          updated_at = now;
        };
        credential = c;
      }
  stays_uncertain :
      {e : Evidence} {c : CredentialSnapshot}
      → Keeps o.evidence e
      → AfterDoubt o.credential_version o.previous c
      → Completed o now record {
        operation = record o {
          status = operation_recovery_needed;
          phase = phase_recovery;
          completed_at = none;
          error_code = o.error_code;
          evidence = e;
          updated_at = now;
        };
        credential = c;
      }

pub activated-AfterSuccess :
    (o : Operation) (a : Action) (p : Option CredentialSnapshot) (now : Time)
    → AfterSuccess a o.credential_version p now
        (activated (base_state o p) a o.credential_version now)
activated-AfterSuccess o revoke none now = refl
activated-AfterSuccess o revoke (some p) now = refl
activated-AfterSuccess o provision p now = refl
activated-AfterSuccess o rotate p now = refl
activated-AfterSuccess o reset p now = refl
activated-AfterSuccess o (other_action s) p now = refl

failed_state-AfterFailure :
    (o : Operation) (p : Option CredentialSnapshot)
    → AfterFailure o.credential_version p (failed_state p (base_state o p))
failed_state-AfterFailure o none = refl
failed_state-AfterFailure o (some p) = refl

base_state-AfterDoubt :
    (o : Operation) (p : Option CredentialSnapshot)
    → AfterDoubt o.credential_version p
        (record (base_state o p) { status = credential_recovery_needed })
base_state-AfterDoubt o none = refl
base_state-AfterDoubt o (some p) = refl

observed :
    (simple snapshot : Bool)
    → (not simple && not snapshot) ≡ false
    → (simple ≡ true) ⊎ (snapshot ≡ true)
observed true s h = inl refl
observed false s h = inr (ground arith)

logged_in :
    (action : Action) (fresh : Bool)
    → (not (eq_action action revoke) && not fresh) ≡ false
    → (action ≡ revoke) ⊎ (fresh ≡ true)
logged_in revoke f h = inl refl
logged_in provision f h = inr (ground arith)
logged_in rotate f h = inr (ground arith)
logged_in reset f h = inr (ground arith)
logged_in (other_action s) f h = inr (ground arith)

pub unproven-Proven :
    (contract : ExecutionContract) (action : Action) (e : Evidence)
    → unproven contract action e ≡ false
    → Proven contract action e
unfolding unproven
unproven-Proven contract action e h = (
  ground arith,
  observed (is_simplified contract) e.snapshot_observed (ground arith),
  logged_in action e.fresh_positive_verified (ground arith),
)

pub Proven-unproven :
    (contract : ExecutionContract) (action : Action) (e : Evidence)
    → Proven contract action e
    → unproven contract action e ≡ false
unfolding unproven
Proven-unproven contract action e (ram, snapshot, inl is_revoke) = rw is_revoke (ground arith)
Proven-unproven contract action e (ram, snapshot, inr fresh) = ground arith

pub accepted : (a : Answer (Unit {0})) → fails a ≡ false → a ≡ done tt
accepted (done v) h = refl
accepted (refused c) h = cc

was_pending :
    (s : OperationStatus) → not (has_status operation_pending s) ≡ false → s ≡ operation_pending
was_pending operation_pending h = refl
was_pending operation_succeeded h = cc
was_pending operation_failed h = cc
was_pending operation_recovery_needed h = cc
was_pending operation_resolved_by_recovery h = cc
was_pending (other_operation s) h = cc

kept : (a b : Bool) → Implies b (a || b)
kept a b h = ground arith

pub by_outcome-Completed :
    (o : Operation) (outcome : ExecutionOutcome) (e : Evidence) (now : Time) {c : Completion}
    → by_outcome o outcome e now ≡ done c
    → Completed o now c
unfolding by_outcome
by_outcome-Completed o verified_success e now h =
    let (proof, same) = refuse_when-eq-done _ _ _ h in
    subst (Completed o now) (done_inj same)
      (succeeds (unproven-Proven _ _ _ proof) (activated-AfterSuccess o o.action o.previous now))
by_outcome-Completed o unchanged_failure e now h =
    let (start, same) =
      refuse_when-eq-done invalid_request
        (not (has_status operation_pending o.status)
          || not (no_evidence o.evidence)
          || not (no_evidence e))
        _ h in
    subst (Completed o now) (done_inj same) (
      fails_unchanged (was_pending o.status (ground arith)) (ground arith) (ground arith)
        (failed_state-AfterFailure o o.previous))
by_outcome-Completed o needs_recovery e now h =
    subst (Completed o now) (done_inj h)
      (stays_uncertain (kept _ _, kept _ _, kept _ _) (base_state-AfterDoubt o o.previous))
by_outcome-Completed o maintenance_closed e now h = cc
by_outcome-Completed o (other_outcome s) e now h = cc
