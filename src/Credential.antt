-- ===== src/Credential.antt =====
-- src/internal/mqttcredential/model.go: the words of a credential mutation, which are strings in the
-- source, with their Validate, and the error codes. A constructor `other_…` is any other string.
pub mod Operation
pub mod Complete
pub mod Versions
pub mod Replay
pub mod Reset
pub mod Lifecycle
use project1_iot_server.Prelude.{
  ◌-◌, ◌≡◌, refl, ◌⊎◌, inl, inr, Bool, true, false, Bytes, bytes_eq→eq, bytes_eq,
}

-- ErrorCode, which is all that a DomainError has.
pub data Code : Type 0 where
  invalid_request forbidden not_found credential_conflict : Code
  operation_in_progress idempotency_conflict runtime_disabled runtime_busy : Code
  verification_unavailable recovery_required finalization_pending : Code
  service_unavailable internal_error : Code

-- The established error that DomainError.Unwrap gives, where there is one.
pub data Sentinel : Type 0 where
  no_sentinel invalid_input_error runtime_busy_error recovery_required_error : Sentinel

unfoldable unwrap : Code → Sentinel
unwrap invalid_request = invalid_input_error
unwrap runtime_busy = runtime_busy_error
unwrap recovery_required = recovery_required_error
unwrap _ = no_sentinel

-- A value, or a DomainError.
pub data Answer {ℓ} (V : Type ℓ) : Type ℓ where
  refused : Code → Answer V
  done : V → Answer V

infixl 5 ◌>>◌ ◌>>=◌
abbrev pub ◌>>=◌ {ℓ κ} : {V : Type ℓ} {W : Type κ} → Answer V → (V → Answer W) → Answer W
done v >>= f = f v
refused c >>= f = refused c

abbrev pub ◌>>◌ {κ} : {W : Type κ} → Answer (Unit {0}) → Answer W → Answer W
done v >> next = next
refused c >> next = refused c

-- A guard whose branch returns an error of this code.
abbrev pub refuse_when : Code → Bool → Answer (Unit {0})
refuse_when c false = done tt
refuse_when c true = refused c

-- `v.Validate() != nil`
abbrev pub fails {ℓ} : {V : Type ℓ} → Answer V → Bool
fails (done v) = false
fails (refused c) = true

pub data Action : Type 0 where
  provision rotate revoke reset : Action
  other_action : Bytes → Action

pub data ExecutionContract : Type 0 where
  contract_empty contract_lifecycle contract_simplified : ExecutionContract
  other_contract : Bytes → ExecutionContract

pub data CredentialStatus : Type 0 where
  credential_empty credential_provisioning credential_active credential_rotating : CredentialStatus
  credential_revoking credential_revoked credential_failed : CredentialStatus
  credential_recovery_needed : CredentialStatus
  other_credential : Bytes → CredentialStatus

pub data OperationStatus : Type 0 where
  operation_pending operation_succeeded operation_failed : OperationStatus
  operation_recovery_needed operation_resolved_by_recovery : OperationStatus
  other_operation : Bytes → OperationStatus

pub data OperationPhase : Type 0 where
  phase_intent phase_dynsec_mutation phase_snapshot_readback phase_finalize : OperationPhase
  phase_recovery : OperationPhase
  other_phase : Bytes → OperationPhase

pub data DeliveryStatus : Type 0 where
  delivery_unknown delivery_device_updated : DeliveryStatus
  other_delivery : Bytes → DeliveryStatus

pub data ExecutionOutcome : Type 0 where
  verified_success unchanged_failure needs_recovery maintenance_closed : ExecutionOutcome
  other_outcome : Bytes → ExecutionOutcome

pub data ResetReason : Type 0 where
  recovery_after_unknown lost_secret_recovery : ResetReason
  other_reset_reason : Bytes → ResetReason

-- The Validate of each word.
unfoldable pub validate_contract : ExecutionContract → Answer (Unit {0})
validate_contract contract_lifecycle = done tt
validate_contract contract_simplified = done tt
validate_contract _ = refused invalid_request

unfoldable pub validate_action : Action → Answer (Unit {0})
validate_action provision = done tt
validate_action rotate = done tt
validate_action revoke = done tt
validate_action _ = refused invalid_request

unfoldable pub validate_credential_status : CredentialStatus → Answer (Unit {0})
validate_credential_status credential_empty = refused invalid_request
validate_credential_status (other_credential s) = refused invalid_request
validate_credential_status _ = done tt

unfoldable pub validate_operation_status : OperationStatus → Answer (Unit {0})
validate_operation_status operation_resolved_by_recovery = refused invalid_request
validate_operation_status (other_operation s) = refused invalid_request
validate_operation_status _ = done tt

unfoldable pub validate_phase : OperationPhase → Answer (Unit {0})
validate_phase (other_phase s) = refused invalid_request
validate_phase _ = done tt

unfoldable pub validate_delivery : DeliveryStatus → Answer (Unit {0})
validate_delivery (other_delivery s) = refused invalid_request
validate_delivery _ = done tt

unfoldable pub validate_outcome : ExecutionOutcome → Answer (Unit {0})
validate_outcome (other_outcome s) = refused invalid_request
validate_outcome _ = done tt

unfoldable pub validate_reset_reason : ResetReason → Answer (Unit {0})
validate_reset_reason (other_reset_reason s) = refused invalid_request
validate_reset_reason _ = done tt

-- `==` on the words.
abbrev pub eq_action : Action → Action → Bool
eq_action provision provision = true
eq_action rotate rotate = true
eq_action revoke revoke = true
eq_action reset reset = true
eq_action (other_action s) (other_action t) = bytes_eq s t
eq_action _ _ = false

abbrev pub is_simplified : ExecutionContract → Bool
is_simplified contract_simplified = true
is_simplified _ = false

abbrev pub eq_operation_status : OperationStatus → OperationStatus → Bool
eq_operation_status operation_pending operation_pending = true
eq_operation_status operation_succeeded operation_succeeded = true
eq_operation_status operation_failed operation_failed = true
eq_operation_status operation_recovery_needed operation_recovery_needed = true
eq_operation_status operation_resolved_by_recovery operation_resolved_by_recovery = true
eq_operation_status (other_operation s) (other_operation t) = bytes_eq s t
eq_operation_status _ _ = false

-- The parts of an answer that is done.
pub >>-eq-done {κ} :
    {W : Type κ} (first : Answer (Unit {0})) (next : Answer W) {w : W}
    → (first >> next) ≡ done w
    → (first ≡ done tt) × (next ≡ done w)
>>-eq-done (done v) next h = (refl, h)
>>-eq-done (refused c) next h = cc

pub refuse_when-eq-done {κ} :
    {W : Type κ} (c : Code) (b : Bool) (next : Answer W) {w : W}
    → (refuse_when c b >> next) ≡ done w
    → (b ≡ false) × (next ≡ done w)
refuse_when-eq-done c false next h = (refl, h)
refuse_when-eq-done c true next h = cc

pub done_inj {ℓ} : {V : Type ℓ} {v w : V} → done v ≡ done w → v ≡ w
done_inj h = cc

pub eq_action→eq : (a b : Action) → eq_action a b ≡ true → a ≡ b
eq_action→eq provision provision h = refl
eq_action→eq rotate rotate h = refl
eq_action→eq revoke revoke h = refl
eq_action→eq reset reset h = refl
eq_action→eq (other_action s) (other_action t) h = rw (bytes_eq→eq s t h) refl
eq_action→eq _ _ h = cc

pub answer-cases {ℓ} :
    {V : Type ℓ} (a : Answer V) → ((c : Code) × (a ≡ refused c)) ⊎ ((v : V) × (a ≡ done v))
answer-cases (refused c) = inl (c, refl)
answer-cases (done v) = inr (v, refl)
