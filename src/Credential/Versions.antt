-- ===== src/Credential/Versions.antt =====
-- AllocateVersion and BeginCredentialStatus of src/internal/mqttcredential/model.go.
use project1_iot_server.Credential.{
  invalid_request, credential_conflict, operation_in_progress, recovery_required, Answer, refused,
  done, ◌>>◌, refuse_when, fails, Action, provision, rotate, revoke, CredentialStatus,
  credential_empty, credential_provisioning, credential_active, credential_rotating,
  credential_revoking, credential_revoked, credential_failed, credential_recovery_needed,
  validate_action, validate_credential_status,
}
use project1_iot_server.Prelude.{
  ℕ, ◌≡◌, ◌⊎◌, Bool, true, false, not, ◌&&◌, ◌||◌, arith, if◌then◌else◌, ℤ, pos, negsuc, ◌<ℤ◌,
  ltb_ℤ, eqb_ℤ, max_int64, IsInt64, ◌+ℤ◌, wrap64, add64,
}

abbrev max_ℤ : ℤ → ℤ → ℤ
max_ℤ a b = if ltb_ℤ a b then b else a

-- AllocateVersion
unfoldable pub allocate_version : ℤ → ℤ → Answer ℤ
unfolding add64
allocate_version metadata attempted = do
  refuse_when invalid_request (ltb_ℤ metadata (pos 0) || ltb_ℤ attempted (pos 0))
  let maximum = max_ℤ metadata attempted
  refuse_when invalid_request (eqb_ℤ maximum (pos max_int64))
  done (add64 maximum (pos 1))

-- `current == ""`
abbrev is_empty_status : CredentialStatus → Bool
is_empty_status credential_empty = true
is_empty_status _ = false

-- The last switch of BeginCredentialStatus, on the action.
abbrev begin_action : CredentialStatus → Action → Answer CredentialStatus
begin_action credential_empty provision = done credential_provisioning
begin_action credential_revoked provision = done credential_provisioning
begin_action credential_failed provision = done credential_provisioning
begin_action credential_active rotate = done credential_rotating
begin_action credential_active revoke = done credential_revoking
begin_action _ _ = refused credential_conflict

-- The first switch, on the current status.
abbrev begin_status : CredentialStatus → Action → Answer CredentialStatus
begin_status credential_recovery_needed a = refused recovery_required
begin_status credential_provisioning a = refused operation_in_progress
begin_status credential_rotating a = refused operation_in_progress
begin_status credential_revoking a = refused operation_in_progress
begin_status s a = begin_action s a

unfoldable pub begin_credential_status : CredentialStatus → Action → Answer CredentialStatus
unfolding validate_action validate_credential_status
begin_credential_status current action = do
  refuse_when invalid_request (
      fails (validate_action action)
      || not (is_empty_status current) && fails (validate_credential_status current))
  begin_status current action

-- What AllocateVersion answers, for versions that are int64 values: the next version after both, which
-- is an int64 again, or an error exactly when a version is negative or the range is used up.
abbrev pub AllocatedVersion : ℤ → ℤ → Answer ℤ → Type 0
AllocatedVersion m a (done v) = (m <ℤ v) × (a <ℤ v) × (pos 0 <ℤ v) × IsInt64 v
AllocatedVersion m a (refused c) =
    (c ≡ invalid_request)
    × ((m <ℤ pos 0) ⊎ ((a <ℤ pos 0) ⊎ ((m ≡ pos max_int64) ⊎ (a ≡ pos max_int64))))

allocated :
    (m a : ℕ)
    → IsInt64 (pos m)
    → IsInt64 (pos a)
    → AllocatedVersion (pos m) (pos a) (allocate_version (pos m) (pos a))
unfolding allocate_version add64 wrap64 ◌+ℤ◌
allocated m a hm ha = ground arith

negative_version : (m : ℕ) (a : ℤ) → AllocatedVersion (negsuc m) a (allocate_version (negsuc m) a)
unfolding allocate_version
negative_version m a = ground arith

negative_attempt :
    (m a : ℕ) → AllocatedVersion (pos m) (negsuc a) (allocate_version (pos m) (negsuc a))
unfolding allocate_version
negative_attempt m a = ground arith

-- For two int64 versions, AllocateVersion returns a positive int64 that is greater than both, or it
-- refuses with invalid request, and then one of them is negative or the greatest int64.
pub allocate_version-AllocatedVersion :
    (m a : ℤ) → IsInt64 m → IsInt64 a → AllocatedVersion m a (allocate_version m a)
unfolding allocate_version
allocate_version-AllocatedVersion (pos m) (pos a) hm ha = allocated m a hm ha
allocate_version-AllocatedVersion (negsuc m) a hm ha = negative_version m a
allocate_version-AllocatedVersion (pos m) (negsuc a) hm ha = negative_attempt m a
