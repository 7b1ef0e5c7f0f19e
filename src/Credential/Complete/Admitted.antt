-- ===== src/Credential/Complete/Admitted.antt =====
-- From BeginCredentialStatus to CompleteOperation, for src/internal/mqttcredential/model.go.
use project1_iot_server.Credential.Complete.{is_closed}
use project1_iot_server.Credential.{
  Action, provision, rotate, revoke, CredentialStatus, credential_empty, credential_active,
}
use project1_iot_server.Credential.Operation.{CredentialSnapshot, Operation}
use project1_iot_server.Prelude.{◌≡◌, true, Option, none, some, ℤ, ◌<ℤ◌}

abbrev pub status_of : Option CredentialSnapshot → CredentialStatus
status_of none = credential_empty
status_of (some p) = p.status

-- A revocation keeps the version of the credential, and the other actions take a later one.
abbrev pub VersionFits : Action → ℤ → Option CredentialSnapshot → Type 0
VersionFits a v none = Unit {0}
VersionFits revoke v (some p) = v ≡ p.credential_version
VersionFits a v (some p) = p.credential_version <ℤ v

-- The actions that begin, and what they begin on.
data Begins : CredentialStatus → Action → Type 0 where
  provisions_new : Begins credential_empty provision
  provisions_closed : (s : CredentialStatus) → is_closed s ≡ true → Begins s provision
  rotates : Begins credential_active rotate
  revokes : Begins credential_active revoke
