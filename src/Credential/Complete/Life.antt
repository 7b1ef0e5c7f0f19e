-- ===== src/Credential/Complete/Life.antt =====
-- The calls of CompleteOperation over the life of one operation, for
-- src/internal/mqttcredential/model.go.
use project1_iot_server.Clock.{Time}
use project1_iot_server.Credential.Complete.{Completion, complete_operation}
use project1_iot_server.Credential.Complete.Sound.{complete_operation-Completed}
use project1_iot_server.Credential.Complete.Outcomes.{
  Completed, succeeds, fails_unchanged, stays_uncertain, Proven, AfterSuccess, AfterFailure,
  AfterDoubt,
}
use project1_iot_server.Credential.{
  Code, done, OperationStatus, operation_succeeded, operation_failed, operation_recovery_needed,
  OperationPhase, ExecutionOutcome,
}
use project1_iot_server.Credential.Operation.{
  Evidence, CredentialSnapshot, Operation, validate_historical,
}
use project1_iot_server.Prelude.{◌≡◌, refl, ◌⊎◌, inl, inr, Option, some}

-- The accepted calls of CompleteOperation, each on the operation that the one before it returned.
pub data Completions (s : Completion) : Completion → Type 0 where
  started : Completions s s
  completed :
      {n m : Completion} (outcome : ExecutionOutcome) (e : Evidence) (now : Time)
      → Completions s n
      → complete_operation n.operation outcome e now ≡ done m
      → Completions s m

-- The operation and the credential after a completion go together.
abbrev pub Settled : OperationStatus → Operation → CredentialSnapshot → Type 0
Settled operation_succeeded o c =
    Proven o.execution_contract o.action o.evidence
    × ((t : Time) × (o.completed_at ≡ some t)
        × AfterSuccess o.action o.credential_version o.previous t c)
Settled operation_failed o c = AfterFailure o.credential_version o.previous c
Settled operation_recovery_needed o c = AfterDoubt o.credential_version o.previous c
Settled _ o c = ⊥

-- The fields that an outcome may change.
pub data Changed (o : Operation) : Operation → Type 0 where
  changed :
      (s : OperationStatus) (p : OperationPhase) (at : Option Time) (code : Option Code)
      (e : Evidence) (now : Time)
      → Changed o record o {
        status = s;
        phase = p;
        completed_at = at;
        error_code = code;
        evidence = e;
        updated_at = now;
      }

unchanged : (o : Operation) → Changed o o
unchanged o = changed o.status o.phase o.completed_at o.error_code o.evidence o.updated_at

Changed-trans : {o p q : Operation} → Changed o p → Changed p q → Changed o q
Changed-trans (changed s p at code e now) (changed s' p' at' code' e' now') =
    changed s' p' at' code' e' now'

-- What is left of the operation, and how it and the credential go together.
abbrev pub AfterCompletions : Completion → Completion → Type 0
AfterCompletions s n =
    Changed s.operation n.operation
    × ((n ≡ s)
        ⊎ ((validate_historical n.operation ≡ done tt)
            × Settled n.operation.status n.operation n.credential))

Completed-Settled :
    (o : Operation) (now : Time) {c : Completion}
    → Completed o now c
    → Settled c.operation.status c.operation c.credential
Completed-Settled o now (succeeds proof after) = (proof, (now, refl, after))
Completed-Settled o now (fails_unchanged pending n m after) = after
Completed-Settled o now (stays_uncertain k after) = after

pub Completed-Changed :
    (o : Operation) (now : Time) {c : Completion} → Completed o now c → Changed o c.operation
Completed-Changed o now (succeeds proof after) = changed _ _ _ _ _ _
Completed-Changed o now (fails_unchanged pending n m after) = changed _ _ _ _ _ _
Completed-Changed o now (stays_uncertain k after) = changed _ _ _ _ _ _

-- Over accepted calls of CompleteOperation, one after the other on one operation, the fields that
-- identify the operation are as they were; and either there was no call, or the operation is valid and
-- the credential is what its status says: revoked or active in the version of the operation, at the
-- time of completion, only for a success with its proof; the previous one, or a failed one where there
-- was none, for a failure; and in need of recovery, in the previous version, otherwise.
pub completions-Settled : {s n : Completion} → Completions s n → AfterCompletions s n
completions-Settled {s} started = (unchanged s.operation, inl refl)
completions-Settled (completed {n} {m} outcome e now run h) =
    let (valid, c) = complete_operation-Completed n.operation outcome e now m h in
    (
      Changed-trans (completions-Settled run).0 (Completed-Changed n.operation now c),
      inr (valid, Completed-Settled n.operation now c),
    )
