-- ===== src/Credential/Replay/Completed.antt =====
-- ReplayOperation after CompleteOperation, for src/internal/mqttcredential/model.go.
use mathlib.Core.Path.{subst}
use project1_iot_server.Uuid.{Uuid}
use project1_iot_server.Clock.{Time}
use project1_iot_server.Credential.Complete.{Completion, complete_operation}
use project1_iot_server.Credential.Complete.Sound.{
  live-parts, complete-parts, complete_operation-Completed,
}
use project1_iot_server.Credential.Complete.Life.{Changed, changed, Completed-Changed}
use project1_iot_server.Credential.Complete.Outcomes.{
  Completed, succeeds, fails_unchanged, stays_uncertain,
}
use project1_iot_server.Credential.Replay.{
  provision_again, Metadata, MutationResult, other_request, replay_matching, unresolved,
  ended_result, replay_operation,
}
use project1_iot_server.Credential.{
  Code, credential_revoked, invalid_request, idempotency_conflict, recovery_required, Answer,
  refused, done, OperationStatus, operation_succeeded, operation_failed, operation_recovery_needed,
  ExecutionOutcome, refuse_when-eq-done,
}
use project1_iot_server.Credential.Operation.{
  is_nil, MutationInput, validate_mutation_input, Evidence, Operation, validate_historical,
  validate,
}
use project1_iot_server.Prelude.{
  Option, arith, ◌≡◌, refl, sym, ap, ◌∙◌, ◌⊎◌, inl, inr, true, false, none, Bool-cases, bytes_eq,
}

-- The answer about an operation that has ended.
pub record Retold (o : Operation) (current : Metadata) (s : OperationStatus) (error : Option Code)
    (r : MutationResult) : Type 0 where
  pub shows : r.metadata ≡ current
  pub same_operation : r.operation_id ≡ o.operation_id
  pub no_secret : r.secret_returned ≡ false
  pub shows_status : r.replayed_status ≡ s
  pub shows_error : r.error_code ≡ error
  pub provisions : current.status ≡ credential_revoked → r.next_action ≡ provision_again

-- What a repeated request is told about an operation with this status.
abbrev pub Told : OperationStatus → Operation → Metadata → Answer MutationResult → Type 0
Told operation_recovery_needed o current a = a ≡ refused recovery_required
Told operation_succeeded o current a =
    (r : MutationResult) × (a ≡ done r) × Retold o current operation_succeeded none r
Told operation_failed o current a =
    (r : MutationResult) × (a ≡ done r) × Retold o current operation_failed o.error_code r
Told _ o current a = ⊥

ended-Retold :
    (o : Operation) (current : Metadata)
    → Retold o current o.status o.error_code (ended_result o current)
ended-Retold o current = record {
  shows = refl;
  same_operation = refl;
  no_secret = refl;
  shows_status = refl;
  shows_error = refl;
  provisions = λ h. rw h (ground arith);
}

Completed-Told :
    (o : Operation) (now : Time) {c : Completion} (current : Metadata)
    → Completed o now c
    → bytes_eq current.gateway_id o.gateway_id ≡ true
    → Told c.operation.status c.operation current (replay_matching c.operation current none)
unfolding replay_matching unresolved
Completed-Told o now {c} current (succeeds proof after) g =
    rw g (_, refl, ended-Retold c.operation current)
Completed-Told o now {c} current (fails_unchanged pending n m after) g =
    rw g (_, refl, ended-Retold c.operation current)
Completed-Told o now current (stays_uncertain k after) g = refl

replay_reaches :
    (o : Operation) (actor : Uuid) (input : MutationInput) (current : Metadata)
    → validate_mutation_input actor input ≡ done tt
    → other_request o actor input ≡ false
    → validate o ≡ done tt
    → replay_operation o actor input current ≡ replay_matching o current o.recovery_id
unfolding replay_operation
replay_reaches o actor input current h same valid = rw (h, same, valid) refl

Changed-same :
    {o p : Operation}
    → Changed o p
    → (actor : Uuid) (input : MutationInput)
    → (other_request p actor input ≡ other_request o actor input)
      × (is_nil p.actor_user_id ≡ is_nil o.actor_user_id)
      × (p.recovery_id ≡ o.recovery_id)
      × (p.gateway_id ≡ o.gateway_id)
unfolding other_request
Changed-same (changed s p at code e now) actor input = (refl, refl, refl, refl)

validate-actor : (o : Operation) → validate o ≡ done tt → is_nil o.actor_user_id ≡ false
unfolding validate
validate-actor o h =
    let (actor, rest) = refuse_when-eq-done invalid_request (is_nil o.actor_user_id) _ h in actor

actor-validate :
    (o : Operation)
    → is_nil o.actor_user_id ≡ false
    → validate_historical o ≡ done tt
    → validate o ≡ done tt
unfolding validate
actor-validate o h k = rw (h, k) refl

-- After a completion of an operation of a live actor, a request with valid syntax is a conflict where it
-- differs in the actor, the key, the Gateway or the action; otherwise it is told that recovery is needed
-- where the completion is uncertain, and where it has succeeded or failed, that status, with no error
-- for a success and the error of the operation for a failure, the identifier of the operation, the
-- current metadata of that Gateway and no secret, and to provision again where these show a revocation.
pub complete-replay :
    (o : Operation) (outcome : ExecutionOutcome) (e : Evidence) (now : Time) (c : Completion)
    (actor : Uuid) (input : MutationInput) (current : Metadata)
    → validate o ≡ done tt
    → complete_operation o outcome e now ≡ done c
    → validate_mutation_input actor input ≡ done tt
    → bytes_eq current.gateway_id o.gateway_id ≡ true
    → ((other_request o actor input ≡ true)
        × (replay_operation c.operation actor input current ≡ refused idempotency_conflict))
      ⊎ Told c.operation.status c.operation current
          (replay_operation c.operation actor input current)
unfolding replay_operation
complete-replay o outcome e now c actor input current valid h syntax g =
    let (completed_valid, completed) = complete_operation-Completed o outcome e now c h in
    let (live, again) = complete-parts o outcome e now h in
    let (historical, recovery, t) = live-parts o now live in
    let (same, same_actor, same_recovery, same_gateway) =
      Changed-same (Completed-Changed o now completed) actor input in
    elim (Bool-cases (other_request o actor input)) [
      | inl e ↦ inl (e, rw (syntax, same, e) refl)
      | inr e ↦ inr (
          subst (Told c.operation.status c.operation current)
            (sym (
              replay_reaches c.operation actor input current syntax (same ∙ e)
                (actor-validate c.operation (same_actor ∙ validate-actor o valid) completed_valid)
              ∙ ap (replay_matching c.operation current) (same_recovery ∙ recovery)))
            (Completed-Told o now current completed g))
    ]
