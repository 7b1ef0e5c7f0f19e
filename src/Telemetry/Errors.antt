-- ===== src/Telemetry/Errors.antt =====
-- src/internal/telemetry/errors.go: reason codes, Go error values as chains of wrapped errors, and
-- their classification.
use project1_iot_server.Prelude.{String, ◌≡◌, refl, Bool, true, false, Option, none, some}

pub data ReasonCode : Type 0 where
  invalid_topic unsupported_protocol payload_too_large invalid_payload : ReasonCode
  invalid_timestamp timestamp_in_future invalid_sequence_range : ReasonCode
  unknown_gateway unknown_sensor resource_graph_incomplete : ReasonCode
  legacy_provenance_unknown message_conflict sequence_overlap queue_full : ReasonCode
  dependency_unavailable commit_unconfirmed ack_publish_unconfirmed : ReasonCode
  -- a string that is none of the constants
  other_reason : String → ReasonCode

-- An error value: `reason` is a *ReasonError, `nil_reason` one that is nil, `opaque` any other leaf;
-- `wrap` and `wrap_both` are what fmt.Errorf makes of one and of two %w verbs.
pub data Error : Type 0 where
  reason : ReasonCode → String → Error
  nil_reason : Error
  opaque : String → Error
  wrap : String → Error → Error
  wrap_both : String → Error → Error → Error

-- A value and an error, of which Go returns one as nil.
pub data Result {ℓ} (V : Type ℓ) : Type ℓ where
  err : Error → Result V
  ok : V → Result V

-- `if err != nil { return err }`, with and without a value.
infixl 5 ◌>>◌ ◌>>=◌
abbrev pub ◌>>=◌ {ℓ κ} : {V : Type ℓ} {W : Type κ} → Result V → (V → Result W) → Result W
err x >>= continue = err x
ok v >>= continue = continue v

abbrev pub ◌>>◌ {κ} : {W : Type κ} → Result (Unit {0}) → Result W → Result W
first >> rest = first >>= λ nothing. rest

-- `if test { return e }`
abbrev pub reject_if : Bool → Error → Result (Unit {0})
reject_if true e = err e
reject_if false e = ok tt

-- What errors.As finds, depth first: nothing, a *ReasonError that is nil, or one with a code.
pub data Found : Type 0 where
  nothing found_nil : Found
  found : ReasonCode → Found

abbrev or_else : Found → Found → Found
or_else nothing r = r
or_else found_nil r = found_nil
or_else (found c) r = found c

unfoldable pub as_reason : Error → Found
as_reason (reason c field) = found c
as_reason nil_reason = found_nil
as_reason (opaque s) = nothing
as_reason (wrap s e) = as_reason e
as_reason (wrap_both s e f) = or_else (as_reason e) (as_reason f)

pub data FailureClass : Type 0 where
  failure_none permanent_input_conflict retry_with_backoff check_clock : FailureClass
  needs_intervention failure_commit_unconfirmed : FailureClass
  failure_ack_publish_unconfirmed failure_unknown : FailureClass

-- The switch of ClassifyFailure.
unfoldable pub class_of : ReasonCode → FailureClass
class_of invalid_topic = permanent_input_conflict
class_of unsupported_protocol = permanent_input_conflict
class_of payload_too_large = permanent_input_conflict
class_of invalid_payload = permanent_input_conflict
class_of invalid_timestamp = permanent_input_conflict
class_of invalid_sequence_range = permanent_input_conflict
class_of message_conflict = permanent_input_conflict
class_of sequence_overlap = permanent_input_conflict
class_of queue_full = retry_with_backoff
class_of dependency_unavailable = retry_with_backoff
class_of timestamp_in_future = check_clock
class_of unknown_gateway = needs_intervention
class_of unknown_sensor = needs_intervention
class_of resource_graph_incomplete = needs_intervention
class_of legacy_provenance_unknown = needs_intervention
class_of commit_unconfirmed = failure_commit_unconfirmed
class_of ack_publish_unconfirmed = failure_ack_publish_unconfirmed
class_of (other_reason s) = failure_unknown

-- ClassifyFailure; `none` is a nil error.
unfoldable pub classify_failure : Option Error → FailureClass
unfolding as_reason class_of
classify_failure none = failure_none
classify_failure (some e) = elim (as_reason e) [
  | nothing ↦ failure_unknown
  | found_nil ↦ failure_unknown
  | found c ↦ class_of c
]

-- knownReasonCode
unfoldable pub known_reason_code : ReasonCode → Bool
known_reason_code (other_reason s) = false
known_reason_code _ = true

abbrev pub invalid_payload_error : String → Error
invalid_payload_error field = reason invalid_payload field

-- dependencyError
abbrev pub dependency_error : String → Error → Error
dependency_error operation e = wrap_both operation (reason dependency_unavailable "") e

-- commitUnconfirmedError
abbrev pub commit_unconfirmed_error : Error → Error
commit_unconfirmed_error e =
    wrap_both "commit telemetry transaction" (reason commit_unconfirmed "") e

-- A value that may be missing, with the error of the branch where it is.
abbrev pub or_error {ℓ} : {A : Type ℓ} → Option A → Error → Result A
or_error none e = err e
or_error (some a) e = ok a

-- The parts of a chain that succeeds.
pub >>=-eq-ok {ℓ κ} :
    {V : Type ℓ} {W : Type κ} (first : Result V) (continue : V → Result W) {w : W}
    → (first >>= continue) ≡ ok w
    → (v : V) × (first ≡ ok v) × (continue v ≡ ok w)
>>=-eq-ok (err x) continue chain = cc
>>=-eq-ok (ok v) continue chain = (v, refl, chain)

pub reject_if-eq-ok {ℓ} :
    {B : Type ℓ} (t : Bool) (e : Error) (k : Result B) {b : B}
    → (reject_if t e >> k) ≡ ok b
    → (t ≡ false) × (k ≡ ok b)
reject_if-eq-ok true e k h = cc
reject_if-eq-ok false e k h = (refl, h)

pub ok_inj {ℓ} : {A : Type ℓ} {a b : A} → ok a ≡ ok b → a ≡ b
ok_inj h = cc
