-- ===== src/Telemetry/Message/Expanded.antt =====
-- The samples of a validated message.
use mathlib.Core.Path.{subst}
use project1_iot_server.Clock.{Time}
use project1_iot_server.Telemetry.Errors.{
  ok, ◌>>=◌, ◌>>◌, reject_if, >>=-eq-ok, reject_if-eq-ok, ok_inj, reason, payload_too_large,
}
use project1_iot_server.Telemetry.Topic.{ParsedTopic, parse_topic}
use project1_iot_server.Telemetry.Model.{
  Float64, BatchDto, SampleCandidate, Limits, validate_limits,
}
use project1_iot_server.Telemetry.Decode.{decode_batch}
use project1_iot_server.Telemetry.Decode.Accepted.{Accepted, decode_batch-Accepted}
use project1_iot_server.Telemetry.Range.{ValidatedRange, validate_range}
use project1_iot_server.Telemetry.Range.Times.{Checked, validate_range-Checked}
use project1_iot_server.Telemetry.Message.{
  Platform, Message, candidate, expand_from, message_of, validate, last?,
}
use project1_iot_server.Prelude.{
  ℕ, zero, suc, ◌+◌, ◌<◌, ◌≡◌, refl, ap, ◌∙◌, Option, none, some, List, [], ◌∷◌, arith, length,
  get_elem?, pos, ◌≤ℤ◌, ltb_ℤ, Bytes,
}

-- What Validate has checked of a message that it returns.
pub record Validated (p : Platform) (l : Limits) (topic payload : Bytes) (at : Time) (m : Message)
    : Type 0 where
  pub range : ValidatedRange
  pub message_eq : m ≡ message_of p m.topic m.batch range payload at
  pub topic_parsed : parse_topic topic ≡ ok m.topic
  pub accepted : Accepted p.uuid m.topic l m.batch
  pub checked : Checked m.batch l at range
  pub payload_fits : pos (length payload) ≤ℤ l.max_payload_bytes

-- The stages of Validate, for a message that it returns.
pub validate-Validated :
    (p : Platform) (l : Limits) (topic payload : Bytes) (at : Time) (m : Message)
    → validate p (some l) topic payload at ≡ ok m
    → Validated p l topic payload at m
unfolding validate
validate-Validated p l topic payload at m h =
    let large = ltb_ℤ l.max_payload_bytes (pos (length payload)) in
    let too_large = reason payload_too_large "payload" in
    let ranged = λ (parsed : ParsedTopic) (batch : BatchDto).
      validate_range batch l at >>= λ range. ok (message_of p parsed batch range payload at) in
    let decoded =
      λ (parsed : ParsedTopic). decode_batch p.json p.uuid payload parsed l >>= ranged parsed in
    let sized = reject_if large too_large >> (parse_topic topic >>= decoded) in
    let (_, _, h₁) = >>=-eq-ok (validate_limits l) (λ _. sized) h in
    let (fits, h₂) = reject_if-eq-ok large too_large (parse_topic topic >>= decoded) h₁ in
    let (parsed, hp, h₃) = >>=-eq-ok (parse_topic topic) decoded h₂ in
    let (batch, hb, h₄) =
      >>=-eq-ok (decode_batch p.json p.uuid payload parsed l) (ranged parsed) h₃ in
    let (range, hr, h₅) =
      >>=-eq-ok (validate_range batch l at)
        (λ range. ok (message_of p parsed batch range payload at)) h₄ in
    let a = decode_batch-Accepted p.json p.uuid payload parsed l batch hb in
    subst (Validated p l topic payload at) (ok_inj h₅) (record {
      range = range;
      message_eq = refl;
      topic_parsed = hp;
      accepted = a;
      checked =
          validate_range-Checked batch l at range (rw a.count_eq (omega (arith, a.count_int32)))
            a.first_range hr;
      payload_fits = ground arith;
    })

pub length-expand_from :
    (b : BatchDto) (r : ValidatedRange) (i : ℕ) (vs : List Float64)
    → length (expand_from b r i vs) ≡ length vs
unfolding expand_from
length-expand_from b r i [] = refl
length-expand_from b r i (v ∷ vs) = ap suc (length-expand_from b r (suc i) vs)

abbrev pub candidate? : BatchDto → ValidatedRange → ℕ → Option Float64 → Option SampleCandidate
candidate? b r i none = none
candidate? b r i (some v) = some (candidate b r i v)

pub get_elem?-expand_from :
    (b : BatchDto) (r : ValidatedRange) (i k : ℕ) (vs : List Float64)
    → get_elem? (expand_from b r i vs) k ≡ candidate? b r (i + k) (get_elem? vs k)
unfolding expand_from
get_elem?-expand_from b r i k [] = refl
get_elem?-expand_from b r i zero (v ∷ vs) = ap (λ n. some (candidate b r n v)) (omega arith)
get_elem?-expand_from b r i (suc k) (v ∷ vs) =
    get_elem?-expand_from b r (suc i) k vs
    ∙ ap (λ n. candidate? b r n (get_elem? vs k)) (omega arith)

pub last?-expand_from :
    (b : BatchDto) (r : ValidatedRange) (i : ℕ) (v : Float64) (vs : List Float64)
    → (w : Float64) × (last? (expand_from b r i (v ∷ vs)) ≡ some (candidate b r (i + length vs) w))
unfolding expand_from
last?-expand_from b r i v [] = (v, ap (λ n. some (candidate b r n v)) (omega arith))
last?-expand_from b r i v (w ∷ vs) =
    let (x, e) = last?-expand_from b r (suc i) w vs in
    (x, e ∙ ap (λ n. some (candidate b r n x)) (omega arith))

pub lt_of_get_elem? {ℓ} :
    {A : Type ℓ} (xs : List A) (k : ℕ) (x : A) → get_elem? xs k ≡ some x → k < length xs
lt_of_get_elem? [] k x h = cc
lt_of_get_elem? (y ∷ ys) zero x h = omega arith
lt_of_get_elem? (y ∷ ys) (suc k) x h = omega (arith, lt_of_get_elem? ys k x h)
