-- ===== src/Telemetry/Message/Samples.antt =====
-- The numbers and times of the samples of a validated message.
use mathlib.Core.Path.{subst}
use project1_iot_server.Clock.{Time}
use project1_iot_server.Telemetry.Errors.{ok}
use project1_iot_server.Telemetry.Model.{Float64, BatchDto, SampleCandidate, Limits}
use project1_iot_server.Telemetry.Range.{ValidatedRange}
use project1_iot_server.Telemetry.Range.Bounds.{Exact}
use project1_iot_server.Telemetry.Range.Times.{Checked}
use project1_iot_server.Telemetry.Message.{Platform, Message, candidate, validate}
use project1_iot_server.Telemetry.Message.Expanded.{
  Validated, validate-Validated, candidate?, get_elem?-expand_from, lt_of_get_elem?,
}
use project1_iot_server.Prelude.{
  ℕ, ◌*◌, ◌≤◌, ◌≡◌, refl, sym, ap, ◌∙◌, Option, none, some, arith, some_inj, get_elem?, ℤ, pos,
  pos_part, ◌<ℤ◌, add64_pos, mul64_pos, +ℤ_pos, *ℤ_pos, ◌+ℤ◌, ◌*ℤ◌, add64, mul64, Bytes,
}

-- Sample number k of a message, over the integers.
pub record IsSample (m : Message) (r : ValidatedRange) (k : ℕ) (s : SampleCandidate) : Type 0 where
  pub in_count : pos k <ℤ m.batch.sample_count
  pub index : s.sample_index ≡ k
  pub sequence : s.sequence_num ≡ m.batch.first_sequence +ℤ pos k
  pub time : s.measured_at ≡ r.first_measured_at +ℤ pos k *ℤ r.interval
  pub gateway : s.gateway_id ≡ m.topic.gateway_id
  pub sensor : s.sensor_id ≡ m.topic.sensor_id
  pub message : s.message_id ≡ m.batch.message_id
  pub boot : s.boot_id ≡ m.batch.boot_id
  pub value_at : get_elem? m.batch.samples k ≡ some s.value

candidate?-eq-some :
    (b : BatchDto) (r : ValidatedRange) (i : ℕ) (o : Option Float64) (s : SampleCandidate)
    → candidate? b r i o ≡ some s
    → (v : Float64) × (o ≡ some v) × (candidate b r i v ≡ s)
candidate?-eq-some b r i none s h = cc
candidate?-eq-some b r i (some v) s h = (v, refl, some_inj h)

-- With the numbers of an exact range, no operation on an index below the count wraps.
Exact-sequence :
    {c f u d q i s : ℤ} (x : Exact c f u d q i s) (k : ℕ)
    → k ≤ x.steps
    → add64 f (pos k) ≡ f +ℤ pos k
Exact-sequence {f} x k h =
    rw x.first_eq (add64_pos x.start k (omega (arith, x.last_le)) ∙ sym (+ℤ_pos x.start k))

Exact-offset :
    {c f u d q i s : ℤ} (x : Exact c f u d q i s) (k : ℕ)
    → k ≤ x.steps
    → mul64 (pos k) i ≡ pos k *ℤ i
Exact-offset x k h =
    rw x.interval_eq
      (mul64_pos k (x.gap * 1000) (grind (arith, x.span_fits)) ∙ sym (*ℤ_pos k (x.gap * 1000)))

candidate-IsSample :
    (p : Platform) (l : Limits) (topic payload : Bytes) (at : Time) (m : Message)
    (w : Validated p l topic payload at m) (k : ℕ) (v : Float64)
    → get_elem? m.batch.samples k ≡ some v
    → IsSample m w.range k (candidate m.batch w.range k v)
candidate-IsSample p l topic payload at m w k v h =
    let lt = lt_of_get_elem? m.batch.samples k v h in
    let x = w.checked.exact in
    let le : k ≤ x.steps = omega (arith, ap pos_part (sym w.accepted.count_eq ∙ x.count_eq)) in
    record {
      in_count = rw w.accepted.count_eq (omega (arith, lt));
      index = refl;
      sequence = Exact-sequence x k le;
      time = ap (λ t. w.range.first_measured_at +ℤ t) (Exact-offset x k le);
      gateway = w.accepted.gateway_eq;
      sensor = w.accepted.sensor_eq;
      message = refl;
      boot = refl;
      value_at = h;
    }

at_index :
    (p : Platform) (l : Limits) (topic payload : Bytes) (at : Time) (m : Message)
    (w : Validated p l topic payload at m) (k : ℕ) (s : SampleCandidate)
    → get_elem? m.samples k ≡ some s
    → IsSample m w.range k s
at_index p l topic payload at m w k s e =
    let expanded : candidate? m.batch w.range k (get_elem? m.batch.samples k) ≡ some s =
      ap (λ i. candidate? m.batch w.range i (get_elem? m.batch.samples k)) (omega arith)
      ∙ sym (get_elem?-expand_from m.batch w.range 0 k m.batch.samples)
      ∙ sym (ap (λ (n : Message). get_elem? n.samples k) w.message_eq)
      ∙ e in
    let (v, o, c) = candidate?-eq-some m.batch w.range k (get_elem? m.batch.samples k) s expanded in
    subst (IsSample m w.range k) c (candidate-IsSample p l topic payload at m w k v o)

-- Sample number k of a message that Validate returns carries the identifiers of the topic and of the
-- batch, the value number k of the payload, the sequence number first_sequence + k and the time k
-- intervals after measured_at, none of which wrapped.
pub validate-IsSample :
    (p : Platform) (l : Limits) (topic payload : Bytes) (at : Time) (m : Message)
    → validate p (some l) topic payload at ≡ ok m
    → (r : ValidatedRange) × Checked m.batch l at r
      × ((k : ℕ) (s : SampleCandidate) → get_elem? m.samples k ≡ some s → IsSample m r k s)
validate-IsSample p l topic payload at m h =
    let w = validate-Validated p l topic payload at m h in
    (w.range, w.checked, λ k s e. at_index p l topic payload at m w k s e)
