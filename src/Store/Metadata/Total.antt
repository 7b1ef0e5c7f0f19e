-- ===== src/Store/Metadata/Total.antt =====
-- ledgerMetadata on the messages that Validate returns.
use project1_iot_server.Clock.{Time}
use project1_iot_server.Uuid.{Uuid, uuid_nil, UuidLib, valid_message_id}
use project1_iot_server.Identifier.{valid_gateway_id-ne-nil, valid_sensor_id-ne-nil}
use project1_iot_server.Telemetry.Errors.{ok}
use project1_iot_server.Telemetry.Topic.{ParsedTopic}
use project1_iot_server.Telemetry.Topic.RoundTrip.{parse_topic_sound}
use project1_iot_server.Telemetry.Model.{Float64, BatchDto, SampleCandidate, Limits}
use project1_iot_server.Telemetry.Decode.Accepted.{Accepted}
use project1_iot_server.Telemetry.Range.{ValidatedRange}
use project1_iot_server.Telemetry.Range.Bounds.{Exact}
use project1_iot_server.Telemetry.Range.Times.{Checked}
use project1_iot_server.Telemetry.Message.{
  Platform, Message, candidate, expand_from, validate, head?, last?,
}
use project1_iot_server.Telemetry.Message.Expanded.{
  validate-Validated, last?-expand_from, length-expand_from,
}
use project1_iot_server.Store.Metadata.{
  entry_of, LedgerMessage, ledger_metadata, metadata_of, inconsistent,
}
use project1_iot_server.Prelude.{
  ℕ, suc, ◌+◌, ◌≤◌, ◌<◌, ◌≡◌, refl, sym, ap, ◌∙◌, true, false, some, List, [], ◌∷◌, arith, length,
  ℤ, pos, pos_part, add64_pos, sub64_pos, add64, sub64, Bytes, bytes_eq_refl, bytes_eq_iff,
  is_empty, bytes_eq,
}

-- The ledger entry of a message.
pub record Describes (m : Message) (last_sequence : ℤ) (e : LedgerMessage) : Type 0 where
  pub topic : e.topic ≡ m.topic
  pub hash : e.payload_hash ≡ m.payload_hash
  pub sensor : e.sensor_id ≡ m.topic.sensor_id
  pub message : e.message_id ≡ m.batch.message_id
  pub boot : e.boot_id ≡ m.batch.boot_id
  pub first : e.first_sample.sequence_num ≡ m.batch.first_sequence
  pub last : e.last_sample.sequence_num ≡ last_sequence
  pub count : pos e.sample_count ≡ m.batch.sample_count

message_id-ne-nil :
    (u : UuidLib) (id : Uuid) → valid_message_id u id ≡ true → bytes_eq id uuid_nil ≡ false
unfolding valid_message_id
message_id-ne-nil u id h = ground arith

module _ {c f u d q i s : ℤ} (x : Exact c f u d q i s) where
  first_number : add64 f (pos 0) ≡ pos x.start
  first_number =
      ap (λ z. add64 z (pos 0)) x.first_eq
      ∙ add64_pos x.start 0 (omega (arith, x.last_le))
      ∙ ap pos (omega arith)

  last_number : (n : ℕ) → x.steps ≡ n → add64 f (pos n) ≡ pos (x.start + n)
  last_number n e =
      ap (λ z. add64 z (pos n)) x.first_eq ∙ add64_pos x.start n (omega (arith, x.last_le, e))

-- The first and the last sample of an exact range are consistent.
consistent :
    (u : UuidLib) (t : ParsedTopic) (l : Limits) (b : BatchDto) (r : ValidatedRange) (span : ℤ)
    (n : ℕ) (v w : Float64)
    → Accepted u t l b
    → (x : Exact b.sample_count b.first_sequence b.sample_interval_us l.max_batch_duration
        r.last_sequence r.interval span)
    → x.steps ≡ n
    → inconsistent t (candidate b r 0 v) (candidate b r n w) (suc n) ≡ false
unfolding inconsistent
consistent u t l b r span n v w a x e =
    let gap : sub64 (pos (x.start + n)) (pos x.start) ≡ pos n =
      sub64_pos (x.start + n) x.start (omega arith) (omega (arith, x.last_le, e))
      ∙ ap pos (omega arith) in
    rw
      (
        (bytes_eq_iff b.gateway_id t.gateway_id).1 a.gateway_eq,
        (bytes_eq_iff b.sensor_id t.sensor_id).1 a.sensor_eq,
        message_id-ne-nil u b.message_id a.message_id,
        bytes_eq_refl b.message_id,
        a.boot_id,
        bytes_eq_refl b.boot_id,
        first_number x,
        last_number x n e,
        gap,
      )
      (ground arith)

-- The samples of a batch that is not empty.
first_and_last :
    (b : BatchDto) (r : ValidatedRange) (vs : List Float64)
    → 0 < length vs
    → (v w : Float64) × (n : ℕ) × (length vs ≡ suc n)
      × (head? (expand_from b r 0 vs) ≡ some (candidate b r 0 v))
      × (last? (expand_from b r 0 vs) ≡ some (candidate b r n w))
unfolding expand_from
first_and_last b r [] h = absurd (omega arith)
first_and_last b r (v ∷ vs) h =
    let (w, e) = last?-expand_from b r 0 v vs in
    (v, w, length vs, refl, refl, e ∙ ap (λ k. some (candidate b r k w)) (omega arith))

ledger_metadata_of_parts :
    (m : Message) (first last : SampleCandidate) (n : ℕ)
    → head? m.samples ≡ some first
    → last? m.samples ≡ some last
    → length m.samples ≡ suc n
    → suc n ≤ 2147483647
    → is_empty m.topic.gateway_id ≡ false
    → is_empty m.topic.sensor_id ≡ false
    → is_empty m.topic.source_topic ≡ false
    → is_empty m.payload_hash ≡ false
    → inconsistent m.topic first last (suc n) ≡ false
    → ledger_metadata (some m) ≡ ok (entry_of m first last (suc n))
unfolding ledger_metadata metadata_of
ledger_metadata_of_parts m first last n hd tl len le g s t hash c =
    rw (hd, tl, len, g, s, t, hash) (ground arith)

-- A message that Validate returns has a ledger entry: none of the tests of ledgerMetadata rejects it.
-- The entry has the identifiers of the message, its sample count, its first sequence number and the
-- last one of its range. The hash of the payload is taken not to be empty.
pub validate-ledger_metadata :
    (p : Platform) (l : Limits) (topic payload : Bytes) (at : Time) (m : Message)
    → is_empty (p.sha256_hex payload) ≡ false
    → validate p (some l) topic payload at ≡ ok m
    → (r : ValidatedRange) × (e : LedgerMessage) × Checked m.batch l at r
      × (ledger_metadata (some m) ≡ ok e)
      × Describes m r.last_sequence e
validate-ledger_metadata p l topic payload at m hash h =
    let w = validate-Validated p l topic payload at m h in
    let (v, z, n, len, hd, tl) =
      first_and_last m.batch w.range m.batch.samples w.accepted.count_pos in
    let x = w.checked.exact in
    let samples : m.samples ≡ expand_from m.batch w.range 0 m.batch.samples =
      ap (λ (k : Message). k.samples) w.message_eq in
    let count : length m.samples ≡ suc n =
      ap length samples ∙ length-expand_from m.batch w.range 0 m.batch.samples ∙ len in
    let steps : x.steps ≡ n =
      omega (arith, ap pos_part (sym w.accepted.count_eq ∙ x.count_eq), len) in
    let first = candidate m.batch w.range 0 v in
    let last = candidate m.batch w.range n z in
    let t = parse_topic_sound topic m.topic w.topic_parsed in
    (
      w.range,
      entry_of m first last (suc n),
      w.checked,
      ledger_metadata_of_parts m first last n (ap head? samples ∙ hd) (ap last? samples ∙ tl) count
          (omega (arith, w.accepted.count_int32, len))
          (valid_gateway_id-ne-nil m.topic.gateway_id t.2)
          (valid_sensor_id-ne-nil m.topic.sensor_id t.3) (ap is_empty (t.0 ∙ t.1))
          (ap (λ (k : Message). is_empty k.payload_hash) w.message_eq ∙ hash)
          (consistent p.uuid m.topic l m.batch w.range w.checked.span n v z w.accepted x steps),
      record {
        topic = refl;
        hash = refl;
        sensor = refl;
        message = refl;
        boot = refl;
        first = first_number x ∙ sym x.first_eq;
        last = last_number x n steps ∙ ap (λ k. pos (x.start + k)) (sym steps) ∙ sym x.last_eq;
        count = ap pos (sym len) ∙ sym w.accepted.count_eq;
      },
    )
