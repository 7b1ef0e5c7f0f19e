-- ===== src/Store/Metadata/Entry.antt =====
-- What ledgerMetadata has checked of an entry that it returns.
use mathlib.Core.Path.{subst}
use project1_iot_server.Telemetry.Errors.{ok, reason, invalid_payload, reject_if-eq-ok, ok_inj}
use project1_iot_server.Telemetry.Model.{SampleCandidate}
use project1_iot_server.Telemetry.Message.{Message, first_sample, last_sample}
use project1_iot_server.Store.Metadata.{
  LedgerMessage, entry_of, ledger_metadata, metadata_of, inconsistent,
}
use project1_iot_server.Store.Ledger.{duplicate, row_of, classify, compare_row}
use project1_iot_server.Prelude.{
  ℕ, ◌-◌, ◌≤◌, ◌<◌, ◌≡◌, refl, inl, inr, true, false, some, arith, Option-cases, length, pos, ltb_ℤ,
  leb_ℤ, eqb_ℤ, eqb_ℤ→eq, eqb_ℤ-refl, sub64_pos, sub64, bytes_eq_refl,
}

pub record IsEntry (m : Message) (e : LedgerMessage) : Type 0 where
  pub first : first_sample m ≡ some e.first_sample
  pub last : last_sample m ≡ some e.last_sample
  pub topic : e.topic ≡ m.topic
  pub sensor : e.sensor_id ≡ m.topic.sensor_id
  pub count : e.sample_count ≡ length m.samples
  pub first_nonneg : ltb_ℤ e.first_sample.sequence_num (pos 0) ≡ false
  pub ordered : ltb_ℤ e.last_sample.sequence_num e.first_sample.sequence_num ≡ false
  pub contiguous :
      eqb_ℤ
        (sub64 e.last_sample.sequence_num e.first_sample.sequence_num)
        (pos (e.sample_count - 1))
      ≡ true
  pub count_pos : 0 < e.sample_count
  pub count_le : e.sample_count ≤ 2147483647

numbers_checked :
    (m : Message) (first last : SampleCandidate) (n : ℕ)
    → inconsistent m.topic first last n ≡ false
    → (ltb_ℤ first.sequence_num (pos 0) ≡ false)
      × (ltb_ℤ last.sequence_num first.sequence_num ≡ false)
      × (eqb_ℤ (sub64 last.sequence_num first.sequence_num) (pos (n - 1)) ≡ true)
unfolding inconsistent
numbers_checked m first last n h = ground arith

of_metadata :
    (m : Message) (first last : SampleCandidate) (n : ℕ) (e : LedgerMessage)
    → first_sample m ≡ some first
    → last_sample m ≡ some last
    → n ≡ length m.samples
    → 0 < n
    → n ≤ 2147483647
    → metadata_of m first last n ≡ ok e
    → IsEntry m e
unfolding metadata_of
of_metadata m first last n e hf hl hn lo hi h =
    let (i, k) =
      reject_if-eq-ok (inconsistent m.topic first last n) (reason invalid_payload "message_samples")
        (ok (entry_of m first last n)) h in
    let (nonneg, ordered, contiguous) = numbers_checked m first last n i in
    let eq = ok_inj k in
    subst (IsEntry m) eq (record {
      first = hf;
      last = hl;
      topic = refl;
      sensor = refl;
      count = hn;
      first_nonneg = nonneg;
      ordered = ordered;
      contiguous = contiguous;
      count_pos = lo;
      count_le = hi;
    })

counted :
    (m : Message) (first last : SampleCandidate) (e : LedgerMessage)
    → first_sample m ≡ some first
    → last_sample m ≡ some last
    → ledger_metadata (some m) ≡ ok e
    → (0 < length m.samples)
      × (length m.samples ≤ 2147483647)
      × (metadata_of m first last (length m.samples) ≡ ok e)
unfolding ledger_metadata
counted m first last e hf hl h = ground (arith, hf, hl)

pub ledger_metadata-IsEntry :
    (m : Message) (e : LedgerMessage) → ledger_metadata (some m) ≡ ok e → IsEntry m e
unfolding ledger_metadata
ledger_metadata-IsEntry m e h = elim (Option-cases (first_sample m)) [
  | inl k ↦ absurd (ground arith)
  | inr (first, hf) ↦ elim (Option-cases (last_sample m)) [
    | inl k ↦ absurd (ground arith)
    | inr (last, hl) ↦
        let (a, b, c) = counted m first last e hf hl h in
        of_metadata m first last (length m.samples) e hf hl refl a b c
  ]
]

-- The row written for an entry is the row that the same message is compared with.
pub classify_self :
    (m : Message) (e : LedgerMessage) → IsEntry m e → classify e (row_of e) ≡ ok duplicate
unfolding classify compare_row
classify_self m e k =
    let gap =
      eqb_ℤ→eq (sub64 e.last_sample.sequence_num e.first_sample.sequence_num)
        (pos (e.sample_count - 1)) k.contiguous in
    let counted = sub64_pos e.sample_count 1 k.count_pos (omega (arith, k.count_le)) in
    let positive : leb_ℤ (pos e.sample_count) (pos 0) ≡ false = ground (arith, k.count_pos) in
    rw (
      positive,
      k.first_nonneg,
      k.ordered,
      gap,
      counted,
      eqb_ℤ-refl (pos (e.sample_count - 1)),
      bytes_eq_refl e.payload_hash,
      bytes_eq_refl e.topic.source_topic,
      bytes_eq_refl e.sensor_id,
      bytes_eq_refl e.boot_id,
      eqb_ℤ-refl e.first_sample.sequence_num,
      eqb_ℤ-refl e.last_sample.sequence_num,
      eqb_ℤ-refl (pos e.sample_count),
    )
