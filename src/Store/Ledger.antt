-- ===== src/Store/Ledger.antt =====
-- insertTelemetryLedger of src/internal/telemetry/postgres_ledger.go.
pub mod Cases
use project1_iot_server.Uuid.{Uuid}
use project1_iot_server.Telemetry.Errors.{
  Result, ok, err, reason, legacy_provenance_unknown, message_conflict, sequence_overlap, ◌>>=◌,
  ◌>>◌, reject_if,
}
use project1_iot_server.Store.{
  Db, LedgerRow, Faults, insert_ledger, check_overlap, read_conflict, run,
}
use project1_iot_server.Store.Metadata.{LedgerMessage}
use project1_iot_server.Prelude.{
  Bool, false, not, ◌&&◌, ◌||◌, Option, none, some, List, [], ◌∷◌, if◌then◌else◌, any, ℤ, pos,
  ltb_ℤ, leb_ℤ, eqb_ℤ, sub64, Bytes, bytes_eq,
}

-- ledgerDisposition
pub data Disposition : Type 0 where
  unconfirmed fresh duplicate : Disposition

-- A test on a column that may be NULL.
abbrev pub holds {ℓ} : {A : Type ℓ} → (A → Bool) → Option A → Bool
holds p none = false
holds p (some a) = p a

-- The row that the INSERT writes.
abbrev pub row_of : LedgerMessage → LedgerRow
row_of m = record {
  gateway_id = m.topic.gateway_id;
  message_id = m.message_id;
  payload_hash = m.payload_hash;
  source_topic = some m.topic.source_topic;
  sensor_id = some m.sensor_id;
  boot_id = some m.boot_id;
  first_sequence = some m.first_sample.sequence_num;
  last_sequence = some m.last_sample.sequence_num;
  sample_count = some (pos m.sample_count);
}

abbrev pub has_key : Bytes → Uuid → LedgerRow → Bool
has_key gateway id row = bytes_eq row.gateway_id gateway && bytes_eq row.message_id id

unfoldable pub find_row : Bytes → Uuid → List LedgerRow → Option LedgerRow
find_row gateway id [] = none
find_row gateway id (row ∷ rows) =
    let rest = find_row gateway id rows in if has_key gateway id row then some row else rest

-- The condition of the query for an overlap.
unfoldable pub overlaps : LedgerMessage → LedgerRow → Bool
overlaps m row =
    bytes_eq row.gateway_id m.topic.gateway_id
    && holds (λ s. bytes_eq s m.sensor_id) row.sensor_id
    && holds (λ b. bytes_eq b m.boot_id) row.boot_id
    && holds (λ n. leb_ℤ n m.last_sample.sequence_num) row.first_sequence
    && holds (λ n. leb_ℤ m.first_sample.sequence_num n) row.last_sequence
    && not (bytes_eq row.message_id m.message_id)

-- Whether the columns of an older row are complete and consistent.
abbrev provenance_known : ℤ → ℤ → ℤ → Bool
provenance_known first last count = not (
    leb_ℤ count (pos 0)
    || ltb_ℤ first (pos 0)
    || ltb_ℤ last first
    || not (eqb_ℤ (sub64 last first) (sub64 count (pos 1))))

abbrev unknown_provenance : Result Disposition
unknown_provenance = err (reason legacy_provenance_unknown "ledger_provenance")

-- The comparison with a row whose columns are not NULL.
unfoldable pub compare_row :
    LedgerMessage → Bytes → Bytes → Bytes → Uuid → ℤ → ℤ → ℤ → Result Disposition
compare_row m hash topic sensor boot first last count = do
  reject_if (not (provenance_known first last count))
      (reason legacy_provenance_unknown "ledger_provenance")
  reject_if (not (bytes_eq hash m.payload_hash) || not (bytes_eq topic m.topic.source_topic))
      (reason message_conflict "message_id")
  reject_if
      (not (bytes_eq sensor m.sensor_id)
        || not (bytes_eq boot m.boot_id)
        || not (eqb_ℤ first m.first_sample.sequence_num)
        || not (eqb_ℤ last m.last_sample.sequence_num)
        || not (eqb_ℤ count (pos m.sample_count)))
      (reason message_conflict "message_provenance")
  ok duplicate

classify_columns :
    LedgerMessage
    → Bytes
    → Option Bytes
    → Option Bytes
    → Option Uuid
    → Option ℤ
    → Option ℤ
    → Option ℤ
    → Result Disposition
classify_columns m hash (some topic) (some sensor) (some boot) (some first) (some last)
      (some count) =
    compare_row m hash topic sensor boot first last count
classify_columns m hash _ _ _ _ _ _ = unknown_provenance

-- The branch for a key that is there already.
unfoldable pub classify : LedgerMessage → LedgerRow → Result Disposition
unfolding classify_columns
classify m row =
    classify_columns m row.payload_hash row.source_topic row.sensor_id row.boot_id
      row.first_sequence row.last_sequence row.sample_count

-- insertTelemetryLedger after the INSERT, by the row that it found for the key.
unfoldable pub insert_or_classify :
    Faults → Db → LedgerMessage → Option LedgerRow → Result (Db × Disposition)
insert_or_classify f db m none = do
  run f check_overlap "check telemetry sequence overlap"
  reject_if (any (overlaps m) db.ledger) (reason sequence_overlap "sequence_range")
  ok (record db { ledger = row_of m ∷ db.ledger }, fresh)
insert_or_classify f db m (some row) = do
  run f read_conflict "read conflicting telemetry message ledger"
  disposition ← classify m row
  ok (db, disposition)

unfoldable pub insert_telemetry_ledger : Faults → Db → LedgerMessage → Result (Db × Disposition)
insert_telemetry_ledger f db m = do
  run f insert_ledger "insert telemetry message ledger"
  insert_or_classify f db m (find_row m.topic.gateway_id m.message_id db.ledger)
