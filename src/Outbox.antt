-- ===== src/Outbox.antt =====
-- src/internal/gatewaysim/outbox.go: the durable outbox of a simulated Gateway. A table of the SQLite
-- file is its rows; a statement may fail, and COMMIT has a fate.
pub mod Build
pub mod Allocated
pub mod Steps
pub mod Sequences
pub mod Acks
use project1_iot_server.Clock.{Time}
use project1_iot_server.Uuid.{Uuid}
use project1_iot_server.Telemetry.Errors.{
  Error, Result, ok, err, opaque, wrap, ◌>>=◌, ◌>>◌, reject_if,
}
use project1_iot_server.Store.{Fate, confirmed, lost, applied}
use project1_iot_server.Prelude.{
  ℕ, zero, suc, ◌+◌, Bool, true, false, not, ◌&&◌, ◌||◌, Option, none, some, List, [], ◌∷◌, ltb,
  ◌==◌, if◌then◌else◌, length, any, ℤ, pos, pos_part, ltb_ℤ, leb_ℤ, Bytes, is_empty, bytes_eq,
}

-- The two values of the column status
pub data Status : Type 0 where
  pending quarantined : Status

-- A row of the table outbox, less sample_interval_us and reason. The columns gateway_id and sensor_id of a row are those of the file.
pub record Row : Type 0 where
  pub id : ℕ
  pub message_id : Uuid
  pub boot_id : Uuid
  pub topic : Bytes
  pub payload : Bytes
  pub byte_size : ℕ
  pub first_sequence : ℤ
  pub sample_count : ℤ
  pub status : Status
  pub enqueued_at : Time

-- Outbox with its tables: the rows in descending order of id, and next_sequence by boot.
pub record Outbox : Type 0 where
  pub gateway_id : Bytes
  pub sensor_id : Bytes
  pub max_rows : ℤ
  pub max_bytes : ℤ
  pub last_id : ℕ
  pub rows : List Row
  pub streams : Uuid → Option ℤ

-- The statements of the operations.
pub data Op : Type 0 where
  begin_tx read_stream read_usage insert_row write_stream delete_row update_row : Op

pub record Faults : Type 0 where
  pub fails : Op → Option Error
  pub fate : Fate

abbrev pub outbox_full : Error
outbox_full = opaque "gatewaysim: outbox capacity reached"

abbrev pub outbox_identity : Error
outbox_identity = opaque "gatewaysim: outbox file is bound to a different gateway or sensor"

abbrev pub outbox_corrupt : Error
outbox_corrupt = opaque "gatewaysim: outbox file is not a usable SQLite database"

abbrev pub outbox_reason : Error
outbox_reason = opaque "gatewaysim: quarantine reason is required and bounded"

-- ErrOutboxCommitUnknown around the error of COMMIT
abbrev pub commit_unknown : Error → Error
commit_unknown e = wrap "gatewaysim: outbox commit outcome is unknown" e

unfoldable pub statement : Faults → Op → Result (Unit {0})
statement f op = elim (f.fails op) [ none ↦ ok tt | some e ↦ err e ]

-- COMMIT, or the deferred rollback.
unfoldable pub settle {ℓ} : {A : Type ℓ} → Fate → Outbox → Result (A × Outbox) → Result A × Outbox
settle fate o (err e) = (err e, o)
settle confirmed o (ok (a, o')) = (ok a, o')
settle (lost e) o (ok (a, o')) = (err (commit_unknown e), o)
settle (applied e) o (ok (a, o')) = (err (commit_unknown e), o')

-- nextSequence, on the row that it found
unfoldable pub next_of : Option ℤ → Result ℤ
next_of none = ok (pos 0)
next_of (some next) = do reject_if (ltb_ℤ next (pos 0)) outbox_corrupt; ok next

-- outboxUsage, the sum
abbrev pub total_bytes : List Row → ℕ
total_bytes [] = 0
total_bytes (r ∷ rs) = r.byte_size + total_bytes rs

abbrev pub is_pending : Row → Bool
is_pending r = elim r.status [ pending ↦ true | quarantined ↦ false ]

-- WHERE gateway_id = ? AND message_id = ? AND status = 'pending'
abbrev pub matches : Uuid → Row → Bool
matches id r = bytes_eq r.message_id id && is_pending r

abbrev pub without : (Row → Bool) → List Row → List Row
without p [] = []
without p (r ∷ rs) = if p r then without p rs else r ∷ without p rs

abbrev pub set_quarantined : Uuid → List Row → List Row
set_quarantined id [] = []
set_quarantined id (r ∷ rs) =
    (if matches id r then record r { status = quarantined } else r) ∷ set_quarantined id rs

-- DeletePending
unfoldable pub delete_pending : Faults → Bytes → Uuid → Outbox → Result Bool × Outbox
delete_pending f gateway_id id o = settle f.fate o (do
  reject_if (not (bytes_eq gateway_id o.gateway_id)) outbox_identity
  statement f begin_tx
  statement f delete_row
  ok (any (matches id) o.rows, record o { rows = without (matches id) o.rows }))

-- Quarantine, for a reason that strings.TrimSpace has trimmed
unfoldable pub quarantine : Faults → Uuid → Bytes → Outbox → Result Bool × Outbox
quarantine f id reason o = settle f.fate o (do
  reject_if
      (is_empty reason || ltb 256 (length reason) || any (λ c. c == 0 || c == 13 || c == 10) reason)
      outbox_reason
  statement f begin_tx
  statement f update_row
  ok (any (matches id) o.rows, record o { rows = set_quarantined id o.rows }))

-- The first rows of a list
abbrev limit_rows : ℕ → List Row → List Row
limit_rows zero rs = []
limit_rows (suc n) [] = []
limit_rows (suc n) (r ∷ rs) = r ∷ limit_rows n rs

-- ORDER BY id ASC, of rows in descending order
abbrev ascending : List Row → List Row → List Row
ascending [] done = done
ascending (r ∷ rs) done = ascending rs (r ∷ done)

abbrev bad_limit : Error
bad_limit = opaque "gatewaysim: pending limit out of range"

-- PendingAfter; Pending is the case of the identifier 0, since identifiers start at 1.
unfoldable pub pending_after : ℕ → ℤ → Outbox → Result (List Row)
pending_after after_id limit o = do
  reject_if (leb_ℤ limit (pos 0) || ltb_ℤ o.max_rows limit) bad_limit
  ok (
      limit_rows (pos_part limit)
        (ascending (without (λ r. not (is_pending r && ltb after_id r.id)) o.rows) []))
