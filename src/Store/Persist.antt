-- ===== src/Store/Persist.antt =====
-- src/internal/telemetry/postgres_repository.go: one transaction for one message.
pub mod Effect
pub mod Resend
pub mod Streams
pub mod States
use project1_iot_server.Clock.{Time}
use project1_iot_server.Uuid.{Uuid, UuidLib}
use project1_iot_server.Telemetry.Errors.{
  Result, ok, err, reason, dependency_unavailable, commit_unconfirmed_error, ◌>>=◌, ◌>>◌,
}
use project1_iot_server.Telemetry.Message.{Message}
use project1_iot_server.Telemetry.Ack.{CommitOutcome, committed, duplicate_committed}
use project1_iot_server.Store.{
  Db, Faults, Fate, confirmed, lost, applied, begin_tx, copy_samples, run,
}
use project1_iot_server.Store.Metadata.{LedgerMessage, ledger_metadata}
use project1_iot_server.Store.Resources.{Resource, resolve_resource}
use project1_iot_server.Store.Ledger.{
  Disposition, unconfirmed, fresh, duplicate, insert_telemetry_ledger,
}
use project1_iot_server.Store.Reported.{apply_reported_state, append_interval}
use project1_iot_server.Prelude.{ℕ, some, ◌++◌, length, Bytes}

-- MessageIdentity
pub record MessageIdentity : Type 0 where
  pub gateway_id : Bytes
  pub sensor_id : Bytes
  pub boot_id : Uuid
  pub message_id : Uuid

pub record PersistResult : Type 0 where
  pub identity : MessageIdentity
  pub outcome : CommitOutcome
  pub samples_saved : ℕ

abbrev pub result_of : Resource → LedgerMessage → CommitOutcome → ℕ → PersistResult
result_of r e outcome saved = record {
  identity = record {
    gateway_id = r.gateway_id;
    sensor_id = r.sensor_id;
    boot_id = e.boot_id;
    message_id = e.message_id;
  };
  outcome = outcome;
  samples_saved = saved;
}

module _ (format_time : Time → Bytes) (u : UuidLib) where
  -- The statements behind the ledger, by its disposition. CopyFrom reports as many rows as it was
  -- given, so the comparison of the counts never fails.
  unfoldable pub write_rest :
      Faults → Db → Resource → Message → LedgerMessage → Disposition → Result (Db × PersistResult)
  write_rest f db r m e duplicate = ok (db, result_of r e duplicate_committed 0)
  write_rest f db r m e unconfirmed = err (reason dependency_unavailable "ledger_outcome")
  write_rest f db r m e fresh = do
    run f copy_samples "copy telemetry samples"
    let copied = record db { telemetry = m.samples ++ db.telemetry }
    reported ← apply_reported_state format_time u f copied r m
    observed ← append_interval f reported r m
    ok (observed, result_of r e committed (length m.samples))

  -- The transaction up to COMMIT, on the rows as the transaction sees them.
  unfoldable pub transaction : Faults → Db → Message → LedgerMessage → Result (Db × PersistResult)
  transaction f db m e = do
    run f begin_tx "begin telemetry transaction"
    r ← resolve_resource f db m
    (written, disposition) ← insert_telemetry_ledger f db e
    write_rest f written r m e disposition

  -- COMMIT, or the deferred rollback where the transaction failed.
  unfoldable pub finish : Fate → Db → Result (Db × PersistResult) → Result PersistResult × Db
  finish fate db (err e) = (err e, db)
  finish confirmed db (ok (db', r)) = (ok r, db')
  finish (lost e) db (ok (db', r)) = (err (commit_unconfirmed_error e), db)
  finish (applied e) db (ok (db', r)) = (err (commit_unconfirmed_error e), db')

  -- Persist
  unfoldable pub persist : Faults → Db → Message → Result PersistResult × Db
  persist f db m = finish f.fate db (ledger_metadata (some m) >>= λ e. transaction f db m e)
