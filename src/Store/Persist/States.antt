-- ===== src/Store/Persist/States.antt =====
-- The reported states over one Persist.
use mathlib.Core.Path.{subst}
use project1_iot_server.Clock.{Time}
use project1_iot_server.Uuid.{Uuid, UuidLib}
use project1_iot_server.Telemetry.Errors.{Result, ok, err, ◌>>=◌, >>=-eq-ok, ok_inj}
use project1_iot_server.Telemetry.Message.{Message}
use project1_iot_server.Store.{
  TwinState, Db, Faults, Fate, confirmed, lost, applied, begin_tx, copy_samples,
}
use project1_iot_server.Store.Metadata.{LedgerMessage, ledger_metadata}
use project1_iot_server.Store.Resources.{Resource, resolve_resource}
use project1_iot_server.Store.Ledger.{
  Disposition, unconfirmed, fresh, duplicate, insert_telemetry_ledger,
}
use project1_iot_server.Store.Ledger.Cases.{run-eq-ok, Inserted, new_key, same_key, insert-Inserted}
use project1_iot_server.Store.Reported.{apply_reported_state, append_interval}
use project1_iot_server.Store.Reported.Frame.{append-SameRows}
use project1_iot_server.Store.Reported.Forward.{Moves, stays, apply-Moves}
use project1_iot_server.Telemetry.Ack.{committed}
use project1_iot_server.Store.Persist.{
  PersistResult, result_of, write_rest, transaction, finish, persist,
}
use project1_iot_server.Prelude.{◌≡◌, refl, sym, ap, Option, some, ◌++◌, arith, length, Bytes}

abbrev States : Type 0
States = Uuid → Option TwinState

Inserted-states :
    (a w : Db) (e : LedgerMessage) (d : Disposition)
    → Inserted a e (w, d)
    → w.twin_states ≡ a.twin_states
Inserted-states a w e d (new_key key free eq) = ap (λ (x : Db × Disposition). x.0.twin_states) eq
Inserted-states a w e d (same_key row found c eq) =
    ap (λ (x : Db × Disposition). x.0.twin_states) eq

module _ (format_time : Time → Bytes) (u : UuidLib) where
  write_rest-Moves :
      (f : Faults) (w : Db) (r : Resource) (m : Message) (e : LedgerMessage) (d : Disposition)
      (b : Db × PersistResult) (j : Uuid)
      → write_rest format_time u f w r m e d ≡ ok b
      → Moves (w.twin_states j) (b.0.twin_states j)
  unfolding write_rest
  write_rest-Moves f w r m e unconfirmed b j h = absurd (ground arith)
  write_rest-Moves f w r m e duplicate b j h =
      subst (λ (x : Db × PersistResult). Moves (w.twin_states j) (x.0.twin_states j)) (ok_inj h)
        (stays refl)
  write_rest-Moves f w r m e fresh b j h =
      let copied = record w { telemetry = m.samples ++ w.telemetry } in
      let last : Db → Result (Db × PersistResult) =
        λ observed. ok (observed, result_of r e committed (length m.samples)) in
      let rest = λ (reported : Db). append_interval f reported r m >>= last in
      let (reported, hr, k) = >>=-eq-ok (apply_reported_state format_time u f copied r m) rest (
        run-eq-ok f copy_samples "copy telemetry samples"
          (apply_reported_state format_time u f copied r m >>= rest) b h) in
      let (observed, ho, k') = >>=-eq-ok (append_interval f reported r m) last k in
      let (_, kept, _) = append-SameRows f reported r m observed ho in
      subst (λ (x : Db × PersistResult). Moves (w.twin_states j) (x.0.twin_states j)) (ok_inj k')
        (subst (λ (s : States). Moves (w.twin_states j) (s j)) (sym kept)
          (apply-Moves format_time u f copied r m reported hr j))

  transaction-Moves :
      (f : Faults) (a : Db) (m : Message) (e : LedgerMessage) (b : Db × PersistResult) (j : Uuid)
      → transaction format_time u f a m e ≡ ok b
      → Moves (a.twin_states j) (b.0.twin_states j)
  unfolding transaction
  transaction-Moves f a m e b j h =
      let rest : Resource → Db × Disposition → Result (Db × PersistResult) =
        λ r w. write_rest format_time u f w.0 r m e w.1 in
      let inserted : Resource → Result (Db × PersistResult) =
        λ r. insert_telemetry_ledger f a e >>= rest r in
      let (r, hr, k) = >>=-eq-ok (resolve_resource f a m) inserted (
        run-eq-ok f begin_tx "begin telemetry transaction" (resolve_resource f a m >>= inserted) b
          h) in
      let ((w, d), hi, k') = >>=-eq-ok (insert_telemetry_ledger f a e) (rest r) k in
      subst (λ (s : States). Moves (s j) (b.0.twin_states j))
        (Inserted-states a w e d (insert-Inserted f a e (w, d) hi))
        (write_rest-Moves f w r m e d b j k')

  finish-Moves :
      (fate : Fate) (f : Faults) (db : Db) (m : Message) (t : Result (Db × PersistResult))
      (j : Uuid)
      → (ledger_metadata (some m) >>= transaction format_time u f db m) ≡ t
      → Moves (db.twin_states j) ((finish format_time u fate db t).1.twin_states j)
  unfolding finish
  finish-Moves fate f db m (err x) j h = stays refl
  finish-Moves (lost x) f db m (ok b) j h = stays refl
  finish-Moves confirmed f db m (ok b) j h =
      let (e, _, k) = >>=-eq-ok (ledger_metadata (some m)) (transaction format_time u f db m) h in
      transaction-Moves f db m e b j k
  finish-Moves (applied x) f db m (ok b) j h =
      let (e, _, k) = >>=-eq-ok (ledger_metadata (some m)) (transaction format_time u f db m) h in
      transaction-Moves f db m e b j k

  -- The reported state of an entity never goes back. Over any Persist with any faults, the row of each
  -- entity stays as it is, or its version is raised by one and its time of report does not become
  -- earlier.
  pub persist-Moves :
      (f : Faults) (db : Db) (m : Message) (j : Uuid)
      → Moves (db.twin_states j) ((persist format_time u f db m).1.twin_states j)
  unfolding persist
  persist-Moves f db m j = finish-Moves f.fate f db m _ j refl
