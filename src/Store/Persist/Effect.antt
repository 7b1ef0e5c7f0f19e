-- ===== src/Store/Persist/Effect.antt =====
-- What one Persist does to the tables, on every branch.
use project1_iot_server.Clock.{Time}
use project1_iot_server.Uuid.{UuidLib}
use project1_iot_server.Telemetry.Errors.{
  Error, Result, ok, err, commit_unconfirmed_error, ◌>>=◌, >>=-eq-ok, ok_inj,
}
use mathlib.Core.Path.{subst}
use project1_iot_server.Store.Reported.Applied.{Reported, apply-Reported, append_row}
use project1_iot_server.Telemetry.Message.{Message, last_sample}
use project1_iot_server.Telemetry.Model.{SampleCandidate}
use project1_iot_server.Store.{
  TemporalRow, Db, LedgerRow, Faults, Fate, confirmed, lost, applied, begin_tx, copy_samples,
}
use project1_iot_server.Store.Metadata.{LedgerMessage, ledger_metadata}
use project1_iot_server.Store.Resources.{Resource, resolve_resource}
use project1_iot_server.Store.Ledger.{
  Disposition, fresh, duplicate, row_of, find_row, overlaps, classify, insert_telemetry_ledger,
}
use project1_iot_server.Store.Ledger.Cases.{run-eq-ok, Inserted, new_key, same_key, insert-Inserted}
use project1_iot_server.Store.Reported.{apply_reported_state, append_interval}
use project1_iot_server.Store.Reported.Frame.{apply-SameRows, append-SameRows}
use project1_iot_server.Telemetry.Ack.{committed, duplicate_committed}
use project1_iot_server.Store.Persist.{
  PersistResult, result_of, write_rest, transaction, finish, persist,
}
use project1_iot_server.Prelude.{
  ◌≡◌, refl, sym, ap, ◌∙◌, false, none, some, ◌∷◌, ◌++◌, length, any, Bytes,
}

-- The rows of a new message: one of the ledger under a new key that overlaps no other range of its
-- stream, all samples, and, of its last sample, one observation and the report in the row of the entity.
pub record Written (m : Message) (e : LedgerMessage) (r : Resource) (a b : Db) : Type 0 where
  pub key_new : find_row e.topic.gateway_id e.message_id a.ledger ≡ none
  pub no_overlap : any (overlaps e) a.ledger ≡ false
  pub ledger : b.ledger ≡ row_of e ∷ a.ledger
  pub telemetry : b.telemetry ≡ m.samples ++ a.telemetry
  pub last : SampleCandidate
  pub is_last : last_sample m ≡ some last
  pub observation :
      b.temporal
      ≡ record {
        observed_at = last.measured_at;
        entity_id = r.entity_id;
        value_number = m.batch.sample_interval_us;
        boot_id = last.boot_id;
        message_id = last.message_id;
      }
        ∷ a.temporal
  pub report : Reported last m.batch.sample_interval_us r.entity_id a.twin_states b.twin_states
  pub has_gateway : b.has_gateway ≡ a.has_gateway
  pub sensor_unit : b.sensor_unit ≡ a.sensor_unit
  pub twin_graph : b.twin_graph ≡ a.twin_graph

-- A transaction that reaches COMMIT.
pub data Completed (m : Message) (e : LedgerMessage) (r : Resource) (a : Db)
    (b : Db × PersistResult) : Type 0 where
  wrote :
      Written m e r a b.0 → b.1 ≡ result_of r e committed (length m.samples) → Completed m e r a b
  repeated :
      (row : LedgerRow)
      → find_row e.topic.gateway_id e.message_id a.ledger ≡ some row
      → classify e row ≡ ok duplicate
      → b.0 ≡ a
      → b.1 ≡ result_of r e duplicate_committed 0
      → Completed m e r a b

abbrev observed_row : Resource → Message → SampleCandidate → TemporalRow
observed_row r m last = record {
  observed_at = last.measured_at;
  entity_id = r.entity_id;
  value_number = m.batch.sample_interval_us;
  boot_id = last.boot_id;
  message_id = last.message_id;
}

same : {K : Type 0} {x y : Db × PersistResult} → x ≡ y → (g : Db → K) → g y.0 ≡ g x.0
same e g = ap (λ (x : Db × PersistResult). g x.0) (sym e)

module _ (format_time : Time → Bytes) (u : UuidLib) where
  write_rest-fresh :
      (f : Faults) (a w : Db) (r : Resource) (m : Message) (e : LedgerMessage)
      (b : Db × PersistResult)
      → w ≡ record a { ledger = row_of e ∷ a.ledger }
      → find_row e.topic.gateway_id e.message_id a.ledger ≡ none
      → any (overlaps e) a.ledger ≡ false
      → write_rest format_time u f w r m e fresh ≡ ok b
      → Completed m e r a b
  unfolding write_rest
  write_rest-fresh f a w r m e b we key free h =
      let copied = record w { telemetry = m.samples ++ w.telemetry } in
      let last : Db → Result (Db × PersistResult) =
        λ observed. ok (observed, result_of r e committed (length m.samples)) in
      let rest = λ (reported : Db). append_interval f reported r m >>= last in
      let (reported, hr, k) = >>=-eq-ok (apply_reported_state format_time u f copied r m) rest (
        run-eq-ok f copy_samples "copy telemetry samples"
          (apply_reported_state format_time u f copied r m >>= rest) b h) in
      let (observed, ho, k') = >>=-eq-ok (append_interval f reported r m) last k in
      let (s, t) = apply-SameRows format_time u f copied r m reported hr in
      let (s', states, _) = append-SameRows f reported r m observed ho in
      let (last_one, is_last, row) = append_row f reported r m observed ho in
      let eq = ok_inj k' in
      wrote
        (record {
          key_new = key;
          no_overlap = free;
          ledger = same eq (λ d. d.ledger) ∙ s'.ledger ∙ s.ledger ∙ ap (λ (x : Db). x.ledger) we;
          telemetry =
              same eq (λ d. d.telemetry)
              ∙ s'.telemetry
              ∙ s.telemetry
              ∙ ap (λ (x : Db). m.samples ++ x.telemetry) we;
          last = last_one;
          is_last = is_last;
          observation =
              same eq (λ d. d.temporal)
              ∙ row
              ∙ ap (λ x. observed_row r m last_one ∷ x) (t ∙ ap (λ (x : Db). x.temporal) we);
          report =
              subst
                (λ x. Reported last_one m.batch.sample_interval_us r.entity_id x b.0.twin_states)
                (ap (λ (x : Db). x.twin_states) we)
                (subst
                  (λ x. Reported last_one m.batch.sample_interval_us r.entity_id w.twin_states x)
                  (sym (same eq (λ d. d.twin_states) ∙ states))
                  (apply-Reported format_time u f copied r m reported last_one is_last hr));
          has_gateway =
              same eq (λ d. d.has_gateway)
              ∙ s'.has_gateway
              ∙ s.has_gateway
              ∙ ap (λ (x : Db). x.has_gateway) we;
          sensor_unit =
              same eq (λ d. d.sensor_unit)
              ∙ s'.sensor_unit
              ∙ s.sensor_unit
              ∙ ap (λ (x : Db). x.sensor_unit) we;
          twin_graph =
              same eq (λ d. d.twin_graph)
              ∙ s'.twin_graph
              ∙ s.twin_graph
              ∙ ap (λ (x : Db). x.twin_graph) we;
        })
        (sym (ap (λ (x : Db × PersistResult). x.1) eq))

  of_Inserted :
      (f : Faults) (a w : Db) (d : Disposition) (r : Resource) (m : Message) (e : LedgerMessage)
      (b : Db × PersistResult)
      → Inserted a e (w, d)
      → write_rest format_time u f w r m e d ≡ ok b
      → Completed m e r a b
  unfolding write_rest
  of_Inserted f a w d r m e b (new_key key free eq) h =
      write_rest-fresh f a w r m e b (ap (λ (x : Db × Disposition). x.0) eq) key free
        (ap (write_rest format_time u f w r m e) (sym (ap (λ (x : Db × Disposition). x.1) eq)) ∙ h)
  of_Inserted f a w d r m e b (same_key row found c eq) h =
      let k = ok_inj (
        ap (write_rest format_time u f w r m e) (sym (ap (λ (x : Db × Disposition). x.1) eq))
        ∙ h) in
      repeated row found c
        (ap (λ (x : Db × PersistResult). x.0) (sym k) ∙ ap (λ (x : Db × Disposition). x.0) eq)
        (ap (λ (x : Db × PersistResult). x.1) (sym k))

  pub transaction-Completed :
      (f : Faults) (a : Db) (m : Message) (e : LedgerMessage) (b : Db × PersistResult)
      → transaction format_time u f a m e ≡ ok b
      → (r : Resource) × (resolve_resource f a m ≡ ok r) × Completed m e r a b
  unfolding transaction
  transaction-Completed f a m e b h =
      let rest : Resource → Db × Disposition → Result (Db × PersistResult) =
        λ r w. write_rest format_time u f w.0 r m e w.1 in
      let inserted : Resource → Result (Db × PersistResult) =
        λ r. insert_telemetry_ledger f a e >>= rest r in
      let (r, hr, k) = >>=-eq-ok (resolve_resource f a m) inserted (
        run-eq-ok f begin_tx "begin telemetry transaction" (resolve_resource f a m >>= inserted) b
          h) in
      let ((w, d), hi, k') = >>=-eq-ok (insert_telemetry_ledger f a e) (rest r) k in
      (r, hr, of_Inserted f a w d r m e b (insert-Inserted f a e (w, d) hi) k')

-- The ways in which Persist ends: an error that leaves the tables as they were, a transaction that is
-- confirmed, and one that took effect though COMMIT reported an error.
pub data Effect (f : Faults) (m : Message) (db : Db) (o : Result PersistResult × Db) : Type 0 where
  failed : (x : Error) → o ≡ (err x, db) → Effect f m db o
  done :
      (e : LedgerMessage) (r : Resource) (b : Db × PersistResult)
      → ledger_metadata (some m) ≡ ok e
      → resolve_resource f db m ≡ ok r
      → Completed m e r db b
      → o ≡ (ok b.1, b.0)
      → Effect f m db o
  ambiguous :
      (x : Error) (e : LedgerMessage) (r : Resource) (b : Db × PersistResult)
      → ledger_metadata (some m) ≡ ok e
      → resolve_resource f db m ≡ ok r
      → Completed m e r db b
      → f.fate ≡ applied x
      → o ≡ (err (commit_unconfirmed_error x), b.0)
      → Effect f m db o

module _ (format_time : Time → Bytes) (u : UuidLib) where
  finish-Effect :
      (f : Faults) (m : Message) (db : Db) (fate : Fate) (t : Result (Db × PersistResult))
      → f.fate ≡ fate
      → (ledger_metadata (some m) >>= λ e. transaction format_time u f db m e) ≡ t
      → Effect f m db (finish format_time u fate db t)
  unfolding finish
  finish-Effect f m db fate (err x) hf h = failed x refl
  finish-Effect f m db (lost x) (ok b) hf h = failed (commit_unconfirmed_error x) refl
  finish-Effect f m db confirmed (ok b) hf h =
      let (e, he, k) = >>=-eq-ok (ledger_metadata (some m)) (transaction format_time u f db m) h in
      let (r, hr, c) = transaction-Completed format_time u f db m e b k in done e r b he hr c refl
  finish-Effect f m db (applied x) (ok b) hf h =
      let (e, he, k) = >>=-eq-ok (ledger_metadata (some m)) (transaction format_time u f db m) h in
      let (r, hr, c) = transaction-Completed format_time u f db m e b k in
      ambiguous x e r b he hr c hf refl

  -- Persist is all or nothing, whichever statement fails. Either it returns an error and no table has
  -- changed; or the transaction is complete, with the outcome committed or duplicate committed. For a new
  -- key, which overlaps no range of its stream, it adds one ledger row, all samples, and one observation
  -- of the interval at the last sample. Of the reported states it touches only the row of the entity:
  -- that stays where its time of report is not before the last sample, or gets the next version, the
  -- time of the last sample, which is not before the old one, and its value, sequence number and
  -- interval. No other table changes. A key that is there with the same provenance changes nothing. A
  -- complete transaction is reported as an error only where COMMIT itself reported one after it took
  -- effect.
  pub persist-Effect :
      (f : Faults) (m : Message) (db : Db) → Effect f m db (persist format_time u f db m)
  unfolding persist
  persist-Effect f m db = finish-Effect f m db f.fate _ refl refl
