-- ===== src/Store/Ledger/Cases.antt =====
-- The cases of insertTelemetryLedger.
use project1_iot_server.Telemetry.Errors.{
  Result, ok, reason, sequence_overlap, ◌>>=◌, ◌>>◌, reject_if, >>=-eq-ok, reject_if-eq-ok, ok_inj,
}
use project1_iot_server.Store.{
  Db, LedgerRow, Faults, Op, check_overlap, insert_ledger, read_conflict, run,
}
use project1_iot_server.Store.Metadata.{LedgerMessage}
use project1_iot_server.Store.Ledger.{
  Disposition, fresh, duplicate, row_of, find_row, overlaps, classify, compare_row,
  insert_or_classify, insert_telemetry_ledger,
}
use project1_iot_server.Prelude.{
  String, ◌≡◌, refl, sym, ap, ◌∙◌, inl, inr, false, Option, none, some, ◌∷◌, arith, Option-cases,
  any,
}

-- A statement that succeeds does nothing else.
pub run-eq-ok :
    {B : Type 0} (f : Faults) (op : Op) (s : String) (k : Result B) (b : B)
    → (run f op s >> k) ≡ ok b
    → k ≡ ok b
unfolding run
run-eq-ok f op s k b h = elim (Option-cases (f.fails op)) [
  | inl e ↦ ground arith
  | inr (x, e) ↦ ground arith
]

-- The cases of a success, for the rows before it.
pub data Inserted (db : Db) (e : LedgerMessage) (r : Db × Disposition) : Type 0 where
  new_key :
      find_row e.topic.gateway_id e.message_id db.ledger ≡ none
      → any (overlaps e) db.ledger ≡ false
      → r ≡ (record db { ledger = row_of e ∷ db.ledger }, fresh)
      → Inserted db e r
  same_key :
      (row : LedgerRow)
      → find_row e.topic.gateway_id e.message_id db.ledger ≡ some row
      → classify e row ≡ ok duplicate
      → r ≡ (db, duplicate)
      → Inserted db e r

classify_duplicate :
    (e : LedgerMessage) (row : LedgerRow) (d : Disposition) → classify e row ≡ ok d → d ≡ duplicate
unfolding classify compare_row
classify_duplicate e row d h = ground arith

insert_or_classify-Inserted :
    (f : Faults) (db : Db) (e : LedgerMessage) (o : Option LedgerRow) (r : Db × Disposition)
    → find_row e.topic.gateway_id e.message_id db.ledger ≡ o
    → insert_or_classify f db e o ≡ ok r
    → Inserted db e r
unfolding insert_or_classify
insert_or_classify-Inserted f db e none r found h =
    let written : Result (Db × Disposition) =
      ok (record db { ledger = row_of e ∷ db.ledger }, fresh) in
    let overlap = any (overlaps e) db.ledger in
    let x = reason sequence_overlap "sequence_range" in
    let (free, k) = reject_if-eq-ok overlap x written (
      run-eq-ok f check_overlap "check telemetry sequence overlap" (reject_if overlap x >> written)
        r h) in
    new_key found free (sym (ok_inj k))
insert_or_classify-Inserted f db e (some row) r found h =
    let later = classify e row >>= λ d. ok (db, d) in
    let (d, c, k) =
      >>=-eq-ok (classify e row) (λ d. ok (db, d))
        (run-eq-ok f read_conflict "read conflicting telemetry message ledger" later r h) in
    let dup = classify_duplicate e row d c in
    same_key row found (c ∙ ap ok dup) (sym (ok_inj k) ∙ ap (λ x. (db, x)) dup)

pub insert-Inserted :
    (f : Faults) (db : Db) (e : LedgerMessage) (r : Db × Disposition)
    → insert_telemetry_ledger f db e ≡ ok r
    → Inserted db e r
unfolding insert_telemetry_ledger
insert-Inserted f db e r h =
    let o = find_row e.topic.gateway_id e.message_id db.ledger in
    insert_or_classify-Inserted f db e o r refl (
      run-eq-ok f insert_ledger "insert telemetry message ledger" (insert_or_classify f db e o) r h)
