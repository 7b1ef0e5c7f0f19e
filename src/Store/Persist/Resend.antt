-- ===== src/Store/Persist/Resend.antt =====
-- A message that is sent again.
use mathlib.Core.Path.{subst}
use project1_iot_server.Clock.{Time}
use project1_iot_server.Uuid.{Uuid, UuidLib}
use project1_iot_server.Telemetry.Errors.{Result, ok}
use project1_iot_server.Telemetry.Message.{Message}
use project1_iot_server.Store.{
  Db, LedgerRow, Faults, Fate, lost, applied, confirmed, no_faults, run,
}
use project1_iot_server.Store.Metadata.{LedgerMessage, ledger_metadata}
use project1_iot_server.Store.Metadata.Entry.{ledger_metadata-IsEntry, classify_self}
use project1_iot_server.Store.Resources.{Resource, resolve_resource}
use project1_iot_server.Store.Ledger.{
  duplicate, row_of, has_key, find_row, classify, insert_or_classify, insert_telemetry_ledger,
}
use project1_iot_server.Telemetry.Ack.{duplicate_committed}
use project1_iot_server.Store.Persist.{
  PersistResult, result_of, write_rest, transaction, finish, persist,
}
use project1_iot_server.Store.Persist.Effect.{
  transaction-Completed, Completed, wrote, repeated, Effect, failed, done, ambiguous,
  persist-Effect,
}
use project1_iot_server.Prelude.{
  ◌≡◌, refl, sym, ap, ◌∙◌, inl, inr, Bool, true, false, none, some, List, ◌∷◌, arith, Bool-cases,
  and_parts, Bytes, bytes_eq_refl, bytes_eq→eq, bytes_eq,
}

-- What a message needs of the tables to be recognised.
pub record Recorded (m : Message) (e : LedgerMessage) (r : Resource) (db : Db) : Type 0 where
  pub metadata : ledger_metadata (some m) ≡ ok e
  pub resource : resolve_resource no_faults db m ≡ ok r
  pub row : LedgerRow
  pub found : find_row e.topic.gateway_id e.message_id db.ledger ≡ some row
  pub same : classify e row ≡ ok duplicate

resolve_no_faults :
    (f : Faults) (db : Db) (m : Message) (r : Resource)
    → resolve_resource f db m ≡ ok r
    → resolve_resource no_faults db m ≡ ok r
unfolding resolve_resource run
resolve_no_faults f db m r h = ground arith

resolve_same :
    (f : Faults) (a b : Db) (m : Message)
    → b.has_gateway ≡ a.has_gateway
    → b.sensor_unit ≡ a.sensor_unit
    → b.twin_graph ≡ a.twin_graph
    → resolve_resource f b m ≡ resolve_resource f a m
unfolding resolve_resource
resolve_same f a b m h₁ h₂ h₃ = rw (h₁, h₂, h₃)

find_row-cons :
    (g : Bytes) (id : Uuid) (e : LedgerMessage) (rows : List LedgerRow) (row : LedgerRow)
    → find_row e.topic.gateway_id e.message_id rows ≡ none
    → find_row g id rows ≡ some row
    → find_row g id (row_of e ∷ rows) ≡ some row
unfolding find_row
find_row-cons g id e rows row new found = elim (Bool-cases (has_key g id (row_of e))) [
  | inr other ↦ rw other found
  | inl same ↦
      let (p, q) = and_parts (bytes_eq e.topic.gateway_id g) (bytes_eq e.message_id id) same in
      absurd (ground (arith, bytes_eq→eq e.topic.gateway_id g, bytes_eq→eq e.message_id id))
]

find_row_self :
    (e : LedgerMessage) (rows : List LedgerRow)
    → find_row e.topic.gateway_id e.message_id (row_of e ∷ rows) ≡ some (row_of e)
unfolding find_row
find_row_self e rows = rw (bytes_eq_refl e.topic.gateway_id, bytes_eq_refl e.message_id)

-- Persist without faults answers a recorded message as a duplicate, and changes nothing.
persist_of_Recorded :
    (format_time : Time → Bytes) (u : UuidLib) (m : Message) (e : LedgerMessage) (r : Resource)
    (db : Db)
    → Recorded m e r db
    → persist format_time u no_faults db m ≡ (ok (result_of r e duplicate_committed 0), db)
unfolding persist transaction finish insert_telemetry_ledger insert_or_classify run write_rest
persist_of_Recorded format_time u m e r db k = rw (k.metadata, k.resource, k.found, k.same)

Completed-Recorded :
    (f : Faults) (m : Message) (e : LedgerMessage) (r : Resource) (a : Db) (b : Db × PersistResult)
    → ledger_metadata (some m) ≡ ok e
    → resolve_resource f a m ≡ ok r
    → Completed m e r a b
    → Recorded m e r b.0
Completed-Recorded f m e r a b he hr (wrote w hb) = record {
  metadata = he;
  resource =
      resolve_no_faults f b.0 m r
        (resolve_same f a b.0 m w.has_gateway w.sensor_unit w.twin_graph ∙ hr);
  row = row_of e;
  found = ap (find_row e.topic.gateway_id e.message_id) w.ledger ∙ find_row_self e a.ledger;
  same = classify_self m e (ledger_metadata-IsEntry m e he);
}
Completed-Recorded f m e r a b he hr (repeated row found c ha hb) = record {
  metadata = he;
  resource = resolve_no_faults f b.0 m r (ap (λ d. resolve_resource f d m) ha ∙ hr);
  row = row;
  found = ap (λ (d : Db). find_row e.topic.gateway_id e.message_id d.ledger) ha ∙ found;
  same = c;
}

Completed-keeps :
    (m n : Message) (e e' : LedgerMessage) (r r' : Resource) (a : Db) (b : Db × PersistResult)
    → Recorded m e r a
    → Completed n e' r' a b
    → Recorded m e r b.0
Completed-keeps m n e e' r r' a b k (wrote w hb) = record {
  metadata = k.metadata;
  resource = resolve_same no_faults a b.0 m w.has_gateway w.sensor_unit w.twin_graph ∙ k.resource;
  row = k.row;
  found =
      ap (find_row e.topic.gateway_id e.message_id) w.ledger
      ∙ find_row-cons e.topic.gateway_id e.message_id e' a.ledger k.row w.key_new k.found;
  same = k.same;
}
Completed-keeps m n e e' r r' a b k (repeated row found c ha hb) = subst (Recorded m e r) (sym ha) k

Effect-keeps :
    (f : Faults) (m n : Message) (e : LedgerMessage) (r : Resource) (a : Db)
    (o : Result PersistResult × Db)
    → Recorded m e r a
    → Effect f n a o
    → Recorded m e r o.1
Effect-keeps f m n e r a o k (failed x h) = subst (Recorded m e r) (ap (λ x. x.1) (sym h)) k
Effect-keeps f m n e r a o k (done e' r' b he hr c h) =
    subst (Recorded m e r) (ap (λ x. x.1) (sym h)) (Completed-keeps m n e e' r r' a b k c)
Effect-keeps f m n e r a o k (ambiguous x e' r' b he hr c hf h) =
    subst (Recorded m e r) (ap (λ x. x.1) (sym h)) (Completed-keeps m n e e' r r' a b k c)

Completed-answer :
    (m : Message) (e : LedgerMessage) (r : Resource) (a : Db) (b : Db × PersistResult)
    → Completed m e r a b
    → record b.1 { outcome = duplicate_committed; samples_saved = 0 }
      ≡ result_of r e duplicate_committed 0
Completed-answer m e r a b (wrote w h) =
    ap (λ (p : PersistResult). record p { outcome = duplicate_committed; samples_saved = 0 }) h
Completed-answer m e r a b (repeated row found c ha h) =
    ap (λ (p : PersistResult). record p { outcome = duplicate_committed; samples_saved = 0 }) h

-- Whether the changes of a transaction are there after COMMIT.
abbrev pub took_effect : Fate → Bool
took_effect confirmed = true
took_effect (lost e) = false
took_effect (applied e) = true

module _ (format_time : Time → Bytes) (u : UuidLib) where
  -- The tables after any Persists of any messages, each with its faults.
  pub data Later (a : Db) : Db → Type 0 where
    here : Later a a
    there :
        {b : Db} (f : Faults) (m : Message) → Later a b → Later a (persist format_time u f b m).1

  Later-Recorded :
      (m : Message) (e : LedgerMessage) (r : Resource) (a b : Db)
      → Recorded m e r a
      → Later a b
      → Recorded m e r b
  Later-Recorded m e r a b k here = k
  Later-Recorded m e r a b k (there f n l) =
      Effect-keeps f m n e r _ _ (Later-Recorded m e r a _ k l) (persist-Effect format_time u f n _)

  finish-took_effect :
      (fate : Fate) (db : Db) (b : Db × PersistResult)
      → took_effect fate ≡ true
      → (finish format_time u fate db (ok b)).1 ≡ b.0
  unfolding finish
  finish-took_effect confirmed db b h = refl
  finish-took_effect (lost e) db b h = absurd (ground arith)
  finish-took_effect (applied e) db b h = refl

  persist-took_effect :
      (f : Faults) (db : Db) (m : Message) (e : LedgerMessage) (b : Db × PersistResult)
      → ledger_metadata (some m) ≡ ok e
      → transaction format_time u f db m e ≡ ok b
      → took_effect f.fate ≡ true
      → (persist format_time u f db m).1 ≡ b.0
  unfolding persist
  persist-took_effect f db m e b he ht hf =
      ap (λ t. (finish format_time u f.fate db t).1) (rw (he, ht) refl)
      ∙ finish-took_effect f.fate db b hf

  -- A message whose transaction was complete is durable and is not stored twice. When COMMIT took
  -- effect, even where it reported an error, then after any later Persists, of any messages and with
  -- any faults, a Persist of the same message without faults answers with the same identity, the
  -- outcome duplicate committed and no saved sample, and leaves every table as it is.
  pub resend :
      (f : Faults) (db : Db) (m : Message) (e : LedgerMessage) (b : Db × PersistResult) (c : Db)
      → ledger_metadata (some m) ≡ ok e
      → transaction format_time u f db m e ≡ ok b
      → took_effect f.fate ≡ true
      → Later (persist format_time u f db m).1 c
      → persist format_time u no_faults c m
        ≡ (ok (record b.1 { outcome = duplicate_committed; samples_saved = 0 }), c)
  resend f db m e b c he ht hf l =
      let (r, hr, k) = transaction-Completed format_time u f db m e b ht in
      let first = Completed-Recorded f m e r db b he hr k in
      let start = subst (Recorded m e r) (sym (persist-took_effect f db m e b he ht hf)) first in
      persist_of_Recorded format_time u m e r c (Later-Recorded m e r _ c start l)
      ∙ ap (λ (p : PersistResult). (ok p, c)) (sym (Completed-answer m e r db b k))
