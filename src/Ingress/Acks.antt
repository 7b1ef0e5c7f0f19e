-- ===== src/Ingress/Acks.antt =====
-- The rows of the ledger behind the ACKs of the ingress.
pub mod Published
pub mod Confirmed
use mathlib.Core.Path.{subst}
use project1_iot_server.Uuid.{Uuid}
use project1_iot_server.Telemetry.Errors.{Result, ok, ◌>>=◌, ◌>>◌, ok_inj}
use project1_iot_server.Telemetry.Topic.{ParsedTopic}
use project1_iot_server.Telemetry.Message.{Message}
use project1_iot_server.Store.{Db, LedgerRow, Faults}
use project1_iot_server.Store.Ledger.{has_key, find_row}
use project1_iot_server.Store.Metadata.{LedgerMessage}
use project1_iot_server.Store.Metadata.Entry.{ledger_metadata-IsEntry}
use project1_iot_server.Store.Resources.{Resource}
use project1_iot_server.Store.Persist.{PersistResult, persist}
use project1_iot_server.Store.Persist.Effect.{
  Completed, wrote, repeated, Effect, failed, done, ambiguous, persist-Effect,
}
use project1_iot_server.Ingress.{Services}
use project1_iot_server.Ingress.Process.{identity_matches}
use project1_iot_server.Prelude.{
  ◌-◌, ◌≡◌, sym, ap, ◌∙◌, true, some, List, [], ◌∷◌, arith, any, Bytes, bytes_eq_refl, bytes_eq→eq,
  bytes_eq,
}

-- The ledger has a row for a message of a Gateway.
unfoldable pub Stored : Db → Bytes → Uuid → Type 0
Stored db g id = any (has_key g id) db.ledger ≡ true

any-find_row :
    (g : Bytes) (id : Uuid) (rows : List LedgerRow) (row : LedgerRow)
    → find_row g id rows ≡ some row
    → any (has_key g id) rows ≡ true
unfolding find_row
any-find_row g id [] row h = absurd (ground arith)
any-find_row g id (r ∷ rows) row h = ground (arith, any-find_row g id rows row)

Completed-keeps :
    (m : Message) (e : LedgerMessage) (r : Resource) (a : Db) (b : Db × PersistResult) (g : Bytes)
    (id : Uuid)
    → Completed m e r a b
    → Stored a g id
    → Stored b.0 g id
unfolding Stored
Completed-keeps m e r a b g id (wrote w h) k = rw w.ledger (ground (arith, k))
Completed-keeps m e r a b g id (repeated row found c ha h) k =
    ap (λ (d : Db). any (has_key g id) d.ledger) ha ∙ k

Effect-keeps :
    (f : Faults) (m : Message) (a : Db) (o : Result PersistResult × Db) (g : Bytes) (id : Uuid)
    → Effect f m a o
    → Stored a g id
    → Stored o.1 g id
Effect-keeps f m a o g id (failed x h) k = subst (λ d. Stored d g id) (ap (λ x. x.1) (sym h)) k
Effect-keeps f m a o g id (done e r b he hr c h) k =
    subst (λ d. Stored d g id) (ap (λ x. x.1) (sym h)) (Completed-keeps m e r a b g id c k)
Effect-keeps f m a o g id (ambiguous x e r b he hr c hf h) k =
    subst (λ d. Stored d g id) (ap (λ x. x.1) (sym h)) (Completed-keeps m e r a b g id c k)

Completed-stores :
    (m : Message) (e : LedgerMessage) (r : Resource) (a : Db) (b : Db × PersistResult)
    → Completed m e r a b
    → Stored b.0 e.topic.gateway_id e.message_id
unfolding Stored
Completed-stores m e r a b (wrote w h) =
    rw (w.ledger, bytes_eq_refl e.topic.gateway_id, bytes_eq_refl e.message_id)
Completed-stores m e r a b (repeated row found c ha h) =
    ap (λ (d : Db). any (has_key e.topic.gateway_id e.message_id) d.ledger) ha
    ∙ any-find_row e.topic.gateway_id e.message_id a.ledger row found

Completed-message_id :
    (m : Message) (e : LedgerMessage) (r : Resource) (a : Db) (b : Db × PersistResult)
    → Completed m e r a b
    → b.1.identity.message_id ≡ e.message_id
Completed-message_id m e r a b (wrote w h) = ap (λ (p : PersistResult). p.identity.message_id) h
Completed-message_id m e r a b (repeated row found c ha h) =
    ap (λ (p : PersistResult). p.identity.message_id) h

-- A result with the identity of its message belongs to a row.
matched-Stored :
    (f : Faults) (m : Message) (a db : Db) (p : PersistResult)
    → Effect f m a (ok p, db)
    → identity_matches m p.identity ≡ true
    → Stored db m.topic.gateway_id m.batch.message_id
unfolding identity_matches
matched-Stored f m a db p (failed x h) k = absurd (ground arith)
matched-Stored f m a db p (ambiguous x e r b he hr c hf h) k = absurd (ground arith)
matched-Stored f m a db p (done e r b he hr c h) k =
    let i = ledger_metadata-IsEntry m e he in
    let result : p ≡ b.1 = ok_inj (ap (λ x. x.0) h) in
    let id : e.message_id ≡ m.batch.message_id =
      sym (Completed-message_id m e r a b c)
      ∙ ap (λ (q : PersistResult). q.identity.message_id) (sym result)
      ∙ bytes_eq→eq p.identity.message_id m.batch.message_id (ground (arith, k)) in
    let at_key : Stored b.0 m.topic.gateway_id m.batch.message_id =
      subst (Stored b.0 m.topic.gateway_id) id (
        subst (λ (t : ParsedTopic). Stored b.0 t.gateway_id e.message_id) i.topic
          (Completed-stores m e r a b c)) in
    subst (λ d. Stored d m.topic.gateway_id m.batch.message_id) (ap (λ x. x.1) (sym h)) at_key

pub persist-keeps :
    (v : Services) (f : Faults) (m : Message) (a : Db) (g : Bytes) (id : Uuid)
    → Stored a g id
    → Stored (persist v.format_time v.platform.uuid f a m).1 g id
persist-keeps v f m a g id k =
    Effect-keeps f m a _ g id (persist-Effect v.format_time v.platform.uuid f m a) k

pub persist-Stored :
    (v : Services) (f : Faults) (m : Message) (a : Db) (p : PersistResult)
    → (persist v.format_time v.platform.uuid f a m).0 ≡ ok p
    → identity_matches m p.identity ≡ true
    → Stored (persist v.format_time v.platform.uuid f a m).1 m.topic.gateway_id m.batch.message_id
persist-Stored v f m a p h k =
    let o = persist v.format_time v.platform.uuid f a m in
    matched-Stored f m a o.1 p
      (subst (λ (r : Result PersistResult). Effect f m a (r, o.1)) h
        (persist-Effect v.format_time v.platform.uuid f m a))
      k
