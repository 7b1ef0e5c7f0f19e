-- ===== src/Store/Persist/Streams.antt =====
-- The sequence numbers of a stream that the ledger covers.
use mathlib.Core.Path.{subst}
use project1_iot_server.Clock.{Time}
use project1_iot_server.Uuid.{Uuid, UuidLib}
use project1_iot_server.Telemetry.Errors.{Result}
use project1_iot_server.Telemetry.Message.{Message}
use project1_iot_server.Store.{Db, LedgerRow, Faults}
use project1_iot_server.Store.Metadata.{LedgerMessage}
use project1_iot_server.Store.Resources.{Resource}
use project1_iot_server.Store.Ledger.{holds, row_of, has_key, find_row, overlaps}
use project1_iot_server.Store.Persist.{PersistResult}
use project1_iot_server.Store.Persist.Effect.{
  Completed, wrote, repeated, Effect, failed, done, ambiguous, persist-Effect,
}
use project1_iot_server.Store.Persist.Resend.{Later, here, there}
use project1_iot_server.Prelude.{
  ℕ, suc, ◌≤◌, ◌≡◌, refl, sym, ap, inl, inr, Bool, true, false, ◌&&◌, Option, none, some, List, [],
  ◌∷◌, arith, if◌then◌else◌, Bool-cases, any, ℤ, leb_ℤ, Bytes, bytes_eq_refl, bytes_eq→eq, bytes_eq,
}

-- A sequence number of a boot of a Sensor.
pub record Position : Type 0 where
  pub gateway_id : Bytes
  pub sensor_id : Bytes
  pub boot_id : Uuid
  pub sequence_num : ℤ

unfoldable pub covers : Position → LedgerRow → Bool
covers p row =
    bytes_eq row.gateway_id p.gateway_id
    && holds (λ s. bytes_eq s p.sensor_id) row.sensor_id
    && holds (λ b. bytes_eq b p.boot_id) row.boot_id
    && holds (λ n. leb_ℤ n p.sequence_num) row.first_sequence
    && holds (λ n. leb_ℤ p.sequence_num n) row.last_sequence

unfoldable pub rows_of : Position → List LedgerRow → ℕ
rows_of p [] = 0
rows_of p (row ∷ rows) = let rest = rows_of p rows in if covers p row then suc rest else rest

unfoldable pub AtMostOnce : List LedgerRow → Type 0
AtMostOnce rows = (p : Position) → rows_of p rows ≤ 1

leb_ℤ-trans : (a b c : ℤ) → leb_ℤ a b ≡ true → leb_ℤ b c ≡ true → leb_ℤ a c ≡ true
leb_ℤ-trans a b c h k = ground arith

bytes_eq-join : (a b c : Bytes) → bytes_eq a c ≡ true → bytes_eq b c ≡ true → bytes_eq a b ≡ true
bytes_eq-join a b c h k = rw (bytes_eq→eq a c h, bytes_eq→eq b c k, bytes_eq_refl c)

holds-join :
    (o : Option Bytes) (b c : Bytes)
    → holds (λ a. bytes_eq a c) o ≡ true
    → bytes_eq b c ≡ true
    → holds (λ a. bytes_eq a b) o ≡ true
holds-join none b c h k = h
holds-join (some a) b c h k = bytes_eq-join a b c h k

holds-from :
    (o : Option ℤ) (b c : ℤ)
    → holds (λ a. leb_ℤ a b) o ≡ true
    → leb_ℤ b c ≡ true
    → holds (λ a. leb_ℤ a c) o ≡ true
holds-from none b c h k = h
holds-from (some a) b c h k = leb_ℤ-trans a b c h k

holds-to :
    (o : Option ℤ) (b c : ℤ)
    → holds (λ a. leb_ℤ b a) o ≡ true
    → leb_ℤ c b ≡ true
    → holds (λ a. leb_ℤ c a) o ≡ true
holds-to none b c h k = h
holds-to (some a) b c h k = leb_ℤ-trans c b a k h

-- A row that covers a position of another message's range overlaps that range.
covers-overlaps :
    (p : Position) (e : LedgerMessage) (row : LedgerRow)
    → covers p (row_of e) ≡ true
    → covers p row ≡ true
    → has_key e.topic.gateway_id e.message_id row ≡ false
    → overlaps e row ≡ true
unfolding covers overlaps
covers-overlaps p e row h k other = ground (
  arith,
  bytes_eq-join row.gateway_id e.topic.gateway_id p.gateway_id,
  holds-join row.sensor_id e.sensor_id p.sensor_id,
  holds-join row.boot_id e.boot_id p.boot_id,
  holds-from row.first_sequence p.sequence_num e.last_sample.sequence_num,
  holds-to row.last_sequence p.sequence_num e.first_sample.sequence_num,
)

none-covers :
    (p : Position) (e : LedgerMessage) (rows : List LedgerRow)
    → covers p (row_of e) ≡ true
    → find_row e.topic.gateway_id e.message_id rows ≡ none
    → any (overlaps e) rows ≡ false
    → rows_of p rows ≡ 0
unfolding find_row rows_of
none-covers p e [] h new free = refl
none-covers p e (row ∷ rows) h new free =
    ground (arith, none-covers p e rows h, covers-overlaps p e row h)

cons-AtMostOnce :
    (e : LedgerMessage) (rows : List LedgerRow)
    → AtMostOnce rows
    → find_row e.topic.gateway_id e.message_id rows ≡ none
    → any (overlaps e) rows ≡ false
    → AtMostOnce (row_of e ∷ rows)
unfolding rows_of AtMostOnce
cons-AtMostOnce e rows k new free p = elim (Bool-cases (covers p (row_of e))) [
  | inl covered ↦ ground (arith, none-covers p e rows covered new free)
  | inr other ↦ ground (arith, k p)
]

Completed-AtMostOnce :
    (m : Message) (e : LedgerMessage) (r : Resource) (a : Db) (b : Db × PersistResult)
    → Completed m e r a b
    → AtMostOnce a.ledger
    → AtMostOnce b.0.ledger
Completed-AtMostOnce m e r a b (wrote w h) k =
    subst AtMostOnce (sym w.ledger) (cons-AtMostOnce e a.ledger k w.key_new w.no_overlap)
Completed-AtMostOnce m e r a b (repeated row found c ha h) k =
    subst (λ (d : Db). AtMostOnce d.ledger) (sym ha) k

Effect-AtMostOnce :
    (f : Faults) (m : Message) (a : Db) (o : Result PersistResult × Db)
    → Effect f m a o
    → AtMostOnce a.ledger
    → AtMostOnce o.1.ledger
Effect-AtMostOnce f m a o (failed x h) k =
    subst (λ (d : Db). AtMostOnce d.ledger) (ap (λ x. x.1) (sym h)) k
Effect-AtMostOnce f m a o (done e r b he hr c h) k =
    subst (λ (d : Db). AtMostOnce d.ledger) (ap (λ x. x.1) (sym h))
      (Completed-AtMostOnce m e r a b c k)
Effect-AtMostOnce f m a o (ambiguous x e r b he hr c hf h) k =
    subst (λ (d : Db). AtMostOnce d.ledger) (ap (λ x. x.1) (sym h))
      (Completed-AtMostOnce m e r a b c k)

-- No sequence number of a boot of a Sensor belongs to two rows of the ledger: when that holds of the
-- tables at first, it holds after any Persists, of any messages and with any faults.
pub at_most_once :
    (format_time : Time → Bytes) (u : UuidLib) (a b : Db)
    → AtMostOnce a.ledger
    → Later format_time u a b
    → AtMostOnce b.ledger
at_most_once format_time u a b k here = k
at_most_once format_time u a b k (there f m l) =
    Effect-AtMostOnce f m _ _ (persist-Effect format_time u f m _)
      (at_most_once format_time u a _ k l)
