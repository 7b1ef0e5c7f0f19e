-- ===== src/Store/Reported/Forward.antt =====
-- The direction in which the reported state of an entity moves.
use mathlib.Core.Path.{subst}
use project1_iot_server.Clock.{Time, after}
use project1_iot_server.Uuid.{Uuid, UuidLib}
use project1_iot_server.Telemetry.Errors.{
  ok, ◌>>◌, reject_if-eq-ok, ok_inj, opaque, dependency_error,
}
use project1_iot_server.Telemetry.Message.{Message}
use project1_iot_server.Store.Ledger.Cases.{run-eq-ok}
use project1_iot_server.Store.{advance_state, Db, Faults, TwinState, run}
use project1_iot_server.Store.Resources.{Resource}
use project1_iot_server.Store.Reported.{
  Object, update_state, Candidate, state_advances, advance, next_state, apply_reported_state,
  put_state,
}
use project1_iot_server.Store.Reported.Frame.{apply_parts}
use project1_iot_server.Prelude.{
  ◌≡◌, refl, ap, ◌∙◌, inl, inr, Bool, true, false, not, Option, none, some, arith, Bool-cases, pos,
  eqb_ℤ, max_int64, ◌+ℤ◌, Bytes, bytes_eq→eq, bytes_eq,
}

abbrev pub not_before : Option Time → Option Time → Bool
not_before none t = true
not_before (some a) none = false
not_before (some a) (some b) = not (after a b)

-- A row stays, or gets the next version and a time of report that is not earlier.
pub data Moves (a b : Option TwinState) : Type 0 where
  stays : b ≡ a → Moves a b
  moves :
      (s t : TwinState)
      → a ≡ some s
      → b ≡ some t
      → t.reported_version ≡ s.reported_version +ℤ pos 1
      → not_before s.last_reported_at t.last_reported_at ≡ true
      → Moves a b

pub advances_time :
    (u : UuidLib) (o : Option Object) (t : Option Time) (c : Candidate)
    → state_advances u o t c ≡ true
    → not_before t (some c.observed_at) ≡ true
unfolding state_advances
advances_time u o none c h = refl
advances_time u o (some t) c h = ground arith

put-Moves :
    (states : Uuid → Option TwinState) (id : Uuid) (s t : TwinState)
    → states id ≡ some s
    → t.reported_version ≡ s.reported_version +ℤ pos 1
    → not_before s.last_reported_at t.last_reported_at ≡ true
    → (j : Uuid) → Moves (states j) (put_state states id t j)
put-Moves states id s t hs hv ht j = elim (Bool-cases (bytes_eq j id)) [
  | inl same ↦ moves s t (ap states (bytes_eq→eq j id same) ∙ hs) (rw same refl) hv ht
  | inr other ↦ stays (rw other refl)
]

advance-Moves :
    (format_time : Time → Bytes) (u : UuidLib) (db : Db) (id : Uuid) (s : TwinState) (c : Candidate)
    (db' : Db)
    → db.twin_states id ≡ some s
    → state_advances u s.reported_state s.last_reported_at c ≡ true
    → advance format_time u db id s c ≡ ok db'
    → (j : Uuid) → Moves (db.twin_states j) (db'.twin_states j)
unfolding advance next_state
advance-Moves format_time u db id s c db' hs ha h j =
    let (_, k) =
      reject_if-eq-ok (eqb_ℤ s.reported_version (pos max_int64))
        (dependency_error "advance telemetry Sensor reported state" (opaque "bigint out of range"))
        (ok
          (record db { twin_states = put_state db.twin_states id (next_state format_time u s c) }))
        h in
    subst (λ (d : Db). Moves (db.twin_states j) (d.twin_states j)) (ok_inj k)
      (put-Moves db.twin_states id s (next_state format_time u s c) hs refl
        (advances_time u s.reported_state s.last_reported_at c ha) j)

update-Moves :
    (format_time : Time → Bytes) (u : UuidLib) (f : Faults) (db : Db) (id : Uuid) (c : Candidate)
    (o : Option TwinState) (db' : Db)
    → db.twin_states id ≡ o
    → update_state format_time u f db id c o ≡ ok db'
    → (j : Uuid) → Moves (db.twin_states j) (db'.twin_states j)
unfolding update_state
update-Moves format_time u f db id c none db' ho h j = absurd (ground arith)
update-Moves format_time u f db id c (some s) db' ho h j =
    elim (Bool-cases (state_advances u s.reported_state s.last_reported_at c)) [
      | inr old ↦
          let k : db ≡ db' = ok_inj (ground (arith, old, h)) in
          subst (λ (d : Db). Moves (db.twin_states j) (d.twin_states j)) k (stays refl)
      | inl new ↦
          let k : (run f advance_state "advance telemetry Sensor reported state"
                >> advance format_time u db id s c)
              ≡ ok db' =
            ground (arith, new, h) in
          advance-Moves format_time u db id s c db' ho new
            (run-eq-ok f advance_state "advance telemetry Sensor reported state"
              (advance format_time u db id s c) db' k)
            j
    ]

pub apply-Moves :
    (format_time : Time → Bytes) (u : UuidLib) (f : Faults) (db : Db) (r : Resource) (m : Message)
    (db' : Db)
    → apply_reported_state format_time u f db r m ≡ ok db'
    → (j : Uuid) → Moves (db.twin_states j) (db'.twin_states j)
apply-Moves format_time u f db r m db' h j =
    let (c, _, k) = apply_parts format_time u f db r m db' h in
    update-Moves format_time u f db r.entity_id c (db.twin_states r.entity_id) db' refl k j
