-- ===== src/Store/Reported/Frame.antt =====
-- What the statements on the state and the observation leave alone.
use project1_iot_server.Clock.{Time}
use project1_iot_server.Uuid.{Uuid, uuid_nil, UuidLib}
use project1_iot_server.Telemetry.Errors.{
  invalid_payload, >>=-eq-ok, reject_if-eq-ok, ok, reason, ◌>>=◌, ◌>>◌,
}
use project1_iot_server.Telemetry.Message.{Message}
use project1_iot_server.Store.Ledger.Cases.{run-eq-ok}
use project1_iot_server.Store.{lock_state, Db, Faults, run, TwinState}
use project1_iot_server.Store.Resources.{Resource}
use project1_iot_server.Store.Reported.{
  update_state, Candidate, new_candidate, advance, apply_reported_state, append_interval,
}
use project1_iot_server.Prelude.{suc, ◌≡◌, Option, none, some, arith, length, Bytes, bytes_eq}

-- All tables but twin_states and twin_temporal_values.
pub record SameRows (a b : Db) : Type 0 where
  pub has_gateway : b.has_gateway ≡ a.has_gateway
  pub sensor_unit : b.sensor_unit ≡ a.sensor_unit
  pub twin_graph : b.twin_graph ≡ a.twin_graph
  pub ledger : b.ledger ≡ a.ledger
  pub telemetry : b.telemetry ≡ a.telemetry

advance-SameRows :
    (format_time : Time → Bytes) (u : UuidLib) (db : Db) (id : Uuid) (s : TwinState) (c : Candidate)
    (db' : Db)
    → advance format_time u db id s c ≡ ok db'
    → SameRows db db' × (db'.temporal ≡ db.temporal)
unfolding advance
advance-SameRows format_time u db id s c db' h = ground arith

update-SameRows :
    (format_time : Time → Bytes) (u : UuidLib) (f : Faults) (db : Db) (id : Uuid) (c : Candidate)
    (o : Option TwinState) (db' : Db)
    → update_state format_time u f db id c o ≡ ok db'
    → SameRows db db' × (db'.temporal ≡ db.temporal)
unfolding update_state run
update-SameRows format_time u f db id c none db' h = ground arith
update-SameRows format_time u f db id c (some s) db' h =
    ground (arith, advance-SameRows format_time u db id s c db')

-- The candidate and the update of an application that succeeds.
pub apply_parts :
    (format_time : Time → Bytes) (u : UuidLib) (f : Faults) (db : Db) (r : Resource) (m : Message)
    (db' : Db)
    → apply_reported_state format_time u f db r m ≡ ok db'
    → (c : Candidate) × (new_candidate r m ≡ ok c)
      × (update_state format_time u f db r.entity_id c (db.twin_states r.entity_id) ≡ ok db')
unfolding apply_reported_state
apply_parts format_time u f db r m db' h =
    let update = λ (c : Candidate).
      update_state format_time u f db r.entity_id c (db.twin_states r.entity_id) in
    let locked = λ (c : Candidate). run f lock_state "lock telemetry Sensor state" >> update c in
    let (_, k) =
      reject_if-eq-ok (bytes_eq r.entity_id uuid_nil) (reason invalid_payload "entity_id")
        (new_candidate r m >>= locked) h in
    let (c, hc, k') = >>=-eq-ok (new_candidate r m) locked k in
    (c, hc, run-eq-ok f lock_state "lock telemetry Sensor state" (update c) db' k')

pub apply-SameRows :
    (format_time : Time → Bytes) (u : UuidLib) (f : Faults) (db : Db) (r : Resource) (m : Message)
    (db' : Db)
    → apply_reported_state format_time u f db r m ≡ ok db'
    → SameRows db db' × (db'.temporal ≡ db.temporal)
apply-SameRows format_time u f db r m db' h =
    let (c, _, k) = apply_parts format_time u f db r m db' h in
    update-SameRows format_time u f db r.entity_id c (db.twin_states r.entity_id) db' k

pub append-SameRows :
    (f : Faults) (db : Db) (r : Resource) (m : Message) (db' : Db)
    → append_interval f db r m ≡ ok db'
    → SameRows db db'
      × (db'.twin_states ≡ db.twin_states)
      × (length db'.temporal ≡ suc (length db.temporal))
unfolding append_interval run
append-SameRows f db r m db' h = ground arith
