-- ===== src/Store/Reported.antt =====
-- src/internal/telemetry/postgres_reported_state.go and postgres_temporal.go: the reported state of a
-- Sensor, and the observation of the sample interval.
pub mod Frame
pub mod Forward
pub mod Applied
use project1_iot_server.Clock.{Time, after}
use project1_iot_server.Uuid.{Uuid, uuid_nil, UuidLib}
use project1_iot_server.Telemetry.Errors.{
  Result, ok, err, reason, opaque, invalid_payload, resource_graph_incomplete, dependency_error,
  ◌>>=◌, ◌>>◌, reject_if, or_error,
}
use project1_iot_server.Telemetry.Model.{Float64}
use project1_iot_server.Telemetry.Range.{max_exact_float64_integer}
use project1_iot_server.Telemetry.Message.{Message, last_sample}
use project1_iot_server.Store.{
  Db, TwinState, JsonScalar, str, int, float, Faults, lock_state, advance_state, append_temporal,
  run,
}
use project1_iot_server.Store.Resources.{Resource}
use project1_iot_server.Prelude.{
  Bool, true, false, not, ◌&&◌, ◌||◌, Option, none, some, List, [], ◌∷◌, ◌++◌, if◌then◌else◌, ℤ,
  pos, ltb_ℤ, leb_ℤ, eqb_ℤ, max_int64, ◌+ℤ◌, Bytes, codes, is_empty, bytes_eq,
}

-- reportedStateCandidate
pub record Candidate : Type 0 where
  pub value : Float64
  pub observed_at : Time
  pub boot_id : Uuid
  pub sequence_num : ℤ
  pub sample_interval_us : ℤ
  pub unit : Option Bytes

-- newReportedStateCandidate
unfoldable pub new_candidate : Resource → Message → Result Candidate
new_candidate r m = do
  last ← or_error (last_sample m) (reason invalid_payload "message_samples")
  reject_if (leb_ℤ m.batch.sample_interval_us (pos 0)) (reason invalid_payload "sample_interval_us")
  ok (record {
    value = last.value;
    observed_at = last.measured_at;
    boot_id = last.boot_id;
    sequence_num = last.sequence_num;
    sample_interval_us = m.batch.sample_interval_us;
    unit = r.unit;
  })

abbrev pub Object : Type 0
Object = List (Bytes × JsonScalar)

abbrev pub get_key : Bytes → Object → Option JsonScalar
get_key k [] = none
get_key k ((j, v) ∷ o) = if bytes_eq j k then some v else get_key k o

abbrev unit_entry : Option Bytes → Object
unit_entry none = []
unit_entry (some u) = (codes "unit", str u) ∷ []

-- merge, for the functions Time.Format and UUID.String.
unfoldable pub merge : (Time → Bytes) → (Uuid → Bytes) → Candidate → Object
merge format_time format_uuid c =
    (codes "value", float c.value)
    ∷ (codes "observed_at", str (format_time c.observed_at))
    ∷ (codes "boot_id", str (format_uuid c.boot_id))
    ∷ (codes "sequence_num", int c.sequence_num)
    ∷ (codes "sample_interval_us", int c.sample_interval_us)
    ∷ unit_entry c.unit

-- reported_state || merge: a key on the right hides the key on the left.
abbrev concat_state : Option Object → Object → Option Object
concat_state none o = none
concat_state (some s) o = some (o ++ s)

-- The values of storedSensorProvenance.
abbrev provenance_pair : Option JsonScalar → Option JsonScalar → Option (Bytes × ℤ)
provenance_pair (some (str boot)) (some (int n)) =
    if is_empty boot || ltb_ℤ n (pos 0) then none else some (boot, n)
provenance_pair _ _ = none

-- storedSensorProvenance
unfoldable pub stored_provenance : Option Object → Option (Bytes × ℤ)
stored_provenance none = none
stored_provenance (some o) =
    provenance_pair (get_key (codes "boot_id") o) (get_key (codes "sequence_num") o)

same_boot : Option Uuid → Uuid → Bool
same_boot none id = false
same_boot (some boot) id = bytes_eq boot id

-- The order by boot and sequence number, at equal times.
newer_sequence : UuidLib → Option (Bytes × ℤ) → Candidate → Bool
unfolding same_boot
newer_sequence u none c = false
newer_sequence u (some (boot, n)) c = same_boot (u.parse boot) c.boot_id && ltb_ℤ n c.sequence_num

-- sensorStateAdvances
unfoldable pub state_advances : UuidLib → Option Object → Option Time → Candidate → Bool
unfolding newer_sequence
state_advances u stored none c = true
state_advances u stored (some t) c =
    if after c.observed_at t
    then true
    else if not (eqb_ℤ c.observed_at t)
    then false
    else newer_sequence u (stored_provenance stored) c

-- The table twin_states with one row replaced.
abbrev pub put_state : (Uuid → Option TwinState) → Uuid → TwinState → Uuid → Option TwinState
put_state states id s j = if bytes_eq j id then some s else states j

module _ (format_time : Time → Bytes) (u : UuidLib) where
  -- The columns that the UPDATE sets.
  unfoldable pub next_state : TwinState → Candidate → TwinState
  next_state s c = record {
    reported_state = concat_state s.reported_state (merge format_time u.format c);
    reported_version = s.reported_version +ℤ pos 1;
    last_reported_at = some c.observed_at;
  }

  -- The UPDATE guarded by the version, on the row that is locked. A version of the greatest bigint has
  -- no successor, and the statement fails.
  unfoldable pub advance : Db → Uuid → TwinState → Candidate → Result Db
  advance db id s c = do
    reject_if (eqb_ℤ s.reported_version (pos max_int64))
        (dependency_error "advance telemetry Sensor reported state" (opaque "bigint out of range"))
    ok (record db { twin_states = put_state db.twin_states id (next_state s c) })

  -- applySensorReportedState behind the locking read, by the row that it found.
  unfoldable pub update_state : Faults → Db → Uuid → Candidate → Option TwinState → Result Db
  update_state f db id c none = err (reason resource_graph_incomplete "twin_state")
  update_state f db id c (some s) = do
    reject_if (ltb_ℤ s.reported_version (pos 0))
        (reason resource_graph_incomplete "reported_version")
    if not (state_advances u s.reported_state s.last_reported_at c)
        then ok db
        else do run f advance_state "advance telemetry Sensor reported state"; advance db id s c

  -- applySensorReportedState, which also reports whether the state advanced; its caller drops that.
  unfoldable pub apply_reported_state : Faults → Db → Resource → Message → Result Db
  apply_reported_state f db r m = do
    reject_if (bytes_eq r.entity_id uuid_nil) (reason invalid_payload "entity_id")
    c ← new_candidate r m
    run f lock_state "lock telemetry Sensor state"
    update_state f db r.entity_id c (db.twin_states r.entity_id)

-- appendSensorSampleIntervalTemporal
unfoldable pub append_interval : Faults → Db → Resource → Message → Result Db
append_interval f db r m = do
  reject_if (bytes_eq r.entity_id uuid_nil) (reason invalid_payload "entity_id")
  last ← or_error (last_sample m) (reason invalid_payload "message_samples")
  reject_if
      (leb_ℤ m.batch.sample_interval_us (pos 0)
        || ltb_ℤ (pos max_exact_float64_integer) m.batch.sample_interval_us)
      (reason invalid_payload "sample_interval_us")
  run f append_temporal "append telemetry Sensor temporal value"
  ok (record db {
    temporal =
        record {
          observed_at = last.measured_at;
          entity_id = r.entity_id;
          value_number = m.batch.sample_interval_us;
          boot_id = last.boot_id;
          message_id = last.message_id;
        }
        ∷ db.temporal;
  })
