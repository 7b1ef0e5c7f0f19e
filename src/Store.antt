-- ===== src/Store.antt =====
-- The PostgreSQL tables that src/internal/telemetry reads and writes, each statement of one
-- transaction with the chance to fail, and the fate of COMMIT. The database is not part of the
-- repository: a table is its rows, and a driver error is chosen by a `Faults` argument.
pub mod Metadata
pub mod Resources
pub mod Ledger
pub mod Reported
pub mod Persist
use project1_iot_server.Clock.{Time}
use project1_iot_server.Uuid.{Uuid}
use project1_iot_server.Telemetry.Errors.{Error, Result, ok, err, dependency_error}
use project1_iot_server.Telemetry.Model.{Float64, SampleCandidate}
use project1_iot_server.Prelude.{String, Bool, Option, none, some, List, ℤ, Bytes}

-- A row of processed_messages. The columns that migration 000020 added are NULL in older rows.
pub record LedgerRow : Type 0 where
  pub gateway_id : Bytes
  pub message_id : Uuid
  -- "" where it is NULL
  pub payload_hash : Bytes
  pub source_topic : Option Bytes
  pub sensor_id : Option Bytes
  pub boot_id : Option Uuid
  pub first_sequence : Option ℤ
  pub last_sequence : Option ℤ
  pub sample_count : Option ℤ

-- A value of a key of reported_state, as json.Decoder with UseNumber reads it: `int` is a number that
-- Number.Int64 accepts.
pub data JsonScalar : Type 0 where
  str : Bytes → JsonScalar
  int : ℤ → JsonScalar
  float : Float64 → JsonScalar
  other : JsonScalar

-- A row of twin_states. `none` is a reported_state that is no JSON object.
pub record TwinState : Type 0 where
  pub reported_state : Option (List (Bytes × JsonScalar))
  pub reported_version : ℤ
  pub last_reported_at : Option Time

-- A row of twin_temporal_values for the property sample_interval_us.
pub record TemporalRow : Type 0 where
  pub observed_at : Time
  pub entity_id : Uuid
  pub value_number : ℤ
  pub boot_id : Uuid
  pub message_id : Uuid

pub record Db : Type 0 where
  pub has_gateway : Bytes → Bool
  -- the unit of the row of sensors for a Gateway and a Sensor
  pub sensor_unit : Bytes → Bytes → Option (Option Bytes)
  -- the join over twin_entities, twin_states and twin_relationships: the two entities, and whether
  -- the Sensor has a state
  pub twin_graph : Bytes → Bytes → Option (Uuid × Uuid × Bool)
  pub ledger : List LedgerRow
  pub telemetry : List SampleCandidate
  pub twin_states : Uuid → Option TwinState
  pub temporal : List TemporalRow

-- The statements of one Persist.
pub data Op : Type 0 where
  begin_tx check_gateway lock_sensor verify_graph insert_ledger check_overlap : Op
  read_conflict copy_samples lock_state advance_state append_temporal : Op

-- COMMIT succeeds, or reports an error after which the transaction is lost or has taken effect.
pub data Fate : Type 0 where
  confirmed : Fate
  lost applied : Error → Fate

pub record Faults : Type 0 where
  pub fails : Op → Option Error
  pub fate : Fate

abbrev pub no_faults : Faults
no_faults = record { fails = λ op. none; fate = confirmed }

-- A statement, which may end in a driver error.
unfoldable pub run : Faults → Op → String → Result (Unit {0})
run f op operation = elim (f.fails op) [
  | none ↦ ok tt
  | some e ↦ err (dependency_error operation e)
]
