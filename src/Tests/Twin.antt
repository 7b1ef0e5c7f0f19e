-- ===== src/Tests/Twin.antt =====
-- Concrete runs of the read service.
use project1_iot_server.Uuid.{Uuid, uuid_nil}
use project1_iot_server.Identifier.{valid_gateway_id, valid_sensor_id}
use project1_iot_server.History.{HistoryError, ZonedTime, s_1}
use project1_iot_server.Outcome.{Outcome, fails, done}
use project1_iot_server.ReadBounds.{
  default_history_config, default_twin_config, to_read_preparation_config,
}
use project1_iot_server.Twin.{
  TwinError, sensor, not_found, nil_actor, unexpected, dependency_unavailable, context_ended,
  history, wrapped,
}
use project1_iot_server.Twin.Read.{
  TwinHistoryQuery, ResolvedEntity, HistorySelector, by_value, by_sample_interval_us,
}
use project1_iot_server.Twin.Read.Prepared.{Ended}
use project1_iot_server.Twin.Read.Service.{
  Reader, TelemetryHistoryResult, TwinHistoryResult, wrapped_result, get_twin_history,
}
use project1_iot_server.Prelude.{
  ℕ, ◌+◌, ◌≡◌, refl, Bool, true, false, Option, none, some, [], ◌∷◌, replicate, pos, codes,
  bytes_eq, split_on,
}

abbrev actor : Uuid
actor = replicate 16 1

abbrev entity : ResolvedEntity
entity = record {
  internal_id = replicate 16 2;
  public_urn = codes "urn:ngsi-ld:Sensor:gw-1:s_1";
  entity_kind = sensor;
  gateway_id = codes "gw-1";
  sensor_id = codes "s_1";
}

abbrev at : ℕ → ZonedTime
at n = record { utc = pos (63908006400000000000 + n); zone = pos 0 }

abbrev query_of : HistorySelector → TwinHistoryQuery
query_of property = record {
  entity_id = codes "urn:ngsi-ld:Sensor:gw-1:s_1";
  property = property;
  range = record { from = at 0; to = at 5000000000 };
  resolution = s_1;
  max_points = pos 1000;
  effective_raw_window = pos 0;
}

abbrev answer : TelemetryHistoryResult ℕ ℕ
answer = record {
  gateway_id = codes "gw-1";
  sensor_id = codes "s_1";
  unit = some (codes "mV");
  from = pos 63908006400000000000;
  to = pos 63908006405000000000;
  mode = codes "bucket";
  resolution = codes "1s";
  point_count = pos 1;
  raw_points = [];
  bucket_points = 7 ∷ [];
}

-- A reader that returns nil.
abbrev empty_reader : Reader ℕ ℕ ℕ ℕ ℕ ℕ ℕ
empty_reader = record {
  list_entities = λ a q. done none;
  get_detail = λ a e q. done none;
  get_state = λ a e. done none;
  read_temporal_history = λ a e q. done none;
}

abbrev ended_at : Bool → Bool → Ended
ended_at engine callback = record {
  at_start = false;
  on_resolver_error = false;
  after_resolver = false;
  before_engine = false;
  after_engine = engine;
  after_callback = callback;
}

abbrev run :
    Outcome TwinError (Option (TelemetryHistoryResult ℕ ℕ))
    → Ended
    → Uuid
    → HistorySelector
    → Outcome TwinError (TwinHistoryResult ℕ ℕ ℕ ℕ)
run reply e who property =
    get_twin_history empty_reader (λ a q. reply)
      (to_read_preparation_config default_twin_config default_history_config)
      (λ a p. done (some entity)) e who (query_of property)

-- Values go to the telemetry engine, and intervals to the reader.
selector_run :
    (run (done (some answer)) (ended_at false false) actor by_value
      ≡ done (wrapped_result entity answer))
    × (run (done (some answer)) (ended_at false false) actor by_sample_interval_us
        ≡ fails unexpected)
    × (run (done none) (ended_at false false) actor by_value ≡ fails unexpected)
unfolding get_twin_history bytes_eq valid_gateway_id valid_sensor_id split_on
selector_run = (refl, refl, refl)

abbrev no_history : TwinError
no_history = history HistoryError.history_not_found

-- An error of the engine comes under the sentinel of its family, unless the context has ended.
error_run :
    (run (fails no_history) (ended_at false false) actor by_value
      ≡ fails (wrapped not_found no_history))
    × (run (fails (history HistoryError.range_too_large)) (ended_at false false) actor by_value
        ≡ fails (history HistoryError.range_too_large))
    × (run (fails no_history) (ended_at true true) actor by_value
        ≡ fails (wrapped dependency_unavailable context_ended))
    × (run (done (some answer)) (ended_at false true) actor by_value
        ≡ fails (wrapped dependency_unavailable context_ended))
    × (run (done (some answer)) (ended_at false false) uuid_nil by_value ≡ fails nil_actor)
unfolding get_twin_history bytes_eq valid_gateway_id valid_sensor_id split_on
error_run = (refl, refl, refl, refl, refl)
