-- ===== src/Twin/Read/Service.antt =====
-- src/internal/digitaltwin/read_service.go with the callbacks of read_preparation.go. The reader and the
-- telemetry engine are parameters, which are set as NewReadService demands. Ended is a Boolean for each place
-- that asks whether the context has ended.
use project1_iot_server.Clock.{Time}
use project1_iot_server.Uuid.{Uuid}
use project1_iot_server.History.Service.{Query}
use project1_iot_server.Outcome.{Outcome, fails, done, ◌>>◌, ◌>>=◌, fail_when}
use project1_iot_server.Twin.{
  TwinError, invalid_property, dependency_unavailable, unexpected, context_ended, wrapped,
}
use project1_iot_server.Twin.Cursor.Payload.{CursorLib}
use project1_iot_server.Twin.Read.{
  HistorySelector, by_value, by_sample_interval_us, other_selector, TwinListQuery, TwinDetailQuery,
  TwinStateQuery, TwinHistoryQuery, ResolvedEntity, ReadPreparationConfig,
}
use project1_iot_server.Twin.Read.Prepared.{
  Ended, ended_error, Resolver, prepare_list, prepare_detail, prepare_state, prepare_history,
}
use project1_iot_server.Prelude.{
  Bool, true, false, Option, none, some, List, [], if◌then◌else◌, ℤ, Bytes,
}
use project1_iot_server.Twin.Read.Errors.{carries, is_ended, map_telemetry_delegation_error}

-- The error where the context has ended before a call returned.
unfoldable pub ended_with {ℓ} : {V : Type ℓ} → Outcome TwinError V → TwinError
unfolding carries
ended_with (done v) = ended_error
ended_with (fails f) =
    if carries is_ended f
    then ended_error
    else wrapped dependency_unavailable (wrapped context_ended f)

-- A call with the look at the context that follows it.
unfoldable pub after_call {ℓ} :
    {V : Type ℓ} → Bool → (TwinError → TwinError) → Outcome TwinError V → Outcome TwinError V
unfolding ended_with
after_call true adapt r = fails (ended_with r)
after_call false adapt (fails f) = fails (adapt f)
after_call false adapt (done v) = done v

-- The result of a reader, which may be nil without an error.
unfoldable pub not_nil {ℓ} : {V : Type ℓ} → Outcome TwinError (Option V) → Outcome TwinError V
not_nil (fails f) = fails f
not_nil (done none) = fails unexpected
not_nil (done (some v)) = done v

-- The tail of the functions Prepare*, from the callback.
unfoldable pub after_callback {ℓ} : {V : Type ℓ} → Ended → Outcome TwinError V → Outcome TwinError V
unfolding after_call
after_callback e r = after_call e.after_callback (λ f. f) r

-- TelemetryHistoryResult
pub record TelemetryHistoryResult (P B : Type 0) : Type 0 where
  pub gateway_id : Bytes
  pub sensor_id : Bytes
  pub unit : Option Bytes
  pub from : Time
  pub to : Time
  pub mode : Bytes
  pub resolution : Bytes
  pub point_count : ℤ
  pub raw_points : List P
  pub bucket_points : List B

-- TwinHistoryResult
pub record TwinHistoryResult (P B S C : Type 0) : Type 0 where
  pub entity_id : Bytes
  pub property : HistorySelector
  pub unit : Option Bytes
  pub from : Time
  pub to : Time
  pub mode : Bytes
  pub resolution : Bytes
  pub point_count : ℤ
  pub telemetry_result : Option (TelemetryHistoryResult P B)
  pub temporal_points : List S
  pub temporal_buckets : List C

-- The query that delegateTelemetryHistory makes.
abbrev pub telemetry_query : ResolvedEntity → TwinHistoryQuery → Query
telemetry_query entity q = record {
  gateway_id = entity.gateway_id;
  sensor_id = entity.sensor_id;
  range = q.range;
  resolution = q.resolution;
  max_points = q.max_points;
}

abbrev pub wrapped_result :
    {P B S C : Type 0} → ResolvedEntity → TelemetryHistoryResult P B → TwinHistoryResult P B S C
wrapped_result entity r = record {
  entity_id = entity.public_urn;
  property = by_value;
  unit = r.unit;
  from = r.from;
  to = r.to;
  mode = r.mode;
  resolution = r.resolution;
  point_count = r.point_count;
  telemetry_result = some r;
  temporal_points = [];
  temporal_buckets = [];
}

-- The results of ListEntities, GetDetail and GetState, and the points of the two histories, are types.
pub record Reader (L D T P B S C : Type 0) : Type 0 where
  pub list_entities : Uuid → TwinListQuery → Outcome TwinError (Option L)
  pub get_detail : Uuid → ResolvedEntity → TwinDetailQuery → Outcome TwinError (Option D)
  pub get_state : Uuid → ResolvedEntity → Outcome TwinError (Option T)
  pub read_temporal_history :
      Uuid
      → ResolvedEntity
      → TwinHistoryQuery
      → Outcome TwinError (Option (TwinHistoryResult P B S C))

-- The switch on the selector.
unfoldable pub by_property {ℓ} :
    {V : Type ℓ} → HistorySelector → Outcome TwinError V → Outcome TwinError V → Outcome TwinError V
by_property by_sample_interval_us temporal delegated = temporal
by_property by_value temporal delegated = delegated
by_property (other_selector s) temporal delegated = fails invalid_property

module _ {L D T P B S C : Type 0} (reader : Reader L D T P B S C) where
  -- ListTwins
  unfoldable pub list_twins :
      CursorLib → ReadPreparationConfig → Ended → Uuid → TwinListQuery → Outcome TwinError L
  unfolding prepare_list not_nil after_callback
  list_twins lib c e actor q = do
    prepare_list lib c e actor q
    after_callback e (not_nil (reader.list_entities actor q))

  -- GetTwinDetail
  unfoldable pub get_twin_detail :
      CursorLib
      → ReadPreparationConfig
      → Resolver
      → Ended
      → Uuid
      → TwinDetailQuery
      → Outcome TwinError D
  unfolding prepare_detail not_nil after_callback
  get_twin_detail lib c resolver e actor q = do
    entity ← prepare_detail lib c resolver e actor q
    after_callback e (not_nil (reader.get_detail actor entity q))

  -- GetTwinState
  unfoldable pub get_twin_state : Resolver → Ended → Uuid → TwinStateQuery → Outcome TwinError T
  unfolding prepare_state not_nil after_callback
  get_twin_state resolver e actor q = do
    entity ← prepare_state resolver e actor q
    after_callback e (not_nil (reader.get_state actor entity))

  module _ (engine : Uuid → Query → Outcome TwinError (Option (TelemetryHistoryResult P B))) where
    -- delegateTelemetryHistory, whose result is never nil without an error
    unfoldable pub delegate_telemetry_history :
        Ended
        → Uuid
        → ResolvedEntity
        → TwinHistoryQuery
        → Outcome TwinError (TwinHistoryResult P B S C)
    unfolding map_telemetry_delegation_error after_call not_nil
    delegate_telemetry_history e actor entity q = do
      fail_when ended_error e.before_engine
      answer ←
          after_call e.after_engine map_telemetry_delegation_error
            (engine actor (telemetry_query entity q))
      result ← not_nil (done answer)
      done (wrapped_result entity result)

    -- The callback of GetTwinHistory.
    unfoldable pub history_callback :
        Ended
        → Uuid
        → ResolvedEntity
        → TwinHistoryQuery
        → Outcome TwinError (TwinHistoryResult P B S C)
    unfolding by_property not_nil delegate_telemetry_history
    history_callback e actor entity q =
        by_property q.property (not_nil (reader.read_temporal_history actor entity q))
          (delegate_telemetry_history e actor entity q)

    -- GetTwinHistory
    unfoldable pub get_twin_history :
        ReadPreparationConfig
        → Resolver
        → Ended
        → Uuid
        → TwinHistoryQuery
        → Outcome TwinError (TwinHistoryResult P B S C)
    unfolding prepare_history history_callback after_callback
    get_twin_history c resolver e actor q = do
      (entity, effective) ← prepare_history c resolver e actor q
      after_callback e (history_callback e actor entity effective)
