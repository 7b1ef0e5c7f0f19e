-- ===== src/Twin/Read/Prepared.antt =====
-- src/internal/digitaltwin/read_preparation.go up to the callbacks. Each place that asks whether the
-- context has ended reads a Boolean of its own.
use project1_iot_server.Clock.{Duration}
use project1_iot_server.Uuid.{Uuid, uuid_nil}
use project1_iot_server.History.{HistoryError, Reply, reply, validate_history_time_range}
use project1_iot_server.Outcome.{Outcome, fails, done, ◌>>◌, ◌>>=◌, fail_when, or_fail}
use project1_iot_server.Twin.{
  TwinError, nil_actor, not_found, invalid_input, invalid_property, dependency_unavailable, history,
  context_ended, wrapped, sensor, same_type, ParsedIdentity, parse_entity_urn,
}
use project1_iot_server.Twin.Cursor.Payload.{CursorLib}
use project1_iot_server.Twin.Read.{
  TwinListQuery, TwinDetailQuery, TwinStateQuery, TwinHistoryQuery, ResolvedEntity,
  ReadPreparationConfig, contract_max_raw_window, Checked, validate_twin_list_query,
  validate_twin_detail_query, validate_twin_state_query, validate_twin_history_query,
}
use project1_iot_server.Prelude.{
  Bool, true, false, not, ◌||◌, Option, none, some, if◌then◌else◌, pos, ltb_ℤ, leb_ℤ, bytes_eq,
}

-- Whether the scoped context has ended at each place where the code asks.
pub record Ended : Type 0 where
  pub at_start : Bool
  pub on_resolver_error : Bool
  pub after_resolver : Bool
  pub before_engine : Bool
  pub after_engine : Bool
  pub after_callback : Bool

abbrev pub ended_error : TwinError
ended_error = wrapped dependency_unavailable context_ended

abbrev pub Resolver : Type 0
Resolver = Uuid → ParsedIdentity → Outcome TwinError (Option ResolvedEntity)

-- The answer of the resolver, which may be nil without an error.
unfoldable pub resolved :
    Ended → Outcome TwinError (Option ResolvedEntity) → Outcome TwinError ResolvedEntity
resolved e (fails f) = fails (if e.on_resolver_error then ended_error else f)
resolved e (done none) = fails not_found
resolved e (done (some entity)) = fail_when ended_error e.after_resolver >> done entity

-- The part that PrepareDetail, PrepareState and PrepareHistory share, from the context to the callback.
unfoldable pub resolve_entity :
    Resolver → Ended → Uuid → ParsedIdentity → Outcome TwinError ResolvedEntity
unfolding resolved
resolve_entity resolver e actor p = do
  fail_when ended_error e.at_start
  resolved e (resolver actor p)

-- PrepareList
unfoldable pub prepare_list :
    CursorLib → ReadPreparationConfig → Ended → Uuid → TwinListQuery → Checked
unfolding validate_twin_list_query
prepare_list lib c e actor q = do
  fail_when nil_actor (bytes_eq actor uuid_nil)
  validate_twin_list_query lib q c.list_max_limit
  fail_when ended_error e.at_start

-- PrepareDetail
unfoldable pub prepare_detail :
    CursorLib
    → ReadPreparationConfig
    → Resolver
    → Ended
    → Uuid
    → TwinDetailQuery
    → Outcome TwinError ResolvedEntity
unfolding validate_twin_detail_query parse_entity_urn resolve_entity
prepare_detail lib c resolver e actor q = do
  fail_when nil_actor (bytes_eq actor uuid_nil)
  validate_twin_detail_query lib q c.relationship_max_limit
  p ← or_fail invalid_input (parse_entity_urn q.entity_id)
  resolve_entity resolver e actor p

-- PrepareState
unfoldable pub prepare_state :
    Resolver → Ended → Uuid → TwinStateQuery → Outcome TwinError ResolvedEntity
unfolding validate_twin_state_query parse_entity_urn resolve_entity
prepare_state resolver e actor q = do
  fail_when nil_actor (bytes_eq actor uuid_nil)
  validate_twin_state_query q
  p ← or_fail invalid_input (parse_entity_urn q.entity_id)
  resolve_entity resolver e actor p

-- errors.Is with ErrHistoryInvalidInput, of an error of ValidateHistoryTimeRange
unfoldable pub is_invalid_input : HistoryError → Bool
is_invalid_input HistoryError.invalid_input = true
is_invalid_input (HistoryError.wrapped e f) = is_invalid_input e || is_invalid_input f
is_invalid_input _ = false

-- mapTelemetryHistoryError
unfoldable pub map_telemetry_history_error : HistoryError → TwinError
unfolding is_invalid_input
map_telemetry_history_error e = if is_invalid_input e then invalid_input else history e

unfoldable pub mapped_range : Reply (Unit {0}) → Checked
unfolding map_telemetry_history_error
mapped_range (reply v) = done v
mapped_range (Reply.failure e) = fails (map_telemetry_history_error e)

abbrev pub effective_window : Duration → Duration
effective_window window =
    if leb_ℤ window (pos 0) || ltb_ℤ contract_max_raw_window window
    then contract_max_raw_window
    else window

-- PrepareHistory, with the query that it hands to the callback
unfoldable pub prepare_history :
    ReadPreparationConfig
    → Resolver
    → Ended
    → Uuid
    → TwinHistoryQuery
    → Outcome TwinError (ResolvedEntity × TwinHistoryQuery)
unfolding validate_twin_history_query parse_entity_urn same_type mapped_range
    validate_history_time_range resolve_entity
prepare_history c resolver e actor q = do
  fail_when nil_actor (bytes_eq actor uuid_nil)
  validate_twin_history_query q
  p ← or_fail invalid_input (parse_entity_urn q.entity_id)
  fail_when invalid_property (not (same_type p.kind sensor))
  fail_when invalid_input
      (ltb_ℤ q.max_points c.history_min_points || ltb_ℤ c.history_max_points q.max_points)
  let window = effective_window c.history_raw_window
  mapped_range
      (validate_history_time_range q.range q.resolution c.history_max_range window q.max_points)
  entity ← resolve_entity resolver e actor p
  done (entity, record q { effective_raw_window = window })
