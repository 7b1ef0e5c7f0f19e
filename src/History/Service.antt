-- ===== src/History/Service.antt =====
-- src/internal/telemetry/history_preparation.go and history_service.go: the configuration, the
-- preparation of a query, and the queries that the service hands to its reader.
pub mod Admissible
pub mod Configured
use project1_iot_server.Uuid.{Uuid, uuid_nil}
use project1_iot_server.Identifier.{valid_gateway_id, valid_sensor_id}
use project1_iot_server.Clock.{Duration}
use project1_iot_server.History.{
  HistoryError, nil_actor, invalid_input, history_not_found, dependency, unexpected,
  raw_limit_exceeded, context_ended, foreign, wrapped, Reply, failure, reply, ◌>>=◌, ◌>>◌, fail_if,
  Resolution, auto, raw, TimeRange, span, quot, microseconds, to_micros,
  validate_history_time_range,
}
use project1_iot_server.History.Select.{select_auto_bucket_resolution}
use project1_iot_server.Prelude.{
  ℕ, Bool, true, false, not, ◌||◌, Option, none, some, List, [], ◌∷◌, if◌then◌else◌, ℤ, pos, ltb_ℤ,
  leb_ℤ, sub64, Bytes, bytes_eq,
}

-- HistoryPreparationConfig
pub record Config : Type 0 where
  pub query_timeout : Duration
  pub max_range : Duration
  pub raw_window : Duration
  pub min_points : ℤ
  pub max_points : ℤ

abbrev pub max_timeout : Duration
max_timeout = pos 5000000000

abbrev pub greatest_range : Duration
greatest_range = pos 2678400000000000

abbrev pub greatest_window : Duration
greatest_window = pos 10000000000

-- ValidateHistoryPreparationConfig; its errors are numbered.
unfoldable pub validate_config : Config → Reply (Unit {0})
validate_config c = do
  fail_if (leb_ℤ c.query_timeout (pos 0)) (foreign 11)
  fail_if (ltb_ℤ max_timeout c.query_timeout) (foreign 12)
  fail_if (leb_ℤ c.max_range (pos 0)) (foreign 13)
  fail_if (ltb_ℤ greatest_range c.max_range) (foreign 14)
  fail_if (leb_ℤ c.raw_window (pos 0)) (foreign 15)
  fail_if (ltb_ℤ greatest_window c.raw_window) (foreign 16)
  fail_if (ltb_ℤ c.max_range c.raw_window) (foreign 17)
  fail_if (ltb_ℤ c.min_points (pos 100)) (foreign 18)
  fail_if (ltb_ℤ (pos 2000) c.min_points) (foreign 19)
  fail_if (ltb_ℤ (pos 2000) c.max_points) (foreign 20)
  fail_if (ltb_ℤ c.max_points c.min_points) (foreign 21)

-- TelemetryHistoryQuery
pub record Query : Type 0 where
  pub gateway_id : Bytes
  pub sensor_id : Bytes
  pub range : TimeRange
  pub resolution : Resolution
  pub max_points : ℤ

-- ResolvedSensor
pub record ResolvedSensor : Type 0 where
  pub gateway_id : Bytes
  pub sensor_id : Bytes
  pub unit : Option Bytes

-- Whether the scoped context has ended at each place where the code asks.
pub record Ended : Type 0 where
  pub before_resolver : Bool
  pub on_resolver_error : Bool
  pub after_resolver : Bool
  pub before_query : Bool
  pub after_probe : Bool
  pub after_query : Bool
  pub after_callback : Bool

abbrev pub ended_error : HistoryError
ended_error = wrapped dependency context_ended

-- errors.Is with ErrHistoryRawLimitExceeded, and with the error of the context.
unfoldable pub is_raw_limit : HistoryError → Bool
is_raw_limit raw_limit_exceeded = true
is_raw_limit (wrapped e f) = is_raw_limit e || is_raw_limit f
is_raw_limit _ = false

unfoldable pub is_context_ended : HistoryError → Bool
is_context_ended context_ended = true
is_context_ended (wrapped e f) = is_context_ended e || is_context_ended f
is_context_ended _ = false

-- PrepareTelemetryHistory after its callback.
unfoldable pub after_fn : Bool → Reply (Unit {0}) → Reply (Unit {0})
unfolding is_context_ended
after_fn false r = r
after_fn true (reply v) = failure ended_error
after_fn true (failure e) =
    failure
      (if is_context_ended e then ended_error else wrapped dependency (wrapped context_ended e))

-- The answer of the resolver, which may be nil without an error.
unfoldable pub after_resolver : Ended → Reply (Option ResolvedSensor) → Reply (Unit {0})
after_resolver e (failure f) = failure (if e.on_resolver_error then ended_error else f)
after_resolver e (reply none) = failure history_not_found
after_resolver e (reply (some s)) = fail_if e.after_resolver ended_error

-- PrepareTelemetryHistory up to its callback, which is not nil.
unfoldable pub prepare :
    Config
    → (Uuid → Bytes → Bytes → Reply (Option ResolvedSensor))
    → Ended
    → Uuid
    → Query
    → Reply (Unit {0})
unfolding validate_history_time_range after_resolver
prepare c resolver e actor q = do
  fail_if (bytes_eq actor uuid_nil) nil_actor
  fail_if (not (valid_gateway_id q.gateway_id)) invalid_input
  fail_if (not (valid_sensor_id q.sensor_id)) invalid_input
  fail_if (ltb_ℤ q.max_points c.min_points || ltb_ℤ c.max_points q.max_points) invalid_input
  validate_history_time_range q.range q.resolution c.max_range c.raw_window q.max_points
  fail_if e.before_resolver ended_error
  after_resolver e (resolver actor q.gateway_id q.sensor_id)

-- The reader: its answer to the first and to the second query of a request, which may be nil.
module _ {ℓ} {R : Type ℓ} (reader : ℕ → Query → Reply (Option R)) where
  -- The queries handed to the reader, and the answer.
  abbrev pub Run : Type ℓ
  Run = List Query × Reply (Option R)

  unfoldable pub read_at : ℕ → Query → Reply Resolution → Run
  read_at i q (failure e) = ([], failure e)
  read_at i q (reply res) =
      let bucket_query = record q { resolution = res } in (bucket_query ∷ [], reader i bucket_query)

  unfoldable pub read_bucket : ℕ → Query → Run
  unfolding select_auto_bucket_resolution read_at
  read_bucket i q =
      read_at i q (select_auto_bucket_resolution q.range.from.utc q.range.to.utc q.max_points)

  -- What follows the probe with raw samples.
  unfoldable pub after_raw : Ended → Query → Reply (Option R) → Run → Run
  unfolding is_raw_limit
  after_raw e raw_query (reply r) fallback = (raw_query ∷ [], reply r)
  after_raw e raw_query (failure f) fallback =
      if not (is_raw_limit f)
      then (raw_query ∷ [], failure f)
      else if e.after_probe
      then (raw_query ∷ [], failure ended_error)
      else (raw_query ∷ fallback.0, fallback.1)

  unfoldable pub read_auto : Config → Ended → Query → Run
  unfolding to_micros sub64 quot read_bucket after_raw
  read_auto c e q =
      let raw_query = record q { resolution = raw } in
      if leb_ℤ (span q.range.from.utc q.range.to.utc) (microseconds c.raw_window)
      then after_raw e raw_query (reader 0 raw_query) (read_bucket 1 q)
      else read_bucket 0 q

  unfoldable pub by_resolution : Config → Ended → Query → Resolution → Run
  unfolding read_auto
  by_resolution c e q auto = read_auto c e q
  by_resolution c e q res = (q ∷ [], reader 0 q)

  -- executeEffectiveQuery
  unfoldable pub execute_effective_query : Config → Ended → Query → Run
  unfolding by_resolution
  execute_effective_query c e q =
      if e.before_query then ([], failure ended_error) else by_resolution c e q q.resolution

  -- The callback of GetTelemetryHistory: its error, and the result that it captures.
  abbrev pub callback_error : Ended → Reply (Option R) → Reply (Unit {0})
  callback_error e (failure f) = failure f
  callback_error e (reply r) = fail_if e.after_query ended_error

  abbrev pub captured : Reply (Option R) → Reply R
  captured (failure f) = failure f
  captured (reply none) = failure unexpected
  captured (reply (some r)) = reply r

  -- GetTelemetryHistory, of a service with a reader and a preparation.
  unfoldable pub finish_request : Ended → Run → List Query × Reply R
  unfolding after_fn
  finish_request e (calls, answer) =
      (calls, after_fn e.after_callback (callback_error e answer) >> captured answer)

  unfoldable pub if_prepared : Ended → Reply (Unit {0}) → Run → List Query × Reply R
  unfolding finish_request
  if_prepared e (failure f) run = ([], failure f)
  if_prepared e (reply v) run = finish_request e run

  unfoldable pub get_telemetry_history :
      Config
      → (Uuid → Bytes → Bytes → Reply (Option ResolvedSensor))
      → Ended
      → Uuid
      → Query
      → List Query × Reply R
  unfolding prepare execute_effective_query if_prepared
  get_telemetry_history c resolver e actor q =
      if bytes_eq actor uuid_nil
      then ([], failure nil_actor)
      else if_prepared e (prepare c resolver e actor q) (execute_effective_query c e q)
