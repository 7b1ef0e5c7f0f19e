-- ===== src/Query/Passed.antt =====
-- The queries that src/internal/httpserver/history_query_parser.go accepts, and the preparation of
-- src/internal/telemetry/history_preparation.go.
use mathlib.Core.Path.{subst}
use project1_iot_server.Clock.{Time}
use project1_iot_server.Uuid.{Uuid, uuid_nil}
use project1_iot_server.Identifier.{valid_gateway_id, valid_sensor_id}
use project1_iot_server.History.{
  Reply, reply, failure, fail_if, TimeRange, Resolution, validate_history_time_range,
}
use project1_iot_server.History
use project1_iot_server.History.Service.{
  Query, ResolvedSensor, Ended, ended_error, after_resolver, prepare,
}
use project1_iot_server.Outcome.{
  done, fail_when-eq-done, >>-eq-done, >>=-eq-done, done_inj, from_option,
}
use project1_iot_server.ReadBounds.{
  HistoryConfig, ConfigLib, load_history, to_telemetry_preparation_config,
}
use project1_iot_server.ReadBounds.Loaded.{loaded_history}
use project1_iot_server.ReadBounds.Bounds.{HistoryBounds}
use project1_iot_server.Twin.Cursor.{find_key}
use project1_iot_server.Twin.Plain.{test_passed}
use project1_iot_server.Query.{
  Window, resolution_of, checked_range, in_utc, checked_window, parse_common_time_and_resolution,
  parse_telemetry_history_query,
}
use project1_iot_server.Query.Raw.{
  QueryLib, Params, bad_request, parse_raw_query, required, in_points, points_of,
  parse_ascii_integer,
}
use project1_iot_server.Query.Instant.{parse_rfc3339_micro}
use project1_iot_server.Prelude.{
  ◌≡◌, refl, Bool, true, false, not, ◌||◌, Option, none, some, [], ◌∷◌, arith, ℤ, ltb_ℤ, Bytes,
  codes, bytes_eq,
}

-- What both preparations ask of a range, a resolution and a number of points.
pub record Passing (c : HistoryConfig) (w : Window) : Type 0 where
  pub valid_range :
      validate_history_time_range w.range w.resolution c.max_range c.raw_window w.max_points
      ≡ reply tt
  pub points_within : (ltb_ℤ w.max_points c.min_points || ltb_ℤ c.max_points w.max_points) ≡ false

checked_range-eq-done : (r : Reply (Unit {0})) → checked_range r ≡ done tt → r ≡ reply tt
unfolding checked_range
checked_range-eq-done (reply v) h = refl
checked_range-eq-done (failure e) h = cc

pub checked_window-Passing :
    (c : HistoryConfig) (from to : Time) (res : Resolution) (points : ℤ) (w : Window)
    → (ltb_ℤ points c.min_points || ltb_ℤ c.max_points points) ≡ false
    → checked_window c from to res points ≡ done w
    → Passing c w × (w.resolution ≡ res)
unfolding checked_window
checked_window-Passing c from to res points w k h =
    let range : TimeRange = record { from = in_utc from; to = in_utc to } in
    let (h1, r1) =
      >>-eq-done
        (checked_range (validate_history_time_range range res c.max_range c.raw_window points)) _
        h in
    subst (λ v. Passing c v × (v.resolution ≡ res)) (done_inj r1)
      (record { valid_range = checked_range-eq-done _ h1; points_within = k }, refl)

default_within :
    (c : HistoryConfig)
    → HistoryBounds c
    → (ltb_ℤ c.default_points c.min_points || ltb_ℤ c.max_points c.default_points) ≡ false
default_within c b = let h = b.between in let k = b.most.1 in both _ _ h k
  where
    both : (x y : Bool) → x ≡ false → y ≡ false → (x || y) ≡ false
    both x y h k = ground arith

in_points-within :
    (c : HistoryConfig) (n : Option ℤ) (m : ℤ)
    → in_points c n ≡ done m
    → (ltb_ℤ m c.min_points || ltb_ℤ c.max_points m) ≡ false
in_points-within c none m h = cc
in_points-within c (some n) m h =
    let (h1, r1) =
      fail_when-eq-done bad_request (ltb_ℤ n c.min_points || ltb_ℤ c.max_points n) _ h in
    subst (λ x. (ltb_ℤ x c.min_points || ltb_ℤ c.max_points x) ≡ false) (done_inj r1) h1

pub points_of-within :
    (lib : QueryLib) (c : HistoryConfig) (s : Option Bytes) (m : ℤ)
    → HistoryBounds c
    → points_of lib c s ≡ done m
    → (ltb_ℤ m c.min_points || ltb_ℤ c.max_points m) ≡ false
unfolding points_of
points_of-within lib c none m b h =
    subst (λ x. (ltb_ℤ x c.min_points || ltb_ℤ c.max_points x) ≡ false) (done_inj h)
      (default_within c b)
points_of-within lib c (some s) m b h = in_points-within c (parse_ascii_integer lib s) m h

pub common-Passing :
    (lib : QueryLib) (c : HistoryConfig) (params : Params) (w : Window)
    → HistoryBounds c
    → parse_common_time_and_resolution lib c params ≡ done w
    → Passing c w
unfolding parse_common_time_and_resolution
common-Passing lib c params w b h =
    let (from_val, e1, r1) = >>=-eq-done (required (find_key (codes "from") params)) _ h in
    let (to_val, e2, r2) = >>=-eq-done (required (find_key (codes "to") params)) _ r1 in
    let (from, e3, r3) =
      >>=-eq-done (from_option bad_request (parse_rfc3339_micro lib.parse_time from_val)) _ r2 in
    let (to, e4, r4) =
      >>=-eq-done (from_option bad_request (parse_rfc3339_micro lib.parse_time to_val)) _ r3 in
    let (res, e5, r5) = >>=-eq-done (resolution_of (find_key (codes "resolution") params)) _ r4 in
    let (points, e6, r6) =
      >>=-eq-done (points_of lib c (find_key (codes "max_points") params)) _ r5 in
    (checked_window-Passing c from to res points w
      (points_of-within lib c (find_key (codes "max_points") params) points b e6) r6).0

-- An accepted query for a Sensor.
pub record Acceptable (c : HistoryConfig) (q : Query) : Type 0 where
  pub gateway_known : valid_gateway_id q.gateway_id ≡ true
  pub sensor_known : valid_sensor_id q.sensor_id ≡ true
  pub passing :
      Passing c (record { range = q.range; resolution = q.resolution; max_points = q.max_points })

telemetry_query-Acceptable :
    (lib : QueryLib) (c : HistoryConfig) (raw_query : Bytes) (q : Query)
    → HistoryBounds c
    → parse_telemetry_history_query lib c raw_query ≡ done q
    → Acceptable c q
unfolding parse_telemetry_history_query
telemetry_query-Acceptable lib c raw_query q b h =
    let (params, e1, r1) =
      >>=-eq-done
        (parse_raw_query lib raw_query (
          codes "gateway_id"
          ∷ codes "sensor_id"
          ∷ codes "from"
          ∷ codes "to"
          ∷ codes "resolution"
          ∷ codes "max_points"
          ∷ []))
        _ h in
    let (g, e2, r2) = >>=-eq-done (required (find_key (codes "gateway_id") params)) _ r1 in
    let (h3, r3) = fail_when-eq-done bad_request (not (valid_gateway_id g)) _ r2 in
    let (s, e4, r4) = >>=-eq-done (required (find_key (codes "sensor_id") params)) _ r3 in
    let (h5, r5) = fail_when-eq-done bad_request (not (valid_sensor_id s)) _ r4 in
    let (w, e6, r6) = >>=-eq-done (parse_common_time_and_resolution lib c params) _ r5 in
    subst (Acceptable c) (done_inj r6) record {
      gateway_known = test_passed _ h3;
      sensor_known = test_passed _ h5;
      passing = common-Passing lib c params w b e6;
    }

-- A query that ParseTelemetryHistoryQuery accepts, with settings that LoadHistory has loaded, passes every check of PrepareTelemetryHistory under the configuration made of these settings: for an actor that is not nil, what is left to decide is whether the context has ended and what the resolver answers for the Gateway and the Sensor of the query.
pub parsed_query_prepares :
    (config_lib : ConfigLib) (h : HistoryConfig) (lib : QueryLib) (raw_query : Bytes) (q : Query)
    (resolver : Uuid → Bytes → Bytes → Reply (Option ResolvedSensor)) (e : Ended) (actor : Uuid)
    → load_history config_lib ≡ done h
    → parse_telemetry_history_query lib h raw_query ≡ done q
    → bytes_eq actor uuid_nil ≡ false
    → prepare (to_telemetry_preparation_config h) resolver e actor q
      ≡ History.◌>>◌
          (fail_if e.before_resolver ended_error)
          (after_resolver e (resolver actor q.gateway_id q.sensor_id))
unfolding prepare
parsed_query_prepares config_lib h lib raw_query q resolver e actor loaded parsed known =
    let a =
      telemetry_query-Acceptable lib h raw_query q (loaded_history config_lib h loaded) parsed in
    rw known (
      rw a.gateway_known
        (rw a.sensor_known (rw a.passing.points_within (rw a.passing.valid_range refl))))
