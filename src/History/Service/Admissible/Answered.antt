-- ===== src/History/Service/Admissible/Answered.antt =====
-- The requests of GetTelemetryHistory, for src/internal/telemetry/history_service.go.
use project1_iot_server.Uuid.{Uuid, uuid_nil}
use project1_iot_server.Identifier.{valid_gateway_id, valid_sensor_id}
use project1_iot_server.History.{
  nil_actor, invalid_input, Reply, failure, reply, fail_if-eq-reply, >>-eq-reply,
  validate_history_time_range,
}
use project1_iot_server.History.Service.{
  Config, Query, ResolvedSensor, Ended, ended_error, after_resolver, prepare,
  execute_effective_query, finish_request, if_prepared, get_telemetry_history,
}
use project1_iot_server.History.Service.Admissible.{
  either, Admissible, ValidRange, execute-Admissible,
}
use project1_iot_server.Prelude.{
  ℕ, ◌≡◌, refl, Bool, true, false, not, ◌||◌, Option, none, some, List, [], ◌∷◌, arith, All, ℤ,
  ◌≤ℤ◌, ltb_ℤ, Bytes, bytes_eq,
}

-- What a request has passed before the reader is asked: the actor is known, the identifiers and the range
-- are valid, the points are within the configured limits, and the resolver has found the Sensor for the
-- actor.
abbrev pub Prepared :
    Config → (Uuid → Bytes → Bytes → Reply (Option ResolvedSensor)) → Uuid → Query → Type 0
Prepared c resolver actor q =
    (bytes_eq actor uuid_nil ≡ false)
    × (valid_gateway_id q.gateway_id ≡ true)
    × (valid_sensor_id q.sensor_id ≡ true)
    × (c.min_points ≤ℤ q.max_points)
    × (q.max_points ≤ℤ c.max_points)
    × ValidRange c q
    × ((s : ResolvedSensor) × (resolver actor q.gateway_id q.sensor_id ≡ reply (some s)))

resolved :
    (e : Ended) (r : Reply (Option ResolvedSensor))
    → after_resolver e r ≡ reply tt
    → (s : ResolvedSensor) × (r ≡ reply (some s))
unfolding after_resolver
resolved e (failure f) h = cc
resolved e (reply none) h = cc
resolved e (reply (some s)) h = (s, refl)

kept_true : (b : Bool) → not b ≡ false → b ≡ true
kept_true b h = ground arith

at_least : (p a b : ℤ) → (ltb_ℤ p a || ltb_ℤ b p) ≡ false → a ≤ℤ p
at_least p a b h = ground arith

at_most : (p a b : ℤ) → (ltb_ℤ p a || ltb_ℤ b p) ≡ false → p ≤ℤ b
at_most p a b h = ground arith

prepare-Prepared :
    (c : Config) (resolver : Uuid → Bytes → Bytes → Reply (Option ResolvedSensor)) (e : Ended)
    (actor : Uuid) (q : Query)
    → prepare c resolver e actor q ≡ reply tt
    → Prepared c resolver actor q
unfolding prepare
prepare-Prepared c resolver e actor q h =
    let points = ltb_ℤ q.max_points c.min_points || ltb_ℤ c.max_points q.max_points in
    let (known, r1) = fail_if-eq-reply (bytes_eq actor uuid_nil) nil_actor _ h in
    let (gateway, r2) = fail_if-eq-reply (not (valid_gateway_id q.gateway_id)) invalid_input _ r1 in
    let (sensor, r3) = fail_if-eq-reply (not (valid_sensor_id q.sensor_id)) invalid_input _ r2 in
    let (within, r4) = fail_if-eq-reply points invalid_input _ r3 in
    let (range, r5) =
      >>-eq-reply
        (validate_history_time_range q.range q.resolution c.max_range c.raw_window q.max_points) _
        r4 in
    let (early, r6) = fail_if-eq-reply e.before_resolver ended_error _ r5 in
    (
      known,
      kept_true _ gateway,
      kept_true _ sensor,
      at_least q.max_points c.min_points c.max_points within,
      at_most q.max_points c.min_points c.max_points within,
      range,
      resolved e (resolver actor q.gateway_id q.sensor_id) r6,
    )

-- Each query that the reader is asked.
abbrev pub Asked :
    Config → (Uuid → Bytes → Bytes → Reply (Option ResolvedSensor)) → Uuid → Query → Query → Type 0
Asked c resolver actor q p = Prepared c resolver actor q × Admissible c q p

module _ {ℓ} {R : Type ℓ} (reader : ℕ → Query → Reply (Option R)) (c : Config)
    (resolver : Uuid → Bytes → Bytes → Reply (Option ResolvedSensor)) (e : Ended) (actor : Uuid)
    (q : Query) where
  All-Asked :
      (l : List Query)
      → Prepared c resolver actor q
      → All (Admissible c q) l
      → All (Asked c resolver actor q) l
  All-Asked [] p a = tt
  All-Asked (r ∷ l) p (x, xs) = ((p, x), All-Asked l p xs)

  when_prepared :
      (r : Reply (Unit {0}))
      → prepare c resolver e actor q ≡ r
      → All
          (Asked c resolver actor q)
          (if_prepared reader e r (execute_effective_query reader c e q)).0
  unfolding if_prepared finish_request
  when_prepared (failure f) h = tt
  when_prepared (reply v) h =
      let prepared = prepare-Prepared c resolver e actor q h in
      let (known, gateway, sensor, low, high, valid, found) = prepared in
      All-Asked _ prepared (execute-Admissible c q valid reader e)

  -- Whatever the reader answers and whenever the context ends, the reader is only asked for a request of a
  -- known actor with valid identifiers, points and range, whose Sensor the resolver has found for the
  -- actor; and each query is for that Sensor, range and limit, with a resolution that is not auto and with
  -- which the range is valid: within the raw window, or with at most as many buckets as points.
  pub get_telemetry_history-Asked :
      All (Asked c resolver actor q) (get_telemetry_history reader c resolver e actor q).0
  unfolding get_telemetry_history
  get_telemetry_history-Asked =
      either (Asked c resolver actor q) (bytes_eq actor uuid_nil) _ _ (λ h. tt)
        (when_prepared _ refl)
