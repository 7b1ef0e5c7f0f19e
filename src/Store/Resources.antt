-- ===== src/Store/Resources.antt =====
-- resolveTelemetryResource of src/internal/telemetry/postgres_resources.go.
use project1_iot_server.Uuid.{Uuid, uuid_nil}
use project1_iot_server.Telemetry.Errors.{
  Result, ok, reason, invalid_payload, unknown_gateway, unknown_sensor, resource_graph_incomplete,
  ◌>>=◌, ◌>>◌, reject_if, or_error,
}
use project1_iot_server.Telemetry.Message.{Message}
use project1_iot_server.Store.{Db, Faults, check_gateway, lock_sensor, verify_graph, run}
use project1_iot_server.Prelude.{not, ◌||◌, Option, Bytes, is_empty, bytes_eq}

-- resolvedTelemetryResource
pub record Resource : Type 0 where
  pub gateway_id : Bytes
  pub sensor_id : Bytes
  pub entity_id : Uuid
  pub unit : Option Bytes

unfoldable pub resolve_resource : Faults → Db → Message → Result Resource
resolve_resource f db m = do
  let g = m.topic.gateway_id
  let s = m.topic.sensor_id
  reject_if (is_empty g || is_empty s) (reason invalid_payload "message")
  run f check_gateway "check telemetry Gateway"
  reject_if (not (db.has_gateway g)) (reason unknown_gateway "gateway_id")
  run f lock_sensor "lock telemetry Sensor"
  unit ← or_error (db.sensor_unit g s) (reason unknown_sensor "sensor_id")
  run f verify_graph "verify telemetry Twin graph"
  (gateway_entity, sensor_entity, state_present) ←
      or_error (db.twin_graph g s) (reason resource_graph_incomplete "twin_graph")
  reject_if
      (bytes_eq gateway_entity uuid_nil || bytes_eq sensor_entity uuid_nil || not state_present)
      (reason resource_graph_incomplete "twin_graph")
  ok (record { gateway_id = g; sensor_id = s; entity_id = sensor_entity; unit = unit })
