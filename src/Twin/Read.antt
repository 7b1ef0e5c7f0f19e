-- ===== src/Twin/Read.antt =====
-- src/internal/digitaltwin: the queries of read_model.go, validation.go, and the configuration of
-- read_preparation.go.
pub mod Errors
pub mod Prepared
pub mod Service
use project1_iot_server.Clock.{Duration}
use project1_iot_server.Uuid.{Uuid}
use project1_iot_server.Identifier.{valid_gateway_id}
use project1_iot_server.History.{TimeRange, Resolution}
use project1_iot_server.Outcome.{Outcome, done, ◌>>◌, ◌>>=◌, fail_when, or_fail}
use project1_iot_server.Twin.{
  TwinError, invalid_input, invalid_cursor, invalid_property, foreign, EntityType, sensor,
  valid_type, same_type, parse_entity_urn,
}
use project1_iot_server.Twin.Cursor.{parse_list_cursor}
use project1_iot_server.Twin.Cursor.Payload.{CursorLib}
use project1_iot_server.Twin.Relationship.{parse_relationship_cursor}
use project1_iot_server.Prelude.{
  Bool, true, false, not, ◌||◌, Option, none, some, if◌then◌else◌, ℤ, pos, ltb_ℤ, leb_ℤ, Bytes,
}

-- A Go string of type HistorySelector.
pub data HistorySelector : Type 0 where
  by_value by_sample_interval_us : HistorySelector
  other_selector : Bytes → HistorySelector

-- HistorySelector.Valid
abbrev pub valid_selector : HistorySelector → Bool
valid_selector by_value = true
valid_selector by_sample_interval_us = true
valid_selector (other_selector s) = false

pub record TwinListQuery : Type 0 where
  pub gateway_id : Option Bytes
  pub entity_type : Option EntityType
  pub limit : ℤ
  pub after : Option Bytes

pub record TwinDetailQuery : Type 0 where
  pub entity_id : Bytes
  pub relationship_limit : ℤ
  pub relationship_after : Option Bytes

pub record TwinStateQuery : Type 0 where
  pub entity_id : Bytes

pub record TwinHistoryQuery : Type 0 where
  pub entity_id : Bytes
  pub property : HistorySelector
  pub range : TimeRange
  pub resolution : Resolution
  pub max_points : ℤ
  pub effective_raw_window : Duration

pub record ResolvedEntity : Type 0 where
  pub internal_id : Uuid
  pub public_urn : Bytes
  pub entity_kind : EntityType
  pub gateway_id : Bytes
  pub sensor_id : Bytes

abbrev pub contract_max_limit : ℤ
contract_max_limit = pos 200

abbrev pub contract_max_raw_window : Duration
contract_max_raw_window = pos 10000000000

abbrev pub Checked : Type 0
Checked = Outcome TwinError (Unit {0})

-- The bound of a limit, where the configured one is not positive.
abbrev pub limit_cap : ℤ → ℤ
limit_cap max = if leb_ℤ max (pos 0) then contract_max_limit else max

abbrev pub bad_limit : ℤ → ℤ → Bool
bad_limit limit max = ltb_ℤ limit (pos 1) || ltb_ℤ (limit_cap max) limit

abbrev pub refused_id : Option Bytes → Bool
refused_id none = false
refused_id (some id) = not (valid_gateway_id id)

abbrev pub refused_type : Option EntityType → Bool
refused_type none = false
refused_type (some t) = not (valid_type t)

-- A cursor that is set has to parse.
abbrev pub refused_cursor {ℓ} :
    {C : Type ℓ} → (Bytes → Outcome TwinError C) → Option Bytes → Checked
refused_cursor parse none = done tt
refused_cursor parse (some c) = or_fail invalid_cursor (parse c) >>= λ v. done tt

-- ValidateTwinListQuery
unfoldable pub validate_twin_list_query : CursorLib → TwinListQuery → ℤ → Checked
unfolding parse_list_cursor
validate_twin_list_query lib q max = do
  fail_when invalid_input (bad_limit q.limit max)
  fail_when invalid_input (refused_id q.gateway_id)
  fail_when invalid_input (refused_type q.entity_type)
  refused_cursor (λ c. parse_list_cursor lib c q.gateway_id q.entity_type) q.after

-- ValidateTwinDetailQuery
unfoldable pub validate_twin_detail_query : CursorLib → TwinDetailQuery → ℤ → Checked
unfolding parse_entity_urn parse_relationship_cursor
validate_twin_detail_query lib q max = do
  p ← or_fail invalid_input (parse_entity_urn q.entity_id)
  fail_when invalid_input (bad_limit q.relationship_limit max)
  refused_cursor (λ c. parse_relationship_cursor lib c q.entity_id) q.relationship_after

-- ValidateTwinStateQuery
unfoldable pub validate_twin_state_query : TwinStateQuery → Checked
unfolding parse_entity_urn
validate_twin_state_query q = do p ← or_fail invalid_input (parse_entity_urn q.entity_id); done tt

-- ValidateTwinHistoryQuery
unfoldable pub validate_twin_history_query : TwinHistoryQuery → Checked
unfolding parse_entity_urn same_type
validate_twin_history_query q = do
  p ← or_fail invalid_input (parse_entity_urn q.entity_id)
  fail_when invalid_property (not (same_type p.kind sensor))
  fail_when invalid_property (not (valid_selector q.property))

pub record ReadPreparationConfig : Type 0 where
  pub query_timeout : Duration
  pub list_max_limit : ℤ
  pub relationship_max_limit : ℤ
  pub history_max_range : Duration
  pub history_raw_window : Duration
  pub history_min_points : ℤ
  pub history_max_points : ℤ

-- ValidateReadPreparationConfig; its errors are numbered.
unfoldable pub validate_read_preparation_config : ReadPreparationConfig → Checked
validate_read_preparation_config c = do
  fail_when (foreign 1) (leb_ℤ c.query_timeout (pos 0))
  fail_when (foreign 2) (ltb_ℤ (pos 5000000000) c.query_timeout)
  fail_when (foreign 3)
      (leb_ℤ c.list_max_limit (pos 0) || ltb_ℤ contract_max_limit c.list_max_limit)
  fail_when (foreign 4)
      (leb_ℤ c.relationship_max_limit (pos 0) || ltb_ℤ contract_max_limit c.relationship_max_limit)
  fail_when (foreign 5) (leb_ℤ c.history_max_range (pos 0))
  fail_when (foreign 6) (ltb_ℤ (pos 2678400000000000) c.history_max_range)
  fail_when (foreign 7) (leb_ℤ c.history_raw_window (pos 0))
  fail_when (foreign 8) (ltb_ℤ contract_max_raw_window c.history_raw_window)
  fail_when (foreign 9) (ltb_ℤ c.history_max_range c.history_raw_window)
  fail_when (foreign 10) (ltb_ℤ c.history_min_points (pos 100))
  fail_when (foreign 11) (ltb_ℤ (pos 2000) c.history_min_points)
  fail_when (foreign 12) (ltb_ℤ (pos 2000) c.history_max_points)
  fail_when (foreign 13) (ltb_ℤ c.history_max_points c.history_min_points)
