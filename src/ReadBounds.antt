-- ===== src/ReadBounds.antt =====
-- src/internal/config/read_bounds.go: the bounds of history and twin queries, from the environment.
-- time.ParseDuration, strconv.Atoi and the lookup of a variable are parameters; the errors are numbered.
pub mod Bounds
pub mod Loaded
use project1_iot_server.Clock.{Duration}
use project1_iot_server.Outcome.{Outcome, fails, done, ◌>>◌, ◌>>=◌, fail_when}
use project1_iot_server.History.Service.{Config}
use project1_iot_server.Twin.Read.{ReadPreparationConfig}
use project1_iot_server.Prelude.{
  ℕ, Option, none, some, if◌then◌else◌, ℤ, pos, ltb_ℤ, leb_ℤ, Bytes, codes, is_empty,
}

-- HistoryConfig
pub record HistoryConfig : Type 0 where
  pub query_timeout : Duration
  pub max_range : Duration
  pub raw_window : Duration
  pub default_points : ℤ
  pub max_points : ℤ
  pub min_points : ℤ

-- TwinConfig
pub record TwinConfig : Type 0 where
  pub list_default_limit : ℤ
  pub list_max_limit : ℤ
  pub relationship_default_limit : ℤ
  pub relationship_max_limit : ℤ

-- DefaultHistoryConfig
abbrev pub default_history_config : HistoryConfig
default_history_config = record {
  query_timeout = pos 5000000000;
  max_range = pos 2678400000000000;
  raw_window = pos 10000000000;
  default_points = pos 1000;
  max_points = pos 2000;
  min_points = pos 100;
}

-- DefaultTwinConfig
abbrev pub default_twin_config : TwinConfig
default_twin_config = record {
  list_default_limit = pos 50;
  list_max_limit = pos 200;
  relationship_default_limit = pos 50;
  relationship_max_limit = pos 200;
}

-- ValidateHistoryConfig
unfoldable pub validate_history_config : HistoryConfig → Outcome ℕ (Unit {0})
validate_history_config c = do
  fail_when 1 (leb_ℤ c.query_timeout (pos 0))
  fail_when 2 (ltb_ℤ (pos 5000000000) c.query_timeout)
  fail_when 3 (leb_ℤ c.max_range (pos 0))
  fail_when 4 (ltb_ℤ (pos 2678400000000000) c.max_range)
  fail_when 5 (leb_ℤ c.raw_window (pos 0))
  fail_when 6 (ltb_ℤ (pos 10000000000) c.raw_window)
  fail_when 7 (ltb_ℤ c.max_range c.raw_window)
  fail_when 8 (ltb_ℤ c.min_points (pos 100))
  fail_when 9 (ltb_ℤ (pos 2000) c.min_points)
  fail_when 10 (ltb_ℤ c.default_points c.min_points)
  fail_when 11 (ltb_ℤ (pos 2000) c.max_points)
  fail_when 12 (ltb_ℤ c.max_points c.default_points)

-- ValidateTwinConfig
unfoldable pub validate_twin_config : TwinConfig → Outcome ℕ (Unit {0})
validate_twin_config c = do
  fail_when 21 (ltb_ℤ c.list_default_limit (pos 1))
  fail_when 22 (ltb_ℤ (pos 200) c.list_max_limit)
  fail_when 23 (ltb_ℤ c.list_max_limit c.list_default_limit)
  fail_when 24 (ltb_ℤ c.relationship_default_limit (pos 1))
  fail_when 25 (ltb_ℤ (pos 200) c.relationship_max_limit)
  fail_when 26 (ltb_ℤ c.relationship_max_limit c.relationship_default_limit)

-- What the loaders use of other packages: the lookup of a variable, strings.TrimSpace,
-- time.ParseDuration and strconv.Atoi.
pub record ConfigLib : Type 0 where
  pub lookup : Bytes → Option Bytes
  pub trim_space : Bytes → Bytes
  pub parse_duration : Bytes → Option Duration
  pub atoi : Bytes → Option ℤ

abbrev pub if_not_empty : Bytes → Option Bytes
if_not_empty s = if is_empty s then none else some s

abbrev pub trimmed : (Bytes → Bytes) → Option Bytes → Option Bytes
trimmed trim none = none
trimmed trim (some s) = if_not_empty (trim s)

-- nonEmpty of src/internal/config/config.go
unfoldable pub non_empty : ConfigLib → Bytes → Option Bytes
non_empty lib key = trimmed lib.trim_space (lib.lookup key)

-- The common part of parseReadDuration and parsePositiveInt.
abbrev pub positive_or : Option Bytes → ℤ → (Bytes → Option ℤ) → Outcome ℕ ℤ
positive_or none fallback parse = done fallback
positive_or (some raw) fallback parse = elim (parse raw) [
  | none ↦ fails 31
  | some v ↦ if leb_ℤ v (pos 0) then fails 32 else done v
]

unfoldable pub parse_read_duration : ConfigLib → Bytes → Duration → Outcome ℕ Duration
unfolding non_empty
parse_read_duration lib key fallback = positive_or (non_empty lib key) fallback lib.parse_duration

unfoldable pub parse_positive_int : ConfigLib → Bytes → ℤ → Outcome ℕ ℤ
unfolding non_empty
parse_positive_int lib key fallback = positive_or (non_empty lib key) fallback lib.atoi

-- loadHistory
unfoldable pub load_history : ConfigLib → Outcome ℕ HistoryConfig
unfolding parse_read_duration parse_positive_int validate_history_config
load_history lib = do
  timeout ←
      parse_read_duration lib (codes "HISTORY_QUERY_TIMEOUT") default_history_config.query_timeout
  max_range ← parse_read_duration lib (codes "HISTORY_MAX_RANGE") default_history_config.max_range
  window ← parse_read_duration lib (codes "HISTORY_RAW_WINDOW") default_history_config.raw_window
  points ←
      parse_positive_int lib (codes "HISTORY_DEFAULT_POINTS") default_history_config.default_points
  most ← parse_positive_int lib (codes "HISTORY_MAX_POINTS") default_history_config.max_points
  least ← parse_positive_int lib (codes "HISTORY_MIN_POINTS") default_history_config.min_points
  let c : HistoryConfig = record {
    query_timeout = timeout;
    max_range = max_range;
    raw_window = window;
    default_points = points;
    max_points = most;
    min_points = least;
  }
  validate_history_config c
  done c

-- loadTwin
unfoldable pub load_twin : ConfigLib → Outcome ℕ TwinConfig
unfolding parse_positive_int validate_twin_config
load_twin lib = do
  list_default ←
      parse_positive_int lib (codes "TWIN_LIST_DEFAULT_LIMIT")
        default_twin_config.list_default_limit
  list_max ← parse_positive_int lib (codes "TWIN_LIST_MAX_LIMIT") default_twin_config.list_max_limit
  rel_default ←
      parse_positive_int lib (codes "TWIN_RELATIONSHIP_DEFAULT_LIMIT")
        default_twin_config.relationship_default_limit
  rel_max ←
      parse_positive_int lib (codes "TWIN_RELATIONSHIP_MAX_LIMIT")
        default_twin_config.relationship_max_limit
  let c : TwinConfig = record {
    list_default_limit = list_default;
    list_max_limit = list_max;
    relationship_default_limit = rel_default;
    relationship_max_limit = rel_max;
  }
  validate_twin_config c
  done c

-- ToTelemetryPreparationConfig
abbrev pub to_telemetry_preparation_config : HistoryConfig → Config
to_telemetry_preparation_config c = record {
  query_timeout = c.query_timeout;
  max_range = c.max_range;
  raw_window = c.raw_window;
  min_points = c.min_points;
  max_points = c.max_points;
}

-- ToReadPreparationConfig
abbrev pub to_read_preparation_config : TwinConfig → HistoryConfig → ReadPreparationConfig
to_read_preparation_config c h = record {
  query_timeout = h.query_timeout;
  list_max_limit = c.list_max_limit;
  relationship_max_limit = c.relationship_max_limit;
  history_max_range = h.max_range;
  history_raw_window = h.raw_window;
  history_min_points = h.min_points;
  history_max_points = h.max_points;
}
