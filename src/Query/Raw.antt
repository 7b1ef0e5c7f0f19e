-- ===== src/Query/Raw.antt =====
-- src/internal/httpserver/history_query_parser.go: the errors, the parameters of a query string, and
-- its integers.
use project1_iot_server.Clock.{Time}
use project1_iot_server.History.{HistoryError}
use project1_iot_server.Json.{mem}
use project1_iot_server.Outcome.{Outcome, fails, done, ◌>>◌, ◌>>=◌, fail_when, from_option}
use project1_iot_server.ReadBounds.{HistoryConfig}
use project1_iot_server.Twin.{TwinError, history}
use project1_iot_server.Twin.Cursor.Payload.{has_byte}
use project1_iot_server.Prelude.{
  not, ◌||◌, Option, none, some, List, [], ◌∷◌, ltb, if◌then◌else◌, length, all, ℤ, ltb_ℤ, Bytes,
  is_digit, is_empty,
}

-- The codes of a QueryError, and the error that it wraps.
pub data Code : Type 0 where
  invalid_request invalid_property invalid_resolution range_too_large : Code
  raw_limit_exceeded resolution_too_fine : Code

pub record QueryError : Type 0 where
  pub code : Code
  pub cause : TwinError

abbrev pub Parsed {ℓ} : Type ℓ → Type ℓ
Parsed V = Outcome QueryError V

-- url.ParseQuery, strconv.Atoi on digits, strings.TrimSpace, and time.Parse with RFC3339Nano.
pub record QueryLib : Type 0 where
  pub parse_query : Bytes → Option (List (Bytes × List Bytes))
  pub atoi : Bytes → Option ℤ
  pub trim_space : Bytes → Bytes
  pub parse_time : Bytes → Option Time

-- The most frequent error.
abbrev pub bad_request : QueryError
bad_request = record { code = invalid_request; cause = history HistoryError.invalid_input }

abbrev pub bad_entity : QueryError
bad_entity = record { code = invalid_request; cause = TwinError.invalid_input }

abbrev pub bad_property : QueryError
bad_property = record { code = invalid_property; cause = TwinError.invalid_property }

abbrev pub bad_resolution : QueryError
bad_resolution = record {
  code = invalid_resolution;
  cause = history HistoryError.invalid_resolution;
}

-- The map of the parameters, with one value that is not empty for each key.
abbrev pub Params : Type 0
Params = List (Bytes × Bytes)

-- The loop of parseRawQuery.
unfoldable pub read_params : List Bytes → List (Bytes × List Bytes) → Parsed Params
read_params allowed [] = done []
read_params allowed ((key, []) ∷ rest) = do
  fail_when bad_request (not (mem key allowed))
  read_params allowed rest
read_params allowed ((key, v ∷ []) ∷ rest) = do
  fail_when bad_request (not (mem key allowed))
  fail_when bad_request (is_empty v)
  more ← read_params allowed rest
  done ((key, v) ∷ more)
read_params allowed ((key, v ∷ w ∷ vs) ∷ rest) = fails bad_request

-- parseRawQuery
unfoldable pub parse_raw_query : QueryLib → Bytes → List Bytes → Parsed Params
unfolding has_byte read_params
parse_raw_query lib raw_query allowed = do
  fail_when bad_request (ltb 1024 (length raw_query))
  fail_when bad_request (has_byte b';' raw_query)
  parsed ← from_option bad_request (lib.parse_query raw_query)
  read_params allowed parsed

-- A parameter that has to be set.
unfoldable pub required : Option Bytes → Parsed Bytes
required none = fails bad_request
required (some v) = do fail_when bad_request (is_empty v); done v

-- parseASCIIInteger
unfoldable pub parse_ascii_integer : QueryLib → Bytes → Option ℤ
parse_ascii_integer lib s = if is_empty s || not (all is_digit s) then none else lib.atoi s

-- max_points, where it is set.
abbrev pub in_points : HistoryConfig → Option ℤ → Parsed ℤ
in_points c none = fails bad_request
in_points c (some n) = do
  fail_when bad_request (ltb_ℤ n c.min_points || ltb_ℤ c.max_points n)
  done n

unfoldable pub points_of : QueryLib → HistoryConfig → Option Bytes → Parsed ℤ
unfolding parse_ascii_integer
points_of lib c none = done c.default_points
points_of lib c (some s) = in_points c (parse_ascii_integer lib s)
