-- ===== src/History/Mention.antt =====
-- errors.Is on the errors of src/internal/telemetry, for the sentinels that its callers look for.
use project1_iot_server.History.{
  HistoryError, range_too_large, raw_limit_exceeded, resolution_too_fine, invalid_resolution,
  wrapped,
}
use project1_iot_server.Prelude.{Bool, true, false, ◌||◌}

-- errors.Is, for a test on the errors at the leaves.
unfoldable pub mentions : (HistoryError → Bool) → HistoryError → Bool
mentions test (wrapped e f) = mentions test e || mentions test f
mentions test e = test e

abbrev pub is_range_too_large : HistoryError → Bool
is_range_too_large range_too_large = true
is_range_too_large _ = false

abbrev pub is_raw_limit_exceeded : HistoryError → Bool
is_raw_limit_exceeded raw_limit_exceeded = true
is_raw_limit_exceeded _ = false

abbrev pub is_resolution_too_fine : HistoryError → Bool
is_resolution_too_fine resolution_too_fine = true
is_resolution_too_fine _ = false

abbrev pub is_invalid_resolution : HistoryError → Bool
is_invalid_resolution invalid_resolution = true
is_invalid_resolution _ = false
