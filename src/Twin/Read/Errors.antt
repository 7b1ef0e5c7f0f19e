-- ===== src/Twin/Read/Errors.antt =====
-- errors.Is and mapTelemetryDelegationError, for src/internal/digitaltwin/read_service.go.
use project1_iot_server.History.{HistoryError}
use project1_iot_server.History.Mention.{mentions}
use project1_iot_server.Twin.{
  TwinError, nil_actor, not_found, invalid_input, dependency_unavailable, unexpected, history,
  context_ended, wrapped,
}
use project1_iot_server.Prelude.{Bool, true, false, ◌||◌, if◌then◌else◌}

-- errors.Is, for a test on the errors at the leaves
unfoldable pub carries : (TwinError → Bool) → TwinError → Bool
unfolding mentions
carries test (wrapped e f) = carries test e || carries test f
carries test (history h) = mentions (λ leaf. test (history leaf)) h
carries test e = test e

abbrev pub is_ended : TwinError → Bool
is_ended context_ended = true
is_ended (history HistoryError.context_ended) = true
is_ended _ = false

-- ErrRangeTooLarge, ErrInvalidResolution, ErrRawLimitExceeded and ErrResolutionTooFine
abbrev pub is_delegated : TwinError → Bool
is_delegated (history HistoryError.range_too_large) = true
is_delegated (history HistoryError.invalid_resolution) = true
is_delegated (history HistoryError.raw_limit_exceeded) = true
is_delegated (history HistoryError.resolution_too_fine) = true
is_delegated _ = false

-- The sentinels of the two packages that name one family of errors.
abbrev pub is_not_found : TwinError → Bool
is_not_found not_found = true
is_not_found _ = false

abbrev pub is_no_history : TwinError → Bool
is_no_history (history HistoryError.history_not_found) = true
is_no_history _ = false

abbrev pub is_unavailable : TwinError → Bool
is_unavailable dependency_unavailable = true
is_unavailable _ = false

abbrev pub is_history_dependency : TwinError → Bool
is_history_dependency (history HistoryError.dependency) = true
is_history_dependency _ = false

abbrev pub is_bad_input : TwinError → Bool
is_bad_input invalid_input = true
is_bad_input _ = false

abbrev pub is_bad_history_input : TwinError → Bool
is_bad_history_input (history HistoryError.invalid_input) = true
is_bad_history_input _ = false

abbrev pub is_nil_actor : TwinError → Bool
is_nil_actor nil_actor = true
is_nil_actor _ = false

abbrev pub is_history_nil_actor : TwinError → Bool
is_history_nil_actor (history HistoryError.nil_actor) = true
is_history_nil_actor _ = false

abbrev pub is_unexpected : TwinError → Bool
is_unexpected unexpected = true
is_unexpected _ = false

-- An error under the sentinel of its family, unless it has that sentinel.
abbrev pub under : (TwinError → Bool) → TwinError → TwinError → TwinError
under test family e = if carries test e then e else wrapped family e

-- mapTelemetryDelegationError
unfoldable pub map_telemetry_delegation_error : TwinError → TwinError
unfolding carries
map_telemetry_delegation_error e =
    if carries is_delegated e
    then e
    else if carries is_not_found e || carries is_no_history e
    then under is_not_found not_found e
    else if carries is_unavailable e || carries is_history_dependency e || carries is_ended e
    then under is_unavailable dependency_unavailable e
    else if carries is_bad_input e || carries is_bad_history_input e
    then under is_bad_input invalid_input e
    else if carries is_nil_actor e || carries is_history_nil_actor e
    then under is_nil_actor nil_actor e
    else if carries is_unexpected e
    then e
    else wrapped unexpected e
