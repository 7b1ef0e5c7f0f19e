-- ===== src/History/Select.antt =====
-- SelectAutoBucketResolution of src/internal/telemetry/history_service.go.
pub mod Smallest
pub mod Fits
use project1_iot_server.Clock.{Time, Duration, before}
use project1_iot_server.History.{
  invalid_input, resolution_too_fine, Reply, failure, reply, ◌>>=◌, ◌>>◌, fail_if, Resolution,
  ms_100, s_1, s_10, m_1, m_5, m_15, h_1, h_6, d_1, resolution_duration, intersecting_bucket_count,
}
use project1_iot_server.Prelude.{
  not, Option, none, some, List, [], ◌∷◌, if◌then◌else◌, ℤ, pos, leb_ℤ,
}

-- AllowedBucketResolutions
abbrev pub allowed_bucket_resolutions : List Resolution
allowed_bucket_resolutions = ms_100 ∷ s_1 ∷ s_10 ∷ m_1 ∷ m_5 ∷ m_15 ∷ h_1 ∷ h_6 ∷ d_1 ∷ []

-- What the loop does with one resolution: it goes on, returns it, or fails.
pub data Pick : Type 0 where
  go_on take_it give_up : Pick

abbrev pub pick_count : Reply ℤ → ℤ → Pick
pick_count (failure e) max = give_up
pick_count (reply count) max = if leb_ℤ count max then take_it else go_on

abbrev pub pick_width : Time → Time → ℤ → Option Duration → Pick
pick_width from to max none = go_on
pick_width from to max (some w) = pick_count (intersecting_bucket_count from to w) max

unfoldable pub pick : Time → Time → ℤ → Resolution → Pick
unfolding resolution_duration intersecting_bucket_count
pick from to max res = pick_width from to max (resolution_duration res)

abbrev pub picked : Pick → Resolution → Reply Resolution → Reply Resolution
picked go_on res rest = rest
picked take_it res rest = reply res
picked give_up res rest = failure invalid_input

-- The loop.
unfoldable pub first_fitting : Time → Time → ℤ → List Resolution → Reply Resolution
unfolding pick
first_fitting from to max [] = failure resolution_too_fine
first_fitting from to max (res ∷ rest) =
    picked (pick from to max res) res (first_fitting from to max rest)

-- SelectAutoBucketResolution
unfoldable pub select_auto_bucket_resolution : Time → Time → ℤ → Reply Resolution
unfolding first_fitting
select_auto_bucket_resolution from to max = do
  fail_if (leb_ℤ max (pos 0)) invalid_input
  fail_if (not (before from to)) invalid_input
  first_fitting from to max allowed_bucket_resolutions
