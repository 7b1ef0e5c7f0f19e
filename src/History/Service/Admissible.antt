-- ===== src/History/Service/Admissible.antt =====
-- The queries that reach the reader, for src/internal/telemetry/history_service.go.
pub mod Answered
use project1_iot_server.Clock.{Time, Duration, before, nanosecond}
use project1_iot_server.History.{
  invalid_input, range_too_large, invalid_resolution, raw_limit_exceeded, Reply, failure, reply,
  fail_if, fail_if-eq-reply, passes, ◌>>◌, Resolution, auto, raw, other_resolution,
  resolution_duration, valid_resolution, TimeRange, span, microseconds, bad_year, too_large,
  or_invalid, check_width, check_buckets, check_resolution, validate_history_time_range,
}
use project1_iot_server.History.Select.{select_auto_bucket_resolution}
use project1_iot_server.History.Select.Smallest.{FitsIn, FirstOf-FitsIn, select_auto-FirstOf}
use project1_iot_server.History.Service.{
  Config, Query, Ended, read_at, read_bucket, after_raw, read_auto, by_resolution,
  execute_effective_query, is_raw_limit,
}
use project1_iot_server.Prelude.{
  ℕ, ◌-◌, ◌%◌, ◌≤◌, ◌≡◌, refl, ap, ◌∙◌, Bool, true, false, not, ◌||◌, Option, some, List, arith,
  ◌==◌, if◌then◌else◌, All, ℤ, ◌≤ℤ◌, ltb_ℤ, leb_ℤ,
}

abbrev is_auto : Resolution → Bool
is_auto auto = true
is_auto _ = false

abbrev pub ValidRange : Config → Query → Type 0
ValidRange c p =
    validate_history_time_range p.range p.resolution c.max_range c.raw_window p.max_points
    ≡ reply tt

-- A query for the Sensor, the range and the points of the request `q`, with a resolution of its own that
-- is not auto and with which the range is valid.
abbrev pub Admissible : Config → Query → Query → Type 0
Admissible c q p =
    (p.gateway_id ≡ q.gateway_id)
    × (p.sensor_id ≡ q.sensor_id)
    × (p.range ≡ q.range)
    × (p.max_points ≡ q.max_points)
    × (is_auto p.resolution ≡ false)
    × ValidRange c p

-- Another resolution for a range that is valid.
revalidate :
    (range : TimeRange) (res other : Resolution) (max_range window : Duration) (max : ℤ)
    → validate_history_time_range range res max_range window max ≡ reply tt
    → valid_resolution other ≡ true
    → check_resolution range.from.utc range.to.utc other window max ≡ reply tt
    → validate_history_time_range range other max_range window max ≡ reply tt
unfolding validate_history_time_range
revalidate range res other max_range window max h v k =
    let from = range.from.utc in
    let to = range.to.utc in
    let (h1, r1) = fail_if-eq-reply (bad_year range.from || bad_year range.to) invalid_input _ h in
    let (h2, r2) =
      fail_if-eq-reply (not (nanosecond from % 1000 == 0) || not (nanosecond to % 1000 == 0))
        invalid_input _ r1 in
    let (h3, r3) = fail_if-eq-reply (not (before from to)) invalid_input _ r2 in
    let (h4, r4) = fail_if-eq-reply (too_large from to max_range) range_too_large _ r3 in
    passes (bad_year range.from || bad_year range.to) invalid_input _ h1 (
      passes (not (nanosecond from % 1000 == 0) || not (nanosecond to % 1000 == 0)) invalid_input _
        h2
        (passes (not (before from to)) invalid_input _ h3 (
          passes (too_large from to max_range) range_too_large _ h4
            (passes (not (valid_resolution other)) invalid_resolution _ (ap not v) k))))

within : (count max : ℤ) → count ≤ℤ max → or_invalid (reply count) max ≡ reply tt
within count max h = ground arith

buckets_pass :
    (from to : Time) (max : ℤ) (res : Resolution)
    → FitsIn from to max res
    → check_buckets from to res max ≡ reply tt
unfolding check_buckets
buckets_pass from to max res (count, (w, d, e), h) =
    ap (check_width from to max) d ∙ ap (λ r. or_invalid r max) e ∙ within count max h

-- A resolution with a width.
width_checks :
    (from to : Time) (window : Duration) (max : ℤ) (res : Resolution) (w : ℤ)
    → resolution_duration res ≡ some w
    → (valid_resolution res ≡ true)
      × (is_auto res ≡ false)
      × (check_resolution from to res window max ≡ check_buckets from to res max)
unfolding resolution_duration valid_resolution check_resolution
width_checks from to window max auto w d = cc
width_checks from to window max raw w d = cc
width_checks from to window max (other_resolution s) w d = cc
width_checks from to window max _ w d = (refl, refl, refl)

above_span : (a b : ℤ) → leb_ℤ a b ≡ true → ltb_ℤ b a ≡ false
above_span a b h = ground arith

passes_last : (b : Bool) → b ≡ false → fail_if b raw_limit_exceeded ≡ reply tt
passes_last b h = rw h refl

raw_passes :
    (from to : Time) (window : Duration) (max : ℤ)
    → leb_ℤ (span from to) (microseconds window) ≡ true
    → check_resolution from to raw window max ≡ reply tt
unfolding check_resolution
raw_passes from to window max h =
    passes_last (ltb_ℤ (microseconds window) (span from to))
      (above_span (span from to) (microseconds window) h)

-- The queries of a run that a test chooses.
pub either {ℓ} :
    {A : Type ℓ} (P : Query → Type 0) (b : Bool) (x y : List Query × A)
    → (b ≡ true → All P x.0)
    → All P y.0
    → All P (if b then x else y).0
either P true x y h k = h refl
either P false x y h k = k

module _ (c : Config) (q : Query) (valid : ValidRange c q) where
  bucket-Admissible :
      (res : Resolution)
      → select_auto_bucket_resolution q.range.from.utc q.range.to.utc q.max_points ≡ reply res
      → Admissible c q (record q { resolution = res })
  bucket-Admissible res h =
      let fits = FirstOf-FitsIn _ _ _ res _ (select_auto-FirstOf _ _ q.max_points res h) in
      let (count, (w, d, e), k) = fits in
      let (known, not_auto, checks) =
        width_checks q.range.from.utc q.range.to.utc c.raw_window q.max_points res w d in
      (
        refl,
        refl,
        refl,
        refl,
        not_auto,
        revalidate q.range q.resolution res c.max_range c.raw_window q.max_points valid known
            (checks ∙ buckets_pass _ _ _ res fits),
      )

  raw-Admissible :
      leb_ℤ (span q.range.from.utc q.range.to.utc) (microseconds c.raw_window) ≡ true
      → Admissible c q (record q { resolution = raw })
  unfolding valid_resolution
  raw-Admissible h = (
    refl,
    refl,
    refl,
    refl,
    refl,
    revalidate q.range q.resolution raw c.max_range c.raw_window q.max_points valid refl
        (raw_passes _ _ c.raw_window q.max_points h),
  )

  module _ {ℓ} {R : Type ℓ} (reader : ℕ → Query → Reply (Option R)) where
    read_at-Admissible :
        (i : ℕ) (r : Reply Resolution)
        → select_auto_bucket_resolution q.range.from.utc q.range.to.utc q.max_points ≡ r
        → All (Admissible c q) (read_at reader i q r).0
    unfolding read_at
    read_at-Admissible i (failure e) h = tt
    read_at-Admissible i (reply res) h = (bucket-Admissible res h, tt)

    read_bucket-Admissible : (i : ℕ) → All (Admissible c q) (read_bucket reader i q).0
    unfolding read_bucket
    read_bucket-Admissible i = read_at-Admissible i _ refl

    after_raw-Admissible :
        (e : Ended) (p : Query) (answer : Reply (Option R)) (i : ℕ)
        → Admissible c q p
        → All (Admissible c q) (after_raw reader e p answer (read_bucket reader i q)).0
    unfolding after_raw
    after_raw-Admissible e p (reply r) i h = (h, tt)
    after_raw-Admissible e p (failure f) i h =
        either (Admissible c q) (not (is_raw_limit f)) _ _ (λ other. (h, tt))
          (either (Admissible c q) e.after_probe _ _ (λ late. (h, tt))
            (h, read_bucket-Admissible i))

    read_auto-Admissible : (e : Ended) → All (Admissible c q) (read_auto reader c e q).0
    unfolding read_auto
    read_auto-Admissible e =
        either (Admissible c q)
          (leb_ℤ (span q.range.from.utc q.range.to.utc) (microseconds c.raw_window)) _ _
          (λ short.
            after_raw-Admissible e _ (reader 0 (record q { resolution = raw })) 1
              (raw-Admissible short))
          (read_bucket-Admissible 0)

    by_resolution-Admissible :
        (e : Ended) (res : Resolution)
        → q.resolution ≡ res
        → All (Admissible c q) (by_resolution reader c e q res).0
    unfolding by_resolution
    by_resolution-Admissible e auto h = read_auto-Admissible e
    by_resolution-Admissible e _ h = ((refl, refl, refl, refl, ap is_auto h, valid), tt)

    execute-Admissible : (e : Ended) → All (Admissible c q) (execute_effective_query reader c e q).0
    unfolding execute_effective_query
    execute-Admissible e =
        either (Admissible c q) e.before_query _ _ (λ late. tt)
          (by_resolution-Admissible e q.resolution refl)
