-- ===== src/History/Select/Fits.antt =====
-- Why SelectAutoBucketResolution finds a resolution, for src/internal/telemetry/history_service.go.
use project1_iot_server.Clock.{Time, year_10000, before}
use project1_iot_server.History.{
  invalid_input, passes, reply, Resolution, ms_100, s_1, s_10, m_1, m_5, m_15, h_1, h_6, d_1,
  resolution_duration,
}
use project1_iot_server.History.Floor.{FloorOf}
use project1_iot_server.History.Micros.{exact_micros}
use project1_iot_server.History.Counts.Exact.{
  between, last_micro, first_bucket, last_bucket, ends, count_exact,
}
use project1_iot_server.History.Select.{
  allowed_bucket_resolutions, go_on, take_it, pick, pick_count, picked, first_fitting,
  select_auto_bucket_resolution,
}
use project1_iot_server.History.Select.Smallest.{pick_at}
use project1_iot_server.Prelude.{
  ℕ, ◌+◌, ◌/◌, ◌%◌, ◌≤◌, ◌<◌, ◌≡◌, refl, ap, ◌∙◌, ◌⊎◌, inl, inr, false, not, some, List, [], ◌∷◌,
  ◌++◌, arith, Bool-cases, All, ℤ, pos, negsuc, ◌≤ℤ◌, ◌<ℤ◌, leb_ℤ, ◌+ℤ◌, ◌-ℤ◌, ◌*ℤ◌,
}

-- 744 hours in nanoseconds.
abbrev pub max_span : ℕ
max_span = 2678400000000000

counted :
    (c : ℕ) (max : ℤ)
    → (pick_count (reply (pos c)) max ≡ go_on) ⊎ (pick_count (reply (pos c)) max ≡ take_it)
counted c max = elim (Bool-cases (leb_ℤ (pos c) max)) [
  | inl e ↦ inr (rw e refl)
  | inr e ↦ inl (rw e refl)
]

-- A list whose resolutions count the range and whose last one fits.
last_fits :
    (from to : Time) (max : ℤ) (l : List Resolution) (z : Resolution)
    → All (λ r. (pick from to max r ≡ go_on) ⊎ (pick from to max r ≡ take_it)) l
    → pick from to max z ≡ take_it
    → (res : Resolution) × (first_fitting from to max (l ++ (z ∷ [])) ≡ reply res)
unfolding first_fitting
last_fits from to max [] z a h = (z, rw h refl)
last_fits from to max (r ∷ l) z (inl e, a) h =
    let (res, k) = last_fits from to max l z a h in
    (res, ap (λ p. picked p r (first_fitting from to max (l ++ (z ∷ [])))) e ∙ k)
last_fits from to max (r ∷ l) z (inr e, a) h =
    (r, ap (λ p. picked p r (first_fitting from to max (l ++ (z ∷ [])))) e)

apart :
    (x y p q : ℤ)
    → y <ℤ x +ℤ pos 2678400000000
    → q ≤ℤ y
    → x <ℤ p +ℤ pos 86400000000
    → q <ℤ p +ℤ pos 2764800000000
unfolding ◌+ℤ◌
apart x y p q h a b = ground arith

few_buckets :
    (f l : ℤ) → l *ℤ pos 86400000000 <ℤ f *ℤ pos 86400000000 +ℤ pos 2764800000000 → between f l ≤ 33
unfolding ◌*ℤ◌ ◌+ℤ◌ ◌-ℤ◌
few_buckets (pos f) (pos l) h = ground arith
few_buckets (pos f) (negsuc l) h = ground arith
few_buckets (negsuc f) (pos l) h = ground arith
few_buckets (negsuc f) (negsuc l) h = ground arith

close_ends : (m n : ℕ) → n ≤ m + max_span → last_micro n <ℤ exact_micros m +ℤ pos 2678400000000
unfolding ◌+ℤ◌ ◌-ℤ◌
close_ends m n h = ground arith

few_days :
    (m n : ℕ) (f l : ℤ)
    → n ≤ m + max_span
    → FloorOf (exact_micros m) 86400000000 f
    → FloorOf (last_micro n) 86400000000 l
    → between f l ≤ 33
few_days m n f l h a b =
    few_buckets f l (apart (exact_micros m) (last_micro n) _ _ (close_ends m n h) b.0 a.1)

module _ (m n : ℕ) (max : ℤ) (order : m < n) (year : n < year_10000) (a : m % 1000 ≡ 0)
    (b : n % 1000 ≡ 0) where
  picks :
      (r : Resolution) (w : ℕ)
      → resolution_duration r ≡ some (pos w)
      → 1000 ≤ w
      → pick (pos m) (pos n) max r
        ≡ pick_count
            (reply (pos (between (first_bucket m (w / 1000)) (last_bucket n (w / 1000)))))
            max
  picks r w d k =
      pick_at (pos m) (pos n) max r (pos w) d
      ∙ ap (λ c. pick_count c max) (count_exact m n w order year a b k)

  goes :
      (r : Resolution) (w : ℕ)
      → resolution_duration r ≡ some (pos w)
      → 1000 ≤ w
      → (pick (pos m) (pos n) max r ≡ go_on) ⊎ (pick (pos m) (pos n) max r ≡ take_it)
  goes r w d k =
      elim (counted (between (first_bucket m (w / 1000)) (last_bucket n (w / 1000))) max) [
        | inl e ↦ inl (picks r w d k ∙ e)
        | inr e ↦ inr (picks r w d k ∙ e)
      ]

  fits_below : (c : ℕ) → c ≤ 33 → pos 33 ≤ℤ max → pick_count (reply (pos c)) max ≡ take_it
  fits_below c h k = ground arith

  day_fits : n ≤ m + max_span → pos 33 ≤ℤ max → pick (pos m) (pos n) max d_1 ≡ take_it
  unfolding resolution_duration
  day_fits h k =
      let (f, l, count, sum) = ends m n 86400000000 order year a b (omega arith) in
      picks d_1 86400000000000 refl (omega arith)
      ∙ fits_below _ (few_days m n (first_bucket m 86400000000) (last_bucket n 86400000000) h f l) k

  no_zero : pos 33 ≤ℤ max → leb_ℤ max (pos 0) ≡ false
  no_zero k = ground arith

  in_order : not (before (pos m) (pos n)) ≡ false
  in_order = ground arith

  some_fits :
      n ≤ m + max_span
      → pos 33 ≤ℤ max
      → (res : Resolution) × (first_fitting (pos m) (pos n) max allowed_bucket_resolutions
          ≡ reply res)
  unfolding resolution_duration
  some_fits h k =
      last_fits (pos m) (pos n) max (ms_100 ∷ s_1 ∷ s_10 ∷ m_1 ∷ m_5 ∷ m_15 ∷ h_1 ∷ h_6 ∷ []) d_1
        (
          goes ms_100 100000000 refl (omega arith),
          (
            goes s_1 1000000000 refl (omega arith),
            (
              goes s_10 10000000000 refl (omega arith),
              (
                goes m_1 60000000000 refl (omega arith),
                (
                  goes m_5 300000000000 refl (omega arith),
                  (
                    goes m_15 900000000000 refl (omega arith),
                    (
                      goes h_1 3600000000000 refl (omega arith),
                      (goes h_6 21600000000000 refl (omega arith), tt),
                    ),
                  ),
                ),
              ),
            ),
          ),
        )
        (day_fits h k)

  enter :
      (res : Resolution)
      → pos 33 ≤ℤ max
      → first_fitting (pos m) (pos n) max allowed_bucket_resolutions ≡ reply res
      → select_auto_bucket_resolution (pos m) (pos n) max ≡ reply res
  unfolding select_auto_bucket_resolution
  enter res k e =
      passes (leb_ℤ max (pos 0)) invalid_input _ (no_zero k)
        (passes (not (before (pos m) (pos n))) invalid_input _ in_order e)

  -- For times of the years 1 to 9999 that are whole microseconds, in order and at most 744 hours apart,
  -- and a limit of at least 33 points, SelectAutoBucketResolution finds a resolution.
  pub select_auto_fits :
      n ≤ m + max_span
      → pos 33 ≤ℤ max
      → (res : Resolution) × (select_auto_bucket_resolution (pos m) (pos n) max ≡ reply res)
  select_auto_fits h k = let (res, e) = some_fits h k in (res, enter res k e)
