-- ===== src/History/Select/Smallest.antt =====
-- The result of SelectAutoBucketResolution, for src/internal/telemetry/history_service.go.
use mathlib.Core.Path.{subst}
use project1_iot_server.Clock.{Time, before}
use project1_iot_server.History.{
  auto, raw, ms_100, s_1, s_10, m_1, m_5, m_15, h_1, h_6, d_1, other_resolution, invalid_input,
  reply_inj, fail_if-eq-reply, Reply, failure, reply, Resolution, resolution_duration,
  intersecting_bucket_count,
}
use project1_iot_server.History.Select.{
  pick_count, allowed_bucket_resolutions, Pick, go_on, take_it, give_up, picked, pick_width, pick,
  first_fitting, select_auto_bucket_resolution,
}
use project1_iot_server.Prelude.{
  some_inj, inl, inr, ◌⊎◌, ◌≡◌, refl, sym, ap, ◌∙◌, not, some, List, [], ◌∷◌, arith, All, ℤ, pos,
  ◌≤ℤ◌, ◌<ℤ◌, leb_ℤ,
}

-- A resolution with a width, at which the range has at most, or more than, `max` buckets.
abbrev pub CountOf : Time → Time → Resolution → ℤ → Type 0
CountOf from to res count =
    (w : ℤ) × (resolution_duration res ≡ some w)
    × (intersecting_bucket_count from to w ≡ reply count)

abbrev pub FitsIn : Time → Time → ℤ → Resolution → Type 0
FitsIn from to max res = (count : ℤ) × CountOf from to res count × (count ≤ℤ max)

abbrev pub TooFine : Time → Time → ℤ → Resolution → Type 0
TooFine from to max res = (count : ℤ) × CountOf from to res count × (max <ℤ count)

-- The resolution of the list that is the first to fit.
pub data FirstOf (from to : Time) (max : ℤ) (res : Resolution) : List Resolution → Type 0 where
  found : {rest : List Resolution} → FitsIn from to max res → FirstOf from to max res (res ∷ rest)
  passed :
      {other : Resolution} {rest : List Resolution}
      → TooFine from to max other
      → FirstOf from to max res rest
      → FirstOf from to max res (other ∷ rest)

pub FirstOf-FitsIn :
    (from to : Time) (max : ℤ) (res : Resolution) (l : List Resolution)
    → FirstOf from to max res l
    → FitsIn from to max res
FirstOf-FitsIn from to max res _ (found f) = f
FirstOf-FitsIn from to max res _ (passed t f) = FirstOf-FitsIn from to max res _ f

pub pick_at :
    (from to : Time) (max : ℤ) (res : Resolution) (w : ℤ)
    → resolution_duration res ≡ some w
    → pick from to max res ≡ pick_count (intersecting_bucket_count from to w) max
unfolding pick
pick_at from to max res w e = ap (pick_width from to max) e

fits_in :
    (from to : Time) (max : ℤ) (res : Resolution) (w : ℤ) (r : Reply ℤ)
    → resolution_duration res ≡ some w
    → intersecting_bucket_count from to w ≡ r
    → pick_count r max ≡ take_it
    → FitsIn from to max res
fits_in from to max res w (failure e) d c h = cc
fits_in from to max res w (reply count) d c h = (count, (w, d, c), ground arith)

too_fine :
    (from to : Time) (max : ℤ) (res : Resolution) (w : ℤ) (r : Reply ℤ)
    → resolution_duration res ≡ some w
    → intersecting_bucket_count from to w ≡ r
    → pick_count r max ≡ go_on
    → TooFine from to max res
too_fine from to max res w (failure e) d c h = cc
too_fine from to max res w (reply count) d c h = (count, (w, d, c), ground arith)

abbrev pub HasWidth : Resolution → Type 0
HasWidth res = (w : ℤ) × (resolution_duration res ≡ some w)

widths : All HasWidth allowed_bucket_resolutions
unfolding resolution_duration
widths = (
  (_, refl),
  (
    (_, refl),
    ((_, refl), ((_, refl), ((_, refl), ((_, refl), ((_, refl), ((_, refl), ((_, refl), tt))))))),
  ),
)

-- The first resolution of a list, and those after it.
picked-FirstOf :
    (from to : Time) (max : ℤ) (r : Resolution) (l : List Resolution) (p : Pick)
    (rest : Reply Resolution) {res : Resolution}
    → HasWidth r
    → pick from to max r ≡ p
    → (rest ≡ reply res → FirstOf from to max res l)
    → picked p r rest ≡ reply res
    → FirstOf from to max res (r ∷ l)
picked-FirstOf from to max r l go_on rest (w, d) e k h =
    passed (too_fine from to max r w _ d refl (sym (pick_at from to max r w d) ∙ e)) (k h)
picked-FirstOf from to max r l take_it rest (w, d) e k h =
    subst (λ s. FirstOf from to max s (r ∷ l)) (reply_inj h)
      (found (fits_in from to max r w _ d refl (sym (pick_at from to max r w d) ∙ e)))
picked-FirstOf from to max r l give_up rest w e k h = cc

first_fitting-FirstOf :
    (from to : Time) (max : ℤ) (l : List Resolution) {res : Resolution}
    → All HasWidth l
    → first_fitting from to max l ≡ reply res
    → FirstOf from to max res l
unfolding first_fitting
first_fitting-FirstOf from to max [] w h = cc
first_fitting-FirstOf from to max (r ∷ l) (w, ws) h =
    picked-FirstOf from to max r l _ _ w refl (first_fitting-FirstOf from to max l ws) h

pub select_auto-FirstOf :
    (from to : Time) (max : ℤ) (res : Resolution)
    → select_auto_bucket_resolution from to max ≡ reply res
    → FirstOf from to max res allowed_bucket_resolutions
unfolding select_auto_bucket_resolution
select_auto-FirstOf from to max res h =
    let (positive, h1) = fail_if-eq-reply (leb_ℤ max (pos 0)) invalid_input _ h in
    let (order, h2) = fail_if-eq-reply (not (before from to)) invalid_input _ h1 in
    first_fitting-FirstOf from to max allowed_bucket_resolutions widths h2

-- The widths of a list, which ascend from `low`.
abbrev Rising : ℤ → List Resolution → Type 0
Rising low [] = Unit {0}
Rising low (r ∷ l) = (w : ℤ) × (resolution_duration r ≡ some w) × (low <ℤ w) × Rising w l

allowed-Rising : Rising (pos 0) allowed_bucket_resolutions
unfolding resolution_duration
allowed-Rising = (
  _,
  refl,
  omega arith,
  (
    _,
    refl,
    omega arith,
    (
      _,
      refl,
      omega arith,
      (
        _,
        refl,
        omega arith,
        (
          _,
          refl,
          omega arith,
          (
            _,
            refl,
            omega arith,
            (_, refl, omega arith, (_, refl, omega arith, (_, refl, omega arith, tt))),
          ),
        ),
      ),
    ),
  ),
)

abbrev In : Resolution → List Resolution → Type 0
In r [] = ⊥
In r (x ∷ l) = (r ≡ x) ⊎ In r l

width-In :
    (r : Resolution) {w : ℤ} → resolution_duration r ≡ some w → In r allowed_bucket_resolutions
unfolding resolution_duration
width-In auto h = cc
width-In raw h = cc
width-In (other_resolution s) h = cc
width-In ms_100 h = inl refl
width-In s_1 h = inr (inl refl)
width-In s_10 h = inr (inr (inl refl))
width-In m_1 h = inr (inr (inr (inl refl)))
width-In m_5 h = inr (inr (inr (inr (inl refl))))
width-In m_15 h = inr (inr (inr (inr (inr (inl refl)))))
width-In h_1 h = inr (inr (inr (inr (inr (inr (inl refl))))))
width-In h_6 h = inr (inr (inr (inr (inr (inr (inr (inl refl)))))))
width-In d_1 h = inr (inr (inr (inr (inr (inr (inr (inr (inl refl))))))))

same_width :
    (r s : Resolution) {v w : ℤ}
    → r ≡ s
    → resolution_duration r ≡ some v
    → resolution_duration s ≡ some w
    → v ≡ w
same_width r s e h k = some_inj (sym h ∙ ap resolution_duration e ∙ k)

Rising-above :
    (low : ℤ) (l : List Resolution) (r : Resolution) {v : ℤ}
    → Rising low l
    → In r l
    → resolution_duration r ≡ some v
    → low <ℤ v
Rising-above low [] r h i d = elim i [ ]
Rising-above low (x ∷ l) r (w, d, less, rest) (inl e) h =
    subst (λ v. low <ℤ v) (sym (same_width r x e h d)) less
Rising-above low (x ∷ l) r {v} (w, d, less, rest) (inr i) h =
    let above : w <ℤ v = Rising-above w l r rest i h in ground arith

-- Of a rising list, what is finer than the first that fits has been passed.
FirstOf-finer :
    (from to : Time) (max : ℤ) (res other : Resolution) (low v w : ℤ) (l : List Resolution)
    → FirstOf from to max res l
    → Rising low l
    → In other l
    → resolution_duration other ≡ some v
    → resolution_duration res ≡ some w
    → v <ℤ w
    → TooFine from to max other
FirstOf-finer from to max res other low v w _ (found f) (u, d, less, rest) (inl e) ho hr h =
    let same : v ≡ w = same_width other res e ho hr in absurd (ground arith)
FirstOf-finer from to max res other low v w _ (found {rest = l} f) (u, d, less, rest) (inr i) ho hr
      h =
    let same : u ≡ w = some_inj (sym d ∙ hr) in
    let above : u <ℤ v = Rising-above u l other rest i ho in absurd (ground arith)
FirstOf-finer from to max res other low v w _ (passed t f) (u, d, less, rest) (inl e) ho hr h =
    subst (TooFine from to max) (sym e) t
FirstOf-finer from to max res other low v w _ (passed {other = first} {rest = l} t f)
      (u, d, less, rest) (inr i) ho hr h =
    FirstOf-finer from to max res other u v w l f rest i ho hr h

-- A resolution that SelectAutoBucketResolution returns has at most `max` buckets over the range, and at
-- every resolution of a smaller width the range has more than `max`.
pub select_auto-finest :
    (from to : Time) (max : ℤ) (res : Resolution)
    → select_auto_bucket_resolution from to max ≡ reply res
    → FitsIn from to max res
      × ((other : Resolution) (v w : ℤ)
          → resolution_duration other ≡ some v
          → resolution_duration res ≡ some w
          → v <ℤ w
          → TooFine from to max other)
select_auto-finest from to max res h =
    let first = select_auto-FirstOf from to max res h in
    (
      FirstOf-FitsIn from to max res _ first,
      λ other v w ho hr less.
          FirstOf-finer from to max res other (pos 0) v w allowed_bucket_resolutions first
            allowed-Rising (width-In other ho) ho hr less,
    )
