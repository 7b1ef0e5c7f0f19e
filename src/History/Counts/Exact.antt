-- ===== src/History/Counts/Exact.antt =====
-- IntersectingBucketCount of src/internal/telemetry/history_query.go in exact arithmetic.
use mathlib.Core.Path.{subst}
use native.Mathlib.Nat.{le-mul_of_pos_right, suc-mul}
use project1_iot_server.Clock.{year_10000, before}
use project1_iot_server.History.{reply, quot, floor_div, intersecting_bucket_count, count_micros}
use project1_iot_server.History.Floor.{FloorOf, floor_div-FloorOf}
use project1_iot_server.History.Micros.{exact_micros, to_micros_exact}
use project1_iot_server.History.Counts.{
  below, lt_after, Meets, floor_mono, Meets-between, between-Meets,
}
use project1_iot_server.Prelude.{
  ℕ, ◌+◌, ◌/◌, ◌%◌, ◌≤◌, ◌<◌, ◌≡◌, refl, sym, ◌↔◌, true, false, arith, ℤ, pos, negsuc, pos_part,
  neg_part, ◌≤ℤ◌, ◌<ℤ◌, leb_ℤ, IsInt64, ◌+ℤ◌, ◌-ℤ◌, ◌*ℤ◌, wrap64, add64, sub64,
}

floor_small :
    (a q : ℤ) (w : ℕ)
    → 0 < w
    → FloorOf a w q
    → (pos_part q ≤ pos_part a) × (neg_part q ≤ neg_part a)
unfolding ◌*ℤ◌ ◌+ℤ◌
floor_small a (pos q) w h f = let t = le-mul_of_pos_right q h in ground arith
floor_small a (negsuc q) w h f = let t = le-mul_of_pos_right q h in ground (arith, suc-mul q w)

-- The number of buckets from one to another.
abbrev pub between : ℤ → ℤ → ℕ
between f l = pos_part (l -ℤ f +ℤ pos 1)

between_exact :
    (f l : ℤ)
    → f ≤ℤ l
    → pos_part f + neg_part f ≤ 400000000000000000
    → pos_part l + neg_part l ≤ 400000000000000000
    → (add64 (sub64 l f) (pos 1) ≡ pos (between f l)) × (f +ℤ pos (between f l) ≡ l +ℤ pos 1)
unfolding add64 sub64 wrap64 ◌+ℤ◌ ◌-ℤ◌
between_exact f l h a b = (ground arith, ground arith)

abbrev pub last_micro : ℕ → ℤ
last_micro n = exact_micros n -ℤ pos 1

last_exact :
    (n : ℕ)
    → n < year_10000
    → (sub64 (exact_micros n) (pos 1) ≡ last_micro n) × (last_micro n +ℤ pos 1 ≡ exact_micros n)
unfolding sub64 wrap64 ◌+ℤ◌ ◌-ℤ◌
last_exact n h = (ground arith, ground arith)

micros_small :
    (n : ℕ)
    → n < year_10000
    → (pos_part (exact_micros n) + neg_part (exact_micros n) ≤ 300000000000000000)
      × (pos_part (last_micro n) + neg_part (last_micro n) ≤ 300000000000000001)
      × IsInt64 (exact_micros n)
      × IsInt64 (last_micro n)
unfolding ◌+ℤ◌ ◌-ℤ◌
micros_small n h =
    (ground arith, ground arith, (ground arith, ground arith), (ground arith, ground arith))

micros_order : (m n : ℕ) → m < n → m % 1000 ≡ 0 → n % 1000 ≡ 0 → exact_micros m ≤ℤ last_micro n
unfolding ◌-ℤ◌
micros_order m n h a b = ground arith

abbrev pub first_bucket : ℕ → ℕ → ℤ
first_bucket m w = floor_div (exact_micros m) (pos w)

abbrev pub last_bucket : ℕ → ℕ → ℤ
last_bucket n w = floor_div (last_micro n) (pos w)

-- The first and the last bucket, and the count between them.
pub ends :
    (m n w : ℕ)
    → m < n
    → n < year_10000
    → m % 1000 ≡ 0
    → n % 1000 ≡ 0
    → 0 < w
    → FloorOf (exact_micros m) w (first_bucket m w)
      × FloorOf (last_micro n) w (last_bucket n w)
      × (add64 (sub64 (last_bucket n w) (first_bucket m w)) (pos 1)
          ≡ pos (between (first_bucket m w) (last_bucket n w)))
      × (first_bucket m w +ℤ pos (between (first_bucket m w) (last_bucket n w))
          ≡ last_bucket n w +ℤ pos 1)
ends m n w h y a b k =
    let (small_m, small_m', int_m, int_m') = micros_small m (omega arith) in
    let (small_n, small_n', int_n, int_n') = micros_small n y in
    let f = floor_div-FloorOf (exact_micros m) w int_m k in
    let l = floor_div-FloorOf (last_micro n) w int_n' k in
    let (f1, f2) = floor_small (exact_micros m) (first_bucket m w) w k f in
    let (l1, l2) = floor_small (last_micro n) (last_bucket n w) w k l in
    let (count, sum) =
      between_exact (first_bucket m w) (last_bucket n w)
        (floor_mono (exact_micros m) (last_micro n) w (first_bucket m w) (last_bucket n w) f l
          (micros_order m n h a b))
        (omega arith) (omega arith) in
    (f, l, count, sum)

guards :
    (m n w : ℕ)
    → m < n
    → 1000 ≤ w
    → (leb_ℤ (pos w) (pos 0) ≡ false)
      × (before (pos m) (pos n) ≡ true)
      × (leb_ℤ (pos (w / 1000)) (pos 0) ≡ false)
guards m n w h k = (ground arith, ground arith, ground arith)

-- The count in exact arithmetic.
pub count_exact :
    (m n w : ℕ)
    → m < n
    → n < year_10000
    → m % 1000 ≡ 0
    → n % 1000 ≡ 0
    → 1000 ≤ w
    → intersecting_bucket_count (pos m) (pos n) (pos w)
      ≡ reply (pos (between (first_bucket m (w / 1000)) (last_bucket n (w / 1000))))
unfolding intersecting_bucket_count quot count_micros
count_exact m n w h y a b k =
    let (width, order, micros) = guards m n w h k in
    rw
      (
        width,
        order,
        micros,
        to_micros_exact m (omega arith),
        to_micros_exact n y,
        (last_exact n y).0,
        (ends m n (w / 1000) h y a b (omega arith)).2,
      )
      refl

end_of : (f l k : ℤ) (c : ℕ) → f +ℤ pos c ≡ l +ℤ pos 1 → (k <ℤ f +ℤ pos c) ↔ (k ≤ℤ l)
end_of f l k c e =
    (λ h. below l k (subst (λ z. k <ℤ z) e h), λ h. subst (λ z. k <ℤ z) (sym e) (lt_after k l h))

Meets-iff :
    (m n w : ℕ) (k : ℤ)
    → m < n
    → n < year_10000
    → m % 1000 ≡ 0
    → n % 1000 ≡ 0
    → 0 < w
    → Meets w (exact_micros m) (exact_micros n) k ↔ (
        (first_bucket m w ≤ℤ k)
        × (k <ℤ first_bucket m w +ℤ pos (between (first_bucket m w) (last_bucket n w))))
Meets-iff m n w k h y a b v =
    let (f, l, count, sum) = ends m n w h y a b v in
    let (before_end, up_to_end) = end_of (first_bucket m w) (last_bucket n w) k _ sum in
    subst
      (λ t. Meets w (exact_micros m) t k ↔ (
        (first_bucket m w ≤ℤ k)
        × (k <ℤ first_bucket m w +ℤ pos (between (first_bucket m w) (last_bucket n w)))))
      (last_exact n y).1
      (
        λ meets.
            (let (p, q) =
                Meets-between w (exact_micros m) (last_micro n) (first_bucket m w) (last_bucket n w)
                  k f l meets in
              (p, up_to_end q)),
        λ (p, q).
            between-Meets w (exact_micros m) (last_micro n) (first_bucket m w) (last_bucket n w) k v
              (micros_order m n h a b) f l p (before_end q),
      )

-- For times of the years 1 to 9999 that are whole microseconds, in order, and a width of at least one
-- microsecond, IntersectingBucketCount returns a count, and the buckets that hold a microsecond of the
-- range are exactly that many integers from the floor of its start on. No operation wraps.
pub bucket_count :
    (m n w : ℕ) (k : ℤ)
    → m < n
    → n < year_10000
    → m % 1000 ≡ 0
    → n % 1000 ≡ 0
    → 1000 ≤ w
    → (count : ℕ) × (intersecting_bucket_count (pos m) (pos n) (pos w) ≡ reply (pos count))
      × (Meets (w / 1000) (exact_micros m) (exact_micros n) k
          ↔ ((first_bucket m (w / 1000) ≤ℤ k) × (k <ℤ first_bucket m (w / 1000) +ℤ pos count)))
bucket_count m n w k h y a b v = (
  between (first_bucket m (w / 1000)) (last_bucket n (w / 1000)),
  count_exact m n w h y a b v,
  Meets-iff m n (w / 1000) k h y a b (omega arith),
)
