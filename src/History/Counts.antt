-- ===== src/History/Counts.antt =====
-- The buckets that meet a range of microseconds, for src/internal/telemetry/history_query.go.
pub mod Exact
use mathlib.Core.Path.{subst}
use native.Mathlib.Nat.{mul-le-mul_right, suc-mul}
use project1_iot_server.History.Floor.{FloorOf}
use project1_iot_server.Prelude.{
  ℕ, zero, suc, ◌+◌, ◌≤◌, ◌<◌, ◌≡◌, inl, inr, true, false, arith, Bool-cases, ℤ, pos, negsuc, ◌≤ℤ◌,
  ◌<ℤ◌, leb_ℤ, ◌+ℤ◌, ◌*ℤ◌,
}

times_mono : (a b : ℤ) (w : ℕ) → a ≤ℤ b → a *ℤ pos w ≤ℤ b *ℤ pos w
unfolding ◌*ℤ◌
times_mono (pos a) (pos b) w h = ground (arith, mul-le-mul_right {m = a} {n = b} w (omega arith))
times_mono (negsuc a) (pos b) w h = ground arith
times_mono (negsuc a) (negsuc b) w h =
    ground (arith, mul-le-mul_right {m = suc b} {n = suc a} w (omega arith))
times_mono (pos a) (negsuc b) w h = ground arith

times_suc : (a : ℤ) (w : ℕ) → (a +ℤ pos 1) *ℤ pos w ≡ a *ℤ pos w +ℤ pos w
unfolding ◌*ℤ◌ ◌+ℤ◌
times_suc (pos a) w = ground (arith, suc-mul a w)
times_suc (negsuc zero) w = ground arith
times_suc (negsuc (suc a)) w = ground (arith, suc-mul (suc a) w, suc-mul a w)

above : (k l : ℤ) → l <ℤ k → l +ℤ pos 1 ≤ℤ k
unfolding ◌+ℤ◌
above k l h = ground arith

pub below : (last x : ℤ) → x <ℤ last +ℤ pos 1 → x ≤ℤ last
unfolding ◌+ℤ◌
below last x h = ground arith

le_refl : (a : ℤ) → a ≤ℤ a
le_refl a = omega arith

pub lt_after : (a b : ℤ) → a ≤ℤ b → a <ℤ b +ℤ pos 1
unfolding ◌+ℤ◌
lt_after a b h = ground arith

le_of : (from k : ℤ) (w : ℕ) → leb_ℤ (k *ℤ pos w) from ≡ true → k *ℤ pos w ≤ℤ from
le_of from k w h = ground arith

later : (a b : ℤ) → leb_ℤ b a ≡ false → a ≤ℤ b
later a b h = ground arith

le_le : (a b c : ℤ) → a ≤ℤ b → b ≤ℤ c → a ≤ℤ c
le_le a b c h k = omega arith

past : (x p q : ℤ) (w : ℕ) → x <ℤ p +ℤ pos w → p ≤ℤ q → x <ℤ q +ℤ pos w
unfolding ◌+ℤ◌
past x p q w h k = ground arith

lt_plus : (a : ℤ) (w : ℕ) → 0 < w → a <ℤ a +ℤ pos w
unfolding ◌+ℤ◌
lt_plus a w h = ground arith

crossed : (x y p q k l : ℤ) → p ≤ℤ x → y <ℤ q → q ≤ℤ p → x ≤ℤ y → k ≤ℤ l
crossed x y p q k l a b c d = omega arith

-- Floors keep the order.
pub floor_mono : (x y : ℤ) (w : ℕ) (k l : ℤ) → FloorOf x w k → FloorOf y w l → x ≤ℤ y → k ≤ℤ l
floor_mono x y w k l f g h = elim (Bool-cases (leb_ℤ k l)) [
  | inl e ↦ ground arith
  | inr e ↦
      let m = times_mono (l +ℤ pos 1) k w (above k l (ground arith)) in
      crossed x y _ _ k l f.0 g.1 (subst (λ q. q ≤ℤ k *ℤ pos w) (times_suc l w) m) h
]

-- The microseconds of [from, to) that bucket k of width w holds.
abbrev pub Meets : ℕ → ℤ → ℤ → ℤ → Type 0
Meets w from to k = (x : ℤ) × (from ≤ℤ x) × (x <ℤ to) × FloorOf x w k

-- The buckets that meet a range are those from the floor of its first to the floor of its last
-- microsecond.
pub Meets-between :
    (w : ℕ) (from last first_bucket last_bucket k : ℤ)
    → FloorOf from w first_bucket
    → FloorOf last w last_bucket
    → Meets w from (last +ℤ pos 1) k
    → (first_bucket ≤ℤ k) × (k ≤ℤ last_bucket)
Meets-between w from last first_bucket last_bucket k f l (x, a, b, g) = (
  floor_mono from x w first_bucket k f g a,
  floor_mono x last w k last_bucket g l (below last x b),
)

pub between-Meets :
    (w : ℕ) (from last first_bucket last_bucket k : ℤ)
    → 0 < w
    → from ≤ℤ last
    → FloorOf from w first_bucket
    → FloorOf last w last_bucket
    → first_bucket ≤ℤ k
    → k ≤ℤ last_bucket
    → Meets w from (last +ℤ pos 1) k
between-Meets w from last first_bucket last_bucket k p o f l a b =
    elim (Bool-cases (leb_ℤ (k *ℤ pos w) from)) [
      | inl e ↦ (
        from,
        le_refl from,
        lt_after from last o,
        (
          le_of from k w e,
          past from (first_bucket *ℤ pos w) (k *ℤ pos w) w f.1 (times_mono first_bucket k w a),
        ),
      )
      | inr e ↦ (
        k *ℤ pos w,
        later from (k *ℤ pos w) e,
        lt_after (k *ℤ pos w) last
            (le_le (k *ℤ pos w) (last_bucket *ℤ pos w) last (times_mono k last_bucket w b) l.0),
        (le_refl (k *ℤ pos w), lt_plus (k *ℤ pos w) w p),
      )
    ]
