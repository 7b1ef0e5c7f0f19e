-- ===== src/History/Floor.antt =====
-- The floor division of src/internal/telemetry/history_query.go.
use native.Mathlib.Nat.{le-mul_of_pos_right, suc-mul}
use project1_iot_server.History.{neg_of, quot, rem, floor_div}
use project1_iot_server.Prelude.{
  ℕ, zero, suc, ◌+◌, ◌*◌, ◌/◌, ◌%◌, ◌≤◌, ◌<◌, ◌≡◌, arith, ◌==◌, if◌then◌else◌, ℤ, pos, negsuc, ◌≤ℤ◌,
  ◌<ℤ◌, max_int64, IsInt64, ◌+ℤ◌, ◌-ℤ◌, ◌*ℤ◌, wrap64, sub64,
}

-- `q` is the greatest integer with q * b ≤ a.
abbrev pub FloorOf : ℤ → ℕ → ℤ → Type 0
FloorOf a b q = (q *ℤ pos b ≤ℤ a) × (a <ℤ q *ℤ pos b +ℤ pos b)

-- The quotient that floorDiv returns, by the quotient and the rest of the magnitude.
below_zero : ℕ → ℕ → ℤ
below_zero d r = if r == 0 then neg_of d else negsuc d

floor_div_pos : (a b : ℕ) → floor_div (pos a) (pos b) ≡ pos (a / b)
unfolding floor_div quot rem
floor_div_pos a b = ground arith

neg_of_lem :
    (d b r a : ℕ) → d * b + r ≡ suc a → r < b → d ≤ d * b → FloorOf (negsuc a) b (below_zero d r)
unfolding below_zero ◌*ℤ◌ ◌+ℤ◌
neg_of_lem zero b zero a e h k = ground arith
neg_of_lem zero b (suc r) a e h k = ground arith
neg_of_lem (suc d) b zero a e h k = ground arith
neg_of_lem (suc d) b (suc r) a e h k = ground (arith, suc-mul d b, suc-mul (suc d) b)

floor_div_neg :
    (a b : ℕ)
    → 0 < b
    → a ≤ max_int64
    → floor_div (negsuc a) (pos b) ≡ below_zero (suc a / b) (suc a % b)
unfolding floor_div quot rem below_zero sub64 wrap64 ◌-ℤ◌
floor_div_neg a b h k =
    let e : suc a / b * b + suc a % b ≡ suc a = ground arith in
    let t = le-mul_of_pos_right (suc a / b) h in ground arith

floor_pos : (a b : ℕ) → 0 < b → FloorOf (pos a) b (pos (a / b))
unfolding ◌*ℤ◌ ◌+ℤ◌
floor_pos a b k = ground arith

-- For an int64 a and a width b > 0, floorDiv returns the floor of a / b: the integer q with
-- q * b ≤ a < q * b + b. No operation wraps.
pub floor_div-FloorOf : (a : ℤ) (b : ℕ) → IsInt64 a → 0 < b → FloorOf a b (floor_div a (pos b))
floor_div-FloorOf (pos a) b h k = rw (floor_div_pos a b) (floor_pos a b k)
floor_div-FloorOf (negsuc a) b h k = rw (floor_div_neg a b k (omega arith)) (
    neg_of_lem (suc a / b) b (suc a % b) a (ground arith) (ground arith)
      (le-mul_of_pos_right (suc a / b) k))
