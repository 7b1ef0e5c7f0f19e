-- ===== src/Json/Numbers.antt =====
-- The range of the integers that decodeInt64 and decodeInt32 return.
use project1_iot_server.Json.{parse_digits, in_bound, negate, parse_int, decode_int64, decode_int32}
use project1_iot_server.Prelude.{
  ℕ, zero, suc, ◌+◌, ◌≤◌, ◌≡◌, Bool, true, false, Option, none, some, [], ◌∷◌, arith, ℤ, pos_part,
  neg_part, max_int64, IsInt64, Bytes,
}

in_bound-range :
    (bound : ℕ) (minus : Bool) (o : Option ℕ) (z : ℤ)
    → in_bound bound minus o ≡ some z
    → (pos_part z ≤ bound) × (neg_part z ≤ bound + 1)
unfolding in_bound negate
in_bound-range bound minus none z h = cc
in_bound-range bound true (some zero) z h = ground arith
in_bound-range bound true (some (suc n)) z h = ground arith
in_bound-range bound false (some n) z h = ground arith

parse_int-range :
    (bound : ℕ) (raw : Bytes) (z : ℤ)
    → parse_int bound raw ≡ some z
    → (pos_part z ≤ bound) × (neg_part z ≤ bound + 1)
unfolding parse_int
parse_int-range bound [] z h = cc
parse_int-range bound (c ∷ s) z h = ground (
  arith,
  in_bound-range bound true (parse_digits s) z,
  in_bound-range bound false (parse_digits s) z,
  in_bound-range bound false (parse_digits (c ∷ s)) z,
)

pub decode_int64-IsInt64 : (raw : Bytes) (z : ℤ) → decode_int64 raw ≡ some z → IsInt64 z
unfolding decode_int64
decode_int64-IsInt64 raw z h = ground (arith, parse_int-range max_int64 raw z)

pub decode_int32-range :
    (raw : Bytes) (z : ℤ)
    → decode_int32 raw ≡ some z
    → (pos_part z ≤ 2147483647) × (neg_part z ≤ 2147483648)
unfolding decode_int32
decode_int32-range raw z h = ground (arith, parse_int-range 2147483647 raw z)
