-- ===== src/Telemetry/Range/Bounds.antt =====
-- What the checks of validateRange establish of the numbers that it returns.
use project1_iot_server.Telemetry.Errors.{ok}
use project1_iot_server.Telemetry.Range.{check_sequence}
use project1_iot_server.Prelude.{
  ℕ, zero, suc, ◌+◌, ◌*◌, ◌/◌, ◌≤◌, ◌<◌, ◌≡◌, refl, ap, ◌∙◌, false, ◌&&◌, arith, ℤ, pos, negsuc,
  ◌≤ℤ◌, ltb_ℤ, max_int64, IsInt64, add64_pos, sub64_pos, mul64_pos, add64, sub64, mul64,
}

-- The quantities of an accepted batch, as natural numbers without any wrap-around.
pub record Exact (count first micros max_duration last interval span : ℤ) : Type 0 where
  pub steps : ℕ
  pub start : ℕ
  pub gap : ℕ
  pub count_eq : count ≡ pos (suc steps)
  pub first_eq : first ≡ pos start
  pub micros_eq : micros ≡ pos gap
  pub gap_pos : 0 < gap
  pub gap_le : gap ≤ 9007199254740992
  pub last_eq : last ≡ pos (start + steps)
  pub last_le : start + steps ≤ max_int64
  pub interval_eq : interval ≡ pos (gap * 1000)
  pub span_eq : span ≡ pos (steps * (gap * 1000))
  pub span_fits : steps * (gap * 1000) ≤ max_int64
  pub span_le : span ≤ℤ max_duration

le_of_div : (m a b : ℕ) → 0 < b → a ≤ m / b → b * a ≤ m
le_of_div m a b h k = grind arith

-- The guard on the span, with no span at all where there is one sample.
span_room :
    (n i : ℕ)
    → (ltb_ℤ (pos 0) (pos n) && ltb_ℤ (pos (max_int64 / n)) (pos i)) ≡ false
    → i ≤ max_int64
    → n * i ≤ max_int64
span_room zero i h k = omega arith
span_room (suc n) i h k = le_of_div max_int64 i (suc n) (omega arith) (ground arith)

module _ (n f m : ℕ) (d last interval span : ℤ) (hn : n < max_int64) (hf : f ≤ max_int64) where
  steps_eq : sub64 (pos (suc n)) (pos 1) ≡ pos n
  steps_eq = sub64_pos (suc n) 1 (omega arith) (omega arith) ∙ ap pos (omega arith)

  check_sequence_cases :
      check_sequence (pos (suc n)) (pos f) (pos m) d ≡ ok (last, interval, span)
      → (f + n ≤ max_int64)
        × (0 < m)
        × (m ≤ 9007199254740992)
        × (last ≡ add64 (pos f) (pos n))
        × (interval ≡ mul64 (pos m) (pos 1000))
        × (span ≡ mul64 (pos n) interval)
        × (ltb_ℤ (pos 0) (pos n) && ltb_ℤ (pos (max_int64 / n)) interval ≡ false)
        × (span ≤ℤ d)
  unfolding check_sequence
  check_sequence_cases h = ground (arith, steps_eq, sub64_pos max_int64 f hf (omega arith))

pub check_sequence-Exact :
    (count first micros max_duration last interval span : ℤ)
    → IsInt64 count
    → IsInt64 first
    → check_sequence count first micros max_duration ≡ ok (last, interval, span)
    → Exact count first micros max_duration last interval span
unfolding check_sequence
check_sequence-Exact (pos (suc n)) (pos f) (pos m) d last interval span hc hf h =
    let (fits, gap_pos, gap_le, e_last, e_interval, e_span, bounded, within) =
      check_sequence_cases n f m d last interval span (omega arith) (omega arith) h in
    let e : interval ≡ pos (m * 1000) = e_interval ∙ mul64_pos m 1000 (omega arith) in
    let room : n * (m * 1000) ≤ max_int64 =
      span_room n (m * 1000) (rw e at bounded) (omega arith) in
    record {
      steps = n;
      start = f;
      gap = m;
      count_eq = refl;
      first_eq = refl;
      micros_eq = refl;
      gap_pos = gap_pos;
      gap_le = gap_le;
      last_eq = e_last ∙ add64_pos f n fits;
      last_le = fits;
      interval_eq = e;
      span_eq = e_span ∙ ap (mul64 (pos n)) e ∙ mul64_pos n (m * 1000) room;
      span_fits = room;
      span_le = within;
    }
check_sequence-Exact (pos (suc n)) (pos f) (negsuc m) d last interval span hc hf h = ground arith
check_sequence-Exact (pos (suc n)) (negsuc f) m d last interval span hc hf h = ground arith
check_sequence-Exact (pos zero) f m d last interval span hc hf h = cc
check_sequence-Exact (negsuc c) f m d last interval span hc hf h = ground arith
