-- ===== src/Scheduler/Delays.antt =====
-- The delays of retryDelay in src/internal/gatewaysim/scheduler.go.
use mathlib.Core.Path.{subst}
use project1_iot_server.Clock.{Duration}
use project1_iot_server.Scheduler.{doubled, clamp, retry_delay}
use project1_iot_server.Prelude.{
  ℕ, zero, suc, ◌*◌, ◌^◌, ◌≤◌, ◌<◌, ◌≡◌, sym, ap, ◌∙◌, inl, inr, true, arith, ltb, leb,
  if◌then◌else◌, Bool-cases, ℤ, pos, ◌≤ℤ◌, ltb_ℤ, leb_ℤ, mul64_pos, mul64,
}

-- The smaller of two numbers.
abbrev pub least : ℕ → ℕ → ℕ
least a b = if ltb b a then b else a

pow_suc : (n : ℕ) → 2 * 2 ^ n ≡ 2 ^ suc n
pow_suc n = omega arith

pow_pos : (n : ℕ) → 1 ≤ 2 ^ n
pow_pos zero = omega arith
pow_pos (suc n) = let i = pow_pos n in omega arith

times_le : (m k p : ℕ) → m ≤ k → 1 ≤ p → m ≤ k * p
times_le m k zero h q = omega arith
times_le m k (suc zero) h q = omega arith
times_le m k (suc (suc p)) h q = let i = times_le m k (suc p) h (omega arith) in grind arith

least_full : (m k p : ℕ) → m ≤ k → 1 ≤ p → least (k * p) m ≡ m
least_full m k p h q = let i = times_le m k p h q in ground arith

least_small : (k m : ℕ) → k ≤ m → least k m ≡ k
least_small k m h = ground arith

next_closed :
    (a m : ℕ)
    → a ≤ m
    → m < 4611686018427387904
    → (if ltb_ℤ (pos m) (mul64 (pos a) (pos 2)) then pos m else mul64 (pos a) (pos 2))
      ≡ pos (least (a * 2) m)
next_closed a m h k =
    ap (λ x. if ltb_ℤ (pos m) x then pos m else x) (mul64_pos a 2 (omega arith)) ∙ chosen (a * 2) m
  where
    chosen : (b m : ℕ) → (if ltb_ℤ (pos m) (pos b) then pos m else pos b) ≡ pos (least b m)
    chosen b m = ground arith

-- One doubling more, for p = 2 ^ n.
least_step : (a m p : ℕ) → a ≤ m → 1 ≤ p → least (least (a * 2) m * p) m ≡ least (a * (2 * p)) m
least_step a m p h q = elim (Bool-cases (ltb m (a * 2))) [
  | inl full ↦
      ap (λ x. least (x * p) m) (chosen m (a * 2) full)
      ∙ least_full m m p (omega arith) q
      ∙ sym (ap (λ x. least x m) (assoc a p) ∙ least_full m (a * 2) p (ground arith) q)
  | inr small ↦
      ap (λ x. least (x * p) m) (least_small (a * 2) m (ground arith))
      ∙ ap (λ x. least x m) (sym (assoc a p))
]
  where
    chosen : (b c : ℕ) → ltb b c ≡ true → least c b ≡ b
    chosen b c h = ground arith

    assoc : (a p : ℕ) → a * (2 * p) ≡ a * 2 * p
    assoc a p = grind arith

-- The test of the loop, before a doubling that ends at `rest`.
stopped :
    (a m p : ℕ)
    → a ≤ m
    → 1 ≤ p
    → (rest : ℤ) → rest ≡ pos (least (a * (2 * p)) m)
    → (if leb_ℤ (pos m) (pos a) then pos a else rest) ≡ pos (least (a * (2 * p)) m)
stopped a m p h q rest r =
    answered a m (least (a * (2 * p)) m) rest h (λ g. least_full m a (2 * p) g (omega arith)) r
  where
    answered :
        (a m k : ℕ) (rest : ℤ)
        → a ≤ m
        → (m ≤ a → k ≡ m)
        → rest ≡ pos k
        → (if leb_ℤ (pos m) (pos a) then pos a else rest) ≡ pos k
    answered a m k rest h f r = elim (Bool-cases (leb m a)) [
      | inl full ↦ let e = f (ground arith) in ground arith
      | inr more ↦ ground arith
    ]

doubled_closed :
    (a m n : ℕ)
    → a ≤ m
    → m < 4611686018427387904
    → doubled (pos a) (pos m) n ≡ pos (least (a * 2 ^ n) m)
unfolding doubled
doubled_closed a m zero h k = ap pos (sym (ap (λ x. least x m) (unit a) ∙ least_small a m h))
  where
    unit : (a : ℕ) → a * 2 ^ 0 ≡ a
    unit a = omega arith
doubled_closed a m (suc n) h k =
    stopped a m (2 ^ n) h (pow_pos n)
      (doubled (if ltb_ℤ (pos m) (mul64 (pos a) (pos 2)) then pos m else mul64 (pos a) (pos 2))
        (pos m) n)
      (ap (λ x. doubled x (pos m) n) (next_closed a m h k)
        ∙ doubled_closed (least (a * 2) m) m n (least_le (a * 2) m) k
        ∙ ap pos (least_step a m (2 ^ n) h (pow_pos n)))
    ∙ ap (λ e. pos (least (a * e) m)) (pow_suc n)
  where
    least_le : (b m : ℕ) → least b m ≤ m
    least_le b m = ground arith

clamp_range : (m : ℕ) (d : ℤ) → (pos 0 ≤ℤ clamp (pos m) d) × (clamp (pos m) d ≤ℤ pos m)
clamp_range m d = (ground arith, ground arith)

low_kept : (a : ℕ) → 1 ≤ a → (if leb_ℤ (pos a) (pos 0) then pos 1000000 else pos a) ≡ pos a
low_kept a h = ground arith

high_kept : (a m : ℕ) → a ≤ m → (if ltb_ℤ (pos m) (pos a) then pos a else pos m) ≡ pos m
high_kept a m h = ground arith

delay_closed :
    (jitter : Duration → Duration) (a m n : ℕ)
    → 1 ≤ a
    → a ≤ m
    → m < 4611686018427387904
    → retry_delay jitter (pos a) (pos m) n ≡ clamp (pos m) (jitter (pos (least (a * 2 ^ n) m)))
unfolding retry_delay
delay_closed jitter a m n h k l =
    ap
      (λ low.
        let high = if ltb_ℤ (pos m) low then low else pos m in
        clamp high (jitter (doubled low high n)))
      (low_kept a h)
    ∙ ap (λ high. clamp high (jitter (doubled (pos a) high n))) (high_kept a m k)
    ∙ ap (λ d. clamp (pos m) (jitter d)) (doubled_closed a m n k l)

-- For a least delay of at least one nanosecond and a greatest delay below 2 ^ 62 nanoseconds that is not smaller, the delay of retry n is the least delay times 2 ^ n, or the greatest delay where that is smaller, with the random factor applied and then held between 0 and the greatest delay.
pub retry_delay_closed :
    (jitter : Duration → Duration) (a m n : ℕ)
    → 1 ≤ a
    → a ≤ m
    → m < 4611686018427387904
    → (retry_delay jitter (pos a) (pos m) n ≡ clamp (pos m) (jitter (pos (least (a * 2 ^ n) m))))
      × (pos 0 ≤ℤ retry_delay jitter (pos a) (pos m) n)
      × (retry_delay jitter (pos a) (pos m) n ≤ℤ pos m)
retry_delay_closed jitter a m n h k l =
    let closed = delay_closed jitter a m n h k l in
    let (from_zero, to_greatest) = clamp_range m (jitter (pos (least (a * 2 ^ n) m))) in
    (
      closed,
      subst (λ x. pos 0 ≤ℤ x) (sym closed) from_zero,
      subst (λ x. x ≤ℤ pos m) (sym closed) to_greatest,
    )
