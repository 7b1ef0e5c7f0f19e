-- ===== src/Outbox/Allocated/Kept.antt =====
-- The sequence numbers over the operations of the outbox.
use mathlib.Core.Path.{subst}
use project1_iot_server.Uuid.{Uuid}
use project1_iot_server.Telemetry.Errors.{ok, reject_if-eq-ok, ok_inj}
use project1_iot_server.Outbox.{outbox_corrupt, Row, Outbox, next_of}
use project1_iot_server.Outbox.Build.{with_row}
use project1_iot_server.Outbox.Allocated.{holds_sequence, times_used, is_past, Word, Allocated}
use project1_iot_server.Prelude.{
  ◌≤◌, ◌<◌, ◌≡◌, refl, sym, inl, inr, true, false, Option, none, some, ◌∷◌, arith, Bool-cases, ℤ,
  pos, negsuc, ltb_ℤ, leb_ℤ, IsInt64, wrap64-IsInt64, ◌+ℤ◌, wrap64, add64, bytes_eq_refl,
  bytes_eq→eq, bytes_eq,
}

-- The new counter is past every number of the row, also where it wraps.
counter_past :
    (first count n : ℤ)
    → IsInt64 first
    → ltb_ℤ first (pos 0) ≡ false
    → leb_ℤ count (pos 0) ≡ false
    → leb_ℤ count (pos 2147483647) ≡ true
    → ltb_ℤ n (first +ℤ count) ≡ true
    → is_past (some (add64 first count)) n ≡ true
unfolding add64 wrap64 ◌+ℤ◌
counter_past (pos a) (pos c) n w h k l m = ground arith
counter_past (pos a) (negsuc c) n w h k l m = absurd (ground arith)
counter_past (negsuc a) count n w h k l m = absurd (ground arith)

before_past :
    (first count n : ℤ)
    → IsInt64 first
    → ltb_ℤ first (pos 0) ≡ false
    → leb_ℤ count (pos 0) ≡ false
    → leb_ℤ count (pos 2147483647) ≡ true
    → ltb_ℤ n first ≡ true
    → is_past (some (add64 first count)) n ≡ true
unfolding add64 wrap64 ◌+ℤ◌
before_past (pos a) (pos c) n w h k l m = ground arith
before_past (pos a) (negsuc c) n w h k l m = absurd (ground arith)
before_past (negsuc a) count n w h k l m = absurd (ground arith)

add64-IsInt64 : (a b : ℤ) → IsInt64 (add64 a b)
unfolding add64 wrap64
add64-IsInt64 a b = wrap64-IsInt64 (a +ℤ b)

-- The counter that nextSequence reads.
pub record Counter (s : Option ℤ) (first : ℤ) : Type 0 where
  pub word : IsInt64 first
  pub nonneg : ltb_ℤ first (pos 0) ≡ false
  pub was : (n : ℤ) → is_past s n ≡ true → ltb_ℤ n first ≡ true

pub next_of-Counter : (s : Option ℤ) (first : ℤ) → Word s → next_of s ≡ ok first → Counter s first
unfolding next_of
next_of-Counter none first w h =
    subst (Counter none) (ok_inj h)
      (record { word = ground arith; nonneg = refl; was = λ n k. ground arith })
next_of-Counter (some z) first w h =
    let (nonneg, k) = reject_if-eq-ok (ltb_ℤ z (pos 0)) outbox_corrupt (ok z) h in
    subst (Counter (some z)) (ok_inj k)
      (record { word = w; nonneg = nonneg; was = λ n p. ground arith })

module _ (o : Outbox) (row : Row) (first : ℤ) (a : Allocated o)
    (c : Counter (o.streams row.boot_id) first) (e : row.first_sequence ≡ first)
    (count_pos : leb_ℤ row.sample_count (pos 0) ≡ false)
    (count_le : leb_ℤ row.sample_count (pos 2147483647) ≡ true) where
  -- A number of the new row was free.
  was_free : (n : ℤ) → leb_ℤ first n ≡ true → times_used row.boot_id n o.rows ≡ 0
  was_free n h = ground (arith, a.past row.boot_id n, c.was n)

  row_once : (boot : Uuid) (n : ℤ) → times_used boot n (row ∷ o.rows) ≤ 1
  unfolding times_used holds_sequence
  row_once boot n = elim (Bool-cases (holds_sequence boot n row)) [
    | inl h ↦
        let same : row.boot_id ≡ boot = bytes_eq→eq row.boot_id boot (ground (arith, h)) in
        let free : times_used boot n o.rows ≡ 0 =
          subst (λ b. times_used b n o.rows ≡ 0) same (was_free n (ground (arith, h, e))) in
        ground (arith, h, free)
    | inr h ↦ ground (arith, h, a.once boot n)
  ]

  next_past :
      (n : ℤ)
      → ltb_ℤ n (first +ℤ row.sample_count) ≡ true
      → is_past (some (add64 row.first_sequence row.sample_count)) n ≡ true
  next_past n h =
      subst (λ z. is_past (some (add64 z row.sample_count)) n ≡ true) (sym e)
        (counter_past first row.sample_count n c.word c.nonneg count_pos count_le h)

  still_past :
      (n : ℤ)
      → ltb_ℤ n first ≡ true
      → is_past (some (add64 row.first_sequence row.sample_count)) n ≡ true
  still_past n h =
      subst (λ z. is_past (some (add64 z row.sample_count)) n ≡ true) (sym e)
        (before_past first row.sample_count n c.word c.nonneg count_pos count_le h)

  own_past :
      (boot : Uuid) (n : ℤ)
      → boot ≡ row.boot_id
      → 0 < times_used boot n (row ∷ o.rows)
      → is_past (some (add64 row.first_sequence row.sample_count)) n ≡ true
  unfolding times_used holds_sequence
  own_past boot n same h = elim (Bool-cases (holds_sequence boot n row)) [
    | inl k ↦
        next_past n (subst (λ z. ltb_ℤ n (z +ℤ row.sample_count) ≡ true) e (ground (arith, k)))
    | inr k ↦
        let old : 0 < times_used row.boot_id n o.rows =
          subst (λ b. 0 < times_used b n o.rows) same (ground (arith, h, k)) in
        still_past n (c.was n (a.past row.boot_id n old))
  ]

  other_past :
      (boot : Uuid) (n : ℤ)
      → bytes_eq boot row.boot_id ≡ false
      → 0 < times_used boot n (row ∷ o.rows)
      → is_past (o.streams boot) n ≡ true
  unfolding times_used holds_sequence
  other_past boot n other h =
      ground (arith, a.past boot n, bytes_eq→eq row.boot_id boot, bytes_eq_refl boot)

  pub with_row-Allocated : Allocated (with_row o row)
  with_row-Allocated = record {
    once = row_once;
    past = λ boot n h. elim (Bool-cases (bytes_eq boot row.boot_id)) [
      | inl same ↦ rw same (own_past boot n (bytes_eq→eq boot row.boot_id same) h)
      | inr other ↦ rw other (other_past boot n other h)
    ];
    word = λ boot. elim (Bool-cases (bytes_eq boot row.boot_id)) [
      | inl same ↦ rw same (add64-IsInt64 row.first_sequence row.sample_count)
      | inr other ↦ rw other (a.word boot)
    ];
  }
