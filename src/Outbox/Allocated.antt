-- ===== src/Outbox/Allocated.antt =====
-- The sequence numbers and the quota of the outbox.
pub mod Kept
use mathlib.Core.Path.{subst}
use project1_iot_server.Clock.{Time}
use project1_iot_server.Uuid.{Uuid}
use project1_iot_server.Telemetry.Errors.{
  Result, ok, opaque, ◌>>=◌, ◌>>◌, reject_if, >>=-eq-ok, reject_if-eq-ok, ok_inj,
}
use project1_iot_server.Outbox.{
  Op, begin_tx, read_stream, read_usage, insert_row, write_stream, outbox_full, Row, Outbox, Faults,
  statement, next_of, total_bytes,
}
use project1_iot_server.Outbox.Build.{
  Builder, EnqueueRequest, build_batch, with_row, row_for, enqueue_at,
}
use project1_iot_server.Prelude.{
  ℕ, suc, ◌+◌, ◌≤◌, ◌<◌, ◌≡◌, refl, inl, inr, Bool, true, false, ◌&&◌, ◌||◌, Option, none, some,
  List, [], ◌∷◌, arith, if◌then◌else◌, Option-cases, length, any, ℤ, pos, ◌≤ℤ◌, ltb_ℤ, leb_ℤ,
  IsInt64, ◌+ℤ◌, Bytes, bytes_eq,
}

-- Whether a row has a sequence number of a boot.
unfoldable pub holds_sequence : Uuid → ℤ → Row → Bool
holds_sequence boot n r =
    bytes_eq r.boot_id boot
    && leb_ℤ r.first_sequence n
    && ltb_ℤ n (r.first_sequence +ℤ r.sample_count)

unfoldable pub times_used : Uuid → ℤ → List Row → ℕ
times_used boot n [] = 0
times_used boot n (r ∷ rs) =
    let rest = times_used boot n rs in if holds_sequence boot n r then suc rest else rest

-- The counter of a stream is past a sequence number, or has left the range of an int64.
abbrev pub is_past : Option ℤ → ℤ → Bool
is_past none n = false
is_past (some next) n = ltb_ℤ next (pos 0) || ltb_ℤ n next

abbrev pub Word : Option ℤ → Type 0
Word none = Unit
Word (some z) = IsInt64 z

pub record Allocated (o : Outbox) : Type 0 where
  pub once : (boot : Uuid) (n : ℤ) → times_used boot n o.rows ≤ 1
  pub past :
      (boot : Uuid) (n : ℤ) → 0 < times_used boot n o.rows → is_past (o.streams boot) n ≡ true
  pub word : (boot : Uuid) → Word (o.streams boot)

pub record WithinQuota (o : Outbox) : Type 0 where
  pub rows_le : pos (length o.rows) ≤ℤ o.max_rows
  pub bytes_le : pos (total_bytes o.rows) ≤ℤ o.max_bytes

-- What Enqueue has checked of the row that it adds.
pub record Added (o : Outbox) (r : EnqueueRequest) (first : ℤ) (x : Row × Outbox) : Type 0 where
  pub next_state : x.1 ≡ with_row o x.0
  pub boot : x.0.boot_id ≡ r.boot_id
  pub first_eq : x.0.first_sequence ≡ first
  pub count_eq : x.0.sample_count ≡ r.sample_count
  pub count_pos : leb_ℤ r.sample_count (pos 0) ≡ false
  pub room : leb_ℤ o.max_rows (pos (length o.rows)) ≡ false
  pub fits : pos (x.0.byte_size + total_bytes o.rows) ≤ℤ o.max_bytes

build_batch-count :
    (b : Builder) (o : Outbox) (first : ℤ) (r : EnqueueRequest) (x : Bytes × Bytes)
    → build_batch b o first r ≡ ok x
    → leb_ℤ r.sample_count (pos 0) ≡ false
unfolding build_batch
build_batch-count b o first r x h = ground arith

pub statement-eq-ok :
    {B : Type 0} (f : Faults) (op : Op) (k : Result B) (x : B)
    → (statement f op >> k) ≡ ok x
    → k ≡ ok x
unfolding statement
statement-eq-ok f op k x h = elim (Option-cases (f.fails op)) [
  | inl e ↦ ground arith
  | inr (y, e) ↦ ground arith
]

-- The row of a batch, behind the test of the bytes.
row-Added :
    (f : Faults) (now : Time) (r : EnqueueRequest) (o : Outbox) (first : ℤ) (t p : Bytes)
    (x : Row × Outbox)
    → leb_ℤ r.sample_count (pos 0) ≡ false
    → leb_ℤ o.max_rows (pos (length o.rows)) ≡ false
    → ltb_ℤ o.max_bytes (pos (total_bytes o.rows + (length t + length p))) ≡ false
    → (statement f insert_row
        >> (reject_if
              (any (λ row. bytes_eq row.message_id r.message_id) o.rows)
              (opaque "UNIQUE constraint failed")
            >> (statement f write_stream
                >> ok (row_for o first r now t p, with_row o (row_for o first r now t p)))))
      ≡ ok x
    → Added o r first x
row-Added f now r o first t p x hc hr hb h =
    let row = row_for o first r now t p in
    let result : Result (Row × Outbox) = ok (row, with_row o row) in
    let used = any (λ row. bytes_eq row.message_id r.message_id) o.rows in
    let unique = opaque "UNIQUE constraint failed" in
    let k =
      statement-eq-ok f insert_row (reject_if used unique >> (statement f write_stream >> result)) x
        h in
    let (_, k') = reject_if-eq-ok used unique (statement f write_stream >> result) k in
    subst (Added o r first) (ok_inj (statement-eq-ok f write_stream result x k')) (record {
      next_state = refl;
      boot = refl;
      first_eq = refl;
      count_eq = refl;
      count_pos = hc;
      room = hr;
      fits = ground arith;
    })

enqueue_at-Added :
    (b : Builder) (f : Faults) (now : Time) (r : EnqueueRequest) (o : Outbox) (first : ℤ)
    (x : Row × Outbox)
    → enqueue_at b f now r o first ≡ ok x
    → Added o r first x
unfolding enqueue_at
enqueue_at-Added b f now r o first x h =
    let full = leb_ℤ o.max_rows (pos (length o.rows)) in
    let finish : Bytes → Bytes → Result (Row × Outbox) = λ t p.
      statement f insert_row
      >> (reject_if (any (λ row. bytes_eq row.message_id r.message_id) o.rows)
            (opaque "UNIQUE constraint failed")
          >> (statement f write_stream
              >> ok (row_for o first r now t p, with_row o (row_for o first r now t p)))) in
    let heavy : Bytes → Bytes → Bool =
      λ t p. ltb_ℤ o.max_bytes (pos (total_bytes o.rows + (length t + length p))) in
    let rest : Bytes × Bytes → Result (Row × Outbox) =
      λ tp. reject_if (heavy tp.0 tp.1) outbox_full >> finish tp.0 tp.1 in
    let (hr, k) = reject_if-eq-ok full outbox_full (build_batch b o first r >>= rest) (
      statement-eq-ok f read_usage
        (reject_if full outbox_full >> (build_batch b o first r >>= rest)) x h) in
    let ((t, p), hb, k') = >>=-eq-ok (build_batch b o first r) rest k in
    let (light, k'') = reject_if-eq-ok (heavy t p) outbox_full (finish t p) k' in
    row-Added f now r o first t p x (build_batch-count b o first r (t, p) hb) hr light k''

pub enqueue-Added :
    (b : Builder) (f : Faults) (now : Time) (r : EnqueueRequest) (o : Outbox) (x : Row × Outbox)
    → (do
      statement f begin_tx
      statement f read_stream
      first ← next_of (o.streams r.boot_id)
      enqueue_at b f now r o first)
      ≡ ok x
    → (first : ℤ) × (next_of (o.streams r.boot_id) ≡ ok first) × Added o r first x
enqueue-Added b f now r o x h =
    let next = next_of (o.streams r.boot_id) >>= enqueue_at b f now r o in
    let (first, hn, k) = >>=-eq-ok (next_of (o.streams r.boot_id)) (enqueue_at b f now r o) (
      statement-eq-ok f read_stream next x
        (statement-eq-ok f begin_tx (statement f read_stream >> next) x h)) in
    (first, hn, enqueue_at-Added b f now r o first x k)
