-- ===== src/Outbox/Steps.antt =====
-- The operations of the outbox in any order.
use project1_iot_server.Clock.{Time}
use project1_iot_server.Uuid.{Uuid}
use project1_iot_server.Telemetry.Errors.{Result, ok, err, ◌>>◌, reject_if}
use project1_iot_server.Store.{Fate, confirmed, lost, applied}
use project1_iot_server.Outbox.{
  begin_tx, delete_row, update_row, outbox_identity, outbox_reason, Row, Outbox, Faults, settle,
  total_bytes, without, matches, set_quarantined, delete_pending, quarantine, statement,
}
use project1_iot_server.Outbox.Build.{Builder, EnqueueRequest, enqueue}
use project1_iot_server.Outbox.Allocated.{holds_sequence, times_used}
use project1_iot_server.Prelude.{
  suc, ◌≤◌, ◌≡◌, refl, ap, Bool, true, not, List, [], ◌∷◌, arith, length, any, ℤ, pos, leb_ℤ, Bytes,
  bytes_eq,
}

-- An operation with any faults. A sample count is an int32.
pub data Step (b : Builder) (o : Outbox) : Outbox → Type 0 where
  enqueues :
      (f : Faults) (now : Time) (r : EnqueueRequest)
      → leb_ℤ r.sample_count (pos 2147483647) ≡ true
      → Step b o (enqueue b f now r o).1
  deletes :
      (f : Faults) (gateway_id : Bytes) (id : Uuid) → Step b o (delete_pending f gateway_id id o).1
  quarantines : (f : Faults) (id : Uuid) (cause : Bytes) → Step b o (quarantine f id cause o).1

pub data Steps (b : Builder) (o : Outbox) : Outbox → Type 0 where
  here : Steps b o o
  next : {p q : Outbox} → Steps b o p → Step b p q → Steps b o q

pub settle-either {ℓ} :
    {A : Type ℓ} (P : Outbox → Type 0) (fate : Fate) (o : Outbox) (t : Result (A × Outbox))
    → P o
    → ((x : A × Outbox) → t ≡ ok x → P x.1)
    → P (settle fate o t).1
unfolding settle
settle-either P fate o (err e) h k = h
settle-either P confirmed o (ok x) h k = k x refl
settle-either P (lost e) o (ok x) h k = h
settle-either P (applied e) o (ok x) h k = k x refl

pub deleted_rows :
    (f : Faults) (g : Bytes) (id : Uuid) (o : Outbox) (x : Bool × Outbox)
    → (reject_if (not (bytes_eq g o.gateway_id)) outbox_identity
        >> (statement f begin_tx
            >> (statement f delete_row
                >> ok (any (matches id) o.rows, record o { rows = without (matches id) o.rows }))))
      ≡ ok x
    → record o { rows = without (matches id) o.rows } ≡ x.1
unfolding statement
deleted_rows f g id o x h = ground arith

pub times_used-without :
    (p : Row → Bool) (boot : Uuid) (n : ℤ) (rs : List Row)
    → times_used boot n (without p rs) ≤ times_used boot n rs
unfolding times_used
times_used-without p boot n [] = omega arith
times_used-without p boot n (r ∷ rs) = ground (arith, times_used-without p boot n rs)

pub length-without : (p : Row → Bool) (rs : List Row) → length (without p rs) ≤ length rs
length-without p [] = omega arith
length-without p (r ∷ rs) = ground (arith, length-without p rs)

pub total_bytes-without :
    (p : Row → Bool) (rs : List Row) → total_bytes (without p rs) ≤ total_bytes rs
total_bytes-without p [] = omega arith
total_bytes-without p (r ∷ rs) = ground (arith, total_bytes-without p rs)

pub times_used-set_quarantined :
    (id boot : Uuid) (n : ℤ) (rs : List Row)
    → times_used boot n (set_quarantined id rs) ≡ times_used boot n rs
unfolding times_used holds_sequence
times_used-set_quarantined id boot n [] = refl
times_used-set_quarantined id boot n (r ∷ rs) =
    ground (arith, times_used-set_quarantined id boot n rs)

pub length-set_quarantined :
    (id : Uuid) (rs : List Row) → length (set_quarantined id rs) ≡ length rs
length-set_quarantined id [] = refl
length-set_quarantined id (r ∷ rs) = ap suc (length-set_quarantined id rs)

pub total_bytes-set_quarantined :
    (id : Uuid) (rs : List Row) → total_bytes (set_quarantined id rs) ≡ total_bytes rs
total_bytes-set_quarantined id [] = refl
total_bytes-set_quarantined id (r ∷ rs) = ground (arith, total_bytes-set_quarantined id rs)

pub quarantined_rows :
    (f : Faults) (id : Uuid) (bad : Bool) (o : Outbox) (x : Bool × Outbox)
    → (reject_if bad outbox_reason
        >> (statement f begin_tx
            >> (statement f update_row
                >> ok (any (matches id) o.rows, record o { rows = set_quarantined id o.rows }))))
      ≡ ok x
    → record o { rows = set_quarantined id o.rows } ≡ x.1
unfolding statement
quarantined_rows f id bad o x h = ground arith
