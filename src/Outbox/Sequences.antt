-- ===== src/Outbox/Sequences.antt =====
-- The sequence numbers and the quota over all operations of the outbox.
use mathlib.Core.Path.{subst}
use project1_iot_server.Uuid.{Uuid}
use project1_iot_server.Telemetry.Errors.{ok}
use project1_iot_server.Outbox.{
  Row, Outbox, next_of, without, matches, set_quarantined, delete_pending, quarantine,
}
use project1_iot_server.Outbox.Build.{Builder, EnqueueRequest, enqueue}
use project1_iot_server.Outbox.Allocated.{Allocated, WithinQuota, Added, enqueue-Added}
use project1_iot_server.Outbox.Allocated.Kept.{Counter, next_of-Counter, with_row-Allocated}
use project1_iot_server.Outbox.Steps.{
  Step, enqueues, deletes, quarantines, Steps, here, next, settle-either, deleted_rows,
  quarantined_rows, times_used-without, length-without, total_bytes-without,
  times_used-set_quarantined, length-set_quarantined, total_bytes-set_quarantined,
}
use project1_iot_server.Prelude.{◌≡◌, sym, ap, ◌∙◌, true, arith, ℤ, pos, leb_ℤ}

-- Both invariants.
pub record Sound (o : Outbox) : Type 0 where
  pub allocated : Allocated o
  pub quota : WithinQuota o

Added-Sound :
    (o : Outbox) (r : EnqueueRequest) (first : ℤ) (x : Row × Outbox)
    → leb_ℤ r.sample_count (pos 2147483647) ≡ true
    → next_of (o.streams r.boot_id) ≡ ok first
    → Added o r first x
    → Sound o
    → Sound x.1
Added-Sound o r first x le hn d s =
    let c : Counter (o.streams x.0.boot_id) first =
      subst (λ b. Counter (o.streams b) first) (sym d.boot)
        (next_of-Counter (o.streams r.boot_id) first (s.allocated.word r.boot_id) hn) in
    let count_pos = ap (λ z. leb_ℤ z (pos 0)) d.count_eq ∙ d.count_pos in
    let count_le = ap (λ z. leb_ℤ z (pos 2147483647)) d.count_eq ∙ le in
    subst Sound (sym d.next_state) (record {
      allocated = with_row-Allocated o x.0 first s.allocated c d.first_eq count_pos count_le;
      quota = record { rows_le = ground (arith, d.room); bytes_le = ground (arith, d.fits) };
    })

deleted-Sound :
    (id : Uuid) (o : Outbox) → Sound o → Sound (record o { rows = without (matches id) o.rows })
deleted-Sound id o s = record {
  allocated = record {
    once = λ boot n.
        omega (arith, times_used-without (matches id) boot n o.rows, s.allocated.once boot n);
    past = λ boot n h.
        s.allocated.past boot n (omega (arith, times_used-without (matches id) boot n o.rows));
    word = s.allocated.word;
  };
  quota = record {
    rows_le = ground (arith, length-without (matches id) o.rows, s.quota.rows_le);
    bytes_le = ground (arith, total_bytes-without (matches id) o.rows, s.quota.bytes_le);
  };
}

quarantined-Sound :
    (id : Uuid) (o : Outbox) → Sound o → Sound (record o { rows = set_quarantined id o.rows })
quarantined-Sound id o s = record {
  allocated = record {
    once = λ boot n.
        omega (arith, times_used-set_quarantined id boot n o.rows, s.allocated.once boot n);
    past = λ boot n h.
        s.allocated.past boot n (omega (arith, times_used-set_quarantined id boot n o.rows));
    word = s.allocated.word;
  };
  quota = record {
    rows_le = ground (arith, length-set_quarantined id o.rows, s.quota.rows_le);
    bytes_le = ground (arith, total_bytes-set_quarantined id o.rows, s.quota.bytes_le);
  };
}

Step-Sound : (b : Builder) (o p : Outbox) → Step b o p → Sound o → Sound p
unfolding enqueue delete_pending quarantine
Step-Sound b o p (enqueues f now r le) s =
    settle-either Sound f.fate o _ s
      λ x h. let (first, hn, d) = enqueue-Added b f now r o x h in Added-Sound o r first x le hn d s
Step-Sound b o p (deletes f g id) s =
    settle-either Sound f.fate o _ s
      λ x h. subst Sound (deleted_rows f g id o x h) (deleted-Sound id o s)
Step-Sound b o p (quarantines f id cause) s =
    settle-either Sound f.fate o _ s
      λ x h. subst Sound (quarantined_rows f id _ o x h) (quarantined-Sound id o s)

-- No sequence number is given out twice. For an outbox with both invariants, and so for a new one, the
-- following holds after any operations with any faults, failed and ambiguous commits included, for
-- sample counts that are int32 values: a sequence number of a boot is in at most one row, the counter
-- of the boot is past it or has left the range of an int64, and the rows and their bytes, quarantined
-- ones included, stay within the quota.
pub outbox-Sound : (b : Builder) (o p : Outbox) → Sound o → Steps b o p → Sound p
outbox-Sound b o p s here = s
outbox-Sound b o p s (next h k) = Step-Sound b _ _ k (outbox-Sound b o _ s h)
