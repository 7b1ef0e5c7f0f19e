-- ===== src/Scheduler/Remembered.antt =====
-- The rows in flight that src/internal/gatewaysim/scheduler.go forgets.
use project1_iot_server.Uuid.{Uuid}
use project1_iot_server.Telemetry.Errors.{Error, Result, ok, ok_inj}
use project1_iot_server.Outbox.{Row, Outbox, pending_after}
use project1_iot_server.Scheduler.{
  Entry, Scheduler, has_id, drop_id, admit, on_publish_result, sync_inflight, process_due_retries,
  after_publish, row_still_pending, found_pending, pending_answer, lookup,
}
use project1_iot_server.Scheduler.Admission.{
  admit_items, admit_pages, admit_pending, page_of, last_id_of, Page, page_failed, last_page,
  next_page, rows_of, after_page,
}
use project1_iot_server.Scheduler.Thinned.{
  present-Thinned, drop_id-Thinned, update_publishing-Thinned, id_of-after_publish,
  sync_entries-Thinned,
}
use project1_iot_server.Scheduler.Thinned.Retried.{due_entries-Thinned}
use project1_iot_server.Scheduler.Steps.{Step, answers, syncs, retries, admits, generates}
use project1_iot_server.Prelude.{
  ℕ, zero, suc, ◌-◌, ◌≡◌, ap, ◌∙◌, ◌⊎◌, inl, inr, Bool, true, false, ◌||◌, Option, none, some, List,
  [], ◌∷◌, arith, if◌then◌else◌, length, pos, bytes_eq_refl, bytes_eq,
}

-- The outbox has no pending row for the message.
abbrev pub Settled : Outbox → Uuid → Type 0
Settled o id = found_pending (lookup id o.rows) ≡ false

-- A read that answers "not pending" has seen the outbox so.
answered-Settled :
    (reads : Uuid → Option Error) (o : Outbox) (id : Uuid)
    → row_still_pending reads o id ≡ ok false
    → Settled o id
unfolding row_still_pending
answered-Settled reads o id h = settled (reads id) (found_pending (lookup id o.rows)) h
  where
    settled : (r : Option Error) (b : Bool) → pending_answer r b ≡ ok false → b ≡ false
    settled none b h = ok_inj h
    settled (some e) b h = cc

admit_keeps :
    (row : Row) (id : Uuid) (s : Scheduler)
    → has_id id s.inflight ≡ true
    → has_id id (admit row s).inflight ≡ true
unfolding admit has_id
admit_keeps row id s h = elim (present-Thinned id (drop_id-Thinned row.message_id s.inflight) h) [
  | inl p ↦ either (bytes_eq row.message_id id) (has_id id (drop_id row.message_id s.inflight)) p
  | inr q ↦ first row.message_id id (has_id id (drop_id row.message_id s.inflight)) q
]
  where
    either : (a b : Bool) → b ≡ true → (a || b) ≡ true
    either a b h = ground arith

    first : (x y : Uuid) (b : Bool) → y ≡ x → (bytes_eq x y || b) ≡ true
    first x y b q = ap (λ z. bytes_eq x z || b) q ∙ ap (λ c. c || b) (bytes_eq_refl x)

admit_items_keeps :
    (id : Uuid) (free : ℕ) (rows : List Row) (s : Scheduler)
    → has_id id s.inflight ≡ true
    → has_id id (admit_items free rows s).1.inflight ≡ true
unfolding admit_items
admit_items_keeps id free [] s h = h
admit_items_keeps id zero (r ∷ rs) s h = h
admit_items_keeps id (suc free) (r ∷ rs) s h =
    chosen id (has_id r.message_id s.inflight) (admit_items (suc free) rs s)
      (admit_items free rs (admit r s)) (admit_items_keeps id (suc free) rs s h)
      (admit_items_keeps id free rs (admit r s) (admit_keeps r id s h))
  where
    chosen :
        (id : Uuid) (b : Bool) (x y : ℕ × Scheduler)
        → has_id id x.1.inflight ≡ true
        → has_id id y.1.inflight ≡ true
        → has_id id (if b then x else y).1.inflight ≡ true
    chosen id true x y h k = h
    chosen id false x y h k = k

admit_pages_keeps :
    (id : Uuid) (reads : ℕ → Option Error) (o : Outbox) (pages cursor free : ℕ) (s : Scheduler)
    → has_id id s.inflight ≡ true
    → has_id id (admit_pages reads o pages cursor free s).1.inflight ≡ true
unfolding admit_pages
admit_pages_keeps id reads o zero cursor free s h = h
admit_pages_keeps id reads o (suc pages) cursor zero s h = h
admit_pages_keeps id reads o (suc pages) cursor (suc free) s h =
    let page = page_of s.max_inflight (reads pages) (pending_after cursor (pos s.max_inflight) o) in
    let (left, filled) = admit_items (suc free) (rows_of page) s in
    let kept = admit_items_keeps id (suc free) (rows_of page) s h in
    page_keeps id page s filled
      (admit_pages reads o pages (last_id_of cursor (rows_of page)) left filled) h kept
      (admit_pages_keeps id reads o pages (last_id_of cursor (rows_of page)) left filled kept)
  where
    page_keeps :
        (id : Uuid) (page : Page) (s filled : Scheduler) (rest : Result Bool × Scheduler)
        → has_id id s.inflight ≡ true
        → has_id id filled.inflight ≡ true
        → has_id id rest.1.inflight ≡ true
        → has_id id (after_page page s filled rest).1.inflight ≡ true
    page_keeps id (page_failed e) s filled rest h k l = h
    page_keeps id (last_page items) s filled rest h k l = k
    page_keeps id (next_page items) s filled rest h k l = l

kept_or_answered :
    (reads : Uuid → Option Error) (o : Outbox) (id : Uuid) (fs : List Entry)
    → (has_id id fs ≡ true) ⊎ (row_still_pending reads o id ≡ ok false)
    → (has_id id fs ≡ true) ⊎ Settled o id
kept_or_answered reads o id fs (inl h) = inl h
kept_or_answered reads o id fs (inr g) = inr (answered-Settled reads o id g)

-- A message in flight stays in flight over every step of the loop, or the outbox has no pending row for it: no publish result, failed read, timeout or admission makes the scheduler forget a message that is still to be delivered.
pub inflight_kept :
    (o : Outbox) (a b : Scheduler) (id : Uuid)
    → Step o a b
    → has_id id a.inflight ≡ true
    → (has_id id b.inflight ≡ true) ⊎ (found_pending (lookup id o.rows) ≡ false)
unfolding on_publish_result sync_inflight process_due_retries admit_pending
inflight_kept o a b id (answers jitter now x answer) h =
    present-Thinned id
      (update_publishing-Thinned {Gone = Settled o} x (after_publish jitter now a answer)
        (id_of-after_publish jitter now a answer) a.inflight)
      h
inflight_kept o a b id (syncs reads) h =
    kept_or_answered reads o id _
      (present-Thinned id (sync_entries-Thinned (row_still_pending reads o) a.inflight) h)
inflight_kept o a b id (retries jitter now reads) h =
    kept_or_answered reads o id _ (
      present-Thinned id (due_entries-Thinned jitter now (row_still_pending reads o) a a.inflight)
        h)
inflight_kept o a b id (admits reads) h =
    inl (admit_pages_keeps id reads o 4 0 (a.max_inflight - length a.inflight) a h)
inflight_kept o a b id (generates row slot) h = inl (admit_keeps row id a h)
