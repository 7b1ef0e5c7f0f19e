-- ===== src/Scheduler/Bounded.antt =====
-- The bound on the rows in flight in src/internal/gatewaysim/scheduler.go.
use project1_iot_server.Uuid.{Uuid}
use project1_iot_server.Telemetry.Errors.{Error, Result}
use project1_iot_server.Outbox.{Row, Outbox, pending_after}
use project1_iot_server.Scheduler.{
  Entry, Scheduler, has_id, admit, on_publish_result, sync_inflight, process_due_retries,
  after_publish, row_still_pending,
}
use project1_iot_server.Scheduler.Admission.{
  admit_items, admit_pages, admit_pending, page_of, rows_of, after_page, last_id_of, Page,
  page_failed, last_page, next_page,
}
use project1_iot_server.Scheduler.Thinned.{
  Thinned, Distinct, length-Thinned, Distinct-Thinned, drop_id-Thinned, has_id-drop_id,
  update_publishing-Thinned, id_of-after_publish, sync_entries-Thinned,
}
use project1_iot_server.Scheduler.Thinned.Retried.{due_entries-Thinned}
use project1_iot_server.Scheduler.Steps.{
  Step, answers, syncs, retries, admits, generates, Run, at_start, then_step,
}
use project1_iot_server.Prelude.{
  ℕ, zero, suc, ◌+◌, ◌-◌, ◌≤◌, ◌≡◌, refl, Bool, true, false, Option, List, [], ◌∷◌, arith,
  if◌then◌else◌, length, pos,
}

-- At most `max_inflight` entries, and each message has at most one.
abbrev pub IsBounded : Scheduler → Type 0
IsBounded s = (length s.inflight ≤ s.max_inflight) × Distinct s.inflight

-- There is room for `free` more entries.
abbrev HasRoom : ℕ → Scheduler → Type 0
HasRoom free s = (length s.inflight + free ≤ s.max_inflight) × Distinct s.inflight

admit-HasRoom :
    (row : Row) (free : ℕ) (s : Scheduler) → HasRoom (suc free) s → HasRoom free (admit row s)
unfolding admit Distinct
admit-HasRoom row free s (room, d) =
    let thin = drop_id-Thinned row.message_id s.inflight in
    let short = length-Thinned thin in
    (omega arith, (has_id-drop_id row.message_id s.inflight, Distinct-Thinned thin d))

admit_items-HasRoom :
    (free : ℕ) (rows : List Row) (s : Scheduler)
    → HasRoom free s
    → HasRoom (admit_items free rows s).0 (admit_items free rows s).1
unfolding admit_items
admit_items-HasRoom free [] s h = h
admit_items-HasRoom zero (r ∷ rs) s h = h
admit_items-HasRoom (suc free) (r ∷ rs) s h =
    chosen (has_id r.message_id s.inflight) (admit_items (suc free) rs s)
      (admit_items free rs (admit r s)) (admit_items-HasRoom (suc free) rs s h)
      (admit_items-HasRoom free rs (admit r s) (admit-HasRoom r free s h))
  where
    chosen :
        (b : Bool) (x y : ℕ × Scheduler)
        → HasRoom x.0 x.1
        → HasRoom y.0 y.1
        → HasRoom (if b then x else y).0 (if b then x else y).1
    chosen true x y h k = h
    chosen false x y h k = k

room-IsBounded : (free : ℕ) (s : Scheduler) → HasRoom free s → IsBounded s
room-IsBounded free s (room, d) = (omega arith, d)

admit_pages-IsBounded :
    (reads : ℕ → Option Error) (o : Outbox) (pages cursor free : ℕ) (s : Scheduler)
    → HasRoom free s
    → IsBounded (admit_pages reads o pages cursor free s).1
unfolding admit_pages
admit_pages-IsBounded reads o zero cursor free s h = room-IsBounded free s h
admit_pages-IsBounded reads o (suc pages) cursor zero s h = room-IsBounded 0 s h
admit_pages-IsBounded reads o (suc pages) cursor (suc free) s h =
    let page = page_of s.max_inflight (reads pages) (pending_after cursor (pos s.max_inflight) o) in
    let (left, filled) = admit_items (suc free) (rows_of page) s in
    let room = admit_items-HasRoom (suc free) (rows_of page) s h in
    bounded_page page s filled
      (admit_pages reads o pages (last_id_of cursor (rows_of page)) left filled)
      (room-IsBounded (suc free) s h) (room-IsBounded left filled room)
      (admit_pages-IsBounded reads o pages (last_id_of cursor (rows_of page)) left filled room)
  where
    bounded_page :
        (page : Page) (s filled : Scheduler) (rest : Result Bool × Scheduler)
        → IsBounded s
        → IsBounded filled
        → IsBounded rest.1
        → IsBounded (after_page page s filled rest).1
    bounded_page (page_failed e) s filled rest h k l = h
    bounded_page (last_page items) s filled rest h k l = k
    bounded_page (next_page items) s filled rest h k l = l

IsBounded-Thinned :
    {Gone : Uuid → Type 0} (limit : ℕ) (es fs : List Entry)
    → Thinned Gone es fs
    → (length es ≤ limit) × Distinct es
    → (length fs ≤ limit) × Distinct fs
IsBounded-Thinned limit es fs thin (short, d) =
    let l = length-Thinned thin in (omega arith, Distinct-Thinned thin d)

IsBounded-Step : (o : Outbox) (a b : Scheduler) → Step o a b → IsBounded a → IsBounded b
unfolding on_publish_result sync_inflight process_due_retries admit_pending
IsBounded-Step o a b (answers jitter now id answer) h =
    IsBounded-Thinned {Gone = λ x. x ≡ id} a.max_inflight a.inflight _
      (update_publishing-Thinned id (after_publish jitter now a answer)
        (id_of-after_publish jitter now a answer) a.inflight)
      h
IsBounded-Step o a b (syncs reads) h =
    IsBounded-Thinned a.max_inflight a.inflight _
      (sync_entries-Thinned (row_still_pending reads o) a.inflight) h
IsBounded-Step o a b (retries jitter now reads) h =
    IsBounded-Thinned a.max_inflight a.inflight _
      (due_entries-Thinned jitter now (row_still_pending reads o) a a.inflight) h
IsBounded-Step o a b (admits reads) (short, d) =
    admit_pages-IsBounded reads o 4 0 (a.max_inflight - length a.inflight) a (omega arith, d)
IsBounded-Step o a b (generates row slot) (short, d) =
    room-IsBounded 0 (admit row a) (admit-HasRoom row 0 a (omega arith, d))

-- A scheduler that starts with no entry never has more entries than `max_inflight`, and never two for one message, after any publish results, synchronisations, retries, admissions and generated batches in any order, whatever the outbox holds at each of them and whichever reads fail.
pub inflight_bounded :
    (a b : Scheduler)
    → Run a b
    → a.inflight ≡ []
    → (length b.inflight ≤ b.max_inflight) × Distinct b.inflight
unfolding Distinct
inflight_bounded a b run empty = bounded a b run empty
  where
    none_yet : (limit : ℕ) (es : List Entry) → es ≡ [] → (length es ≤ limit) × Distinct es
    none_yet limit [] q = (omega arith, refl)
    none_yet limit (e ∷ es) q = cc

    bounded : (a b : Scheduler) → Run a b → a.inflight ≡ [] → IsBounded b
    bounded a b at_start q = none_yet a.max_inflight a.inflight q
    bounded a b (then_step {b = m} o run step) q = IsBounded-Step o m b step (bounded a m run q)
