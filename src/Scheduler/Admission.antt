-- ===== src/Scheduler/Admission.antt =====
-- admitPending of src/internal/gatewaysim/scheduler.go: pending rows get the free slots, oldest first.
use project1_iot_server.Telemetry.Errors.{Error, Result, ok, err}
use project1_iot_server.Outbox.{Row, Outbox, pending_after}
use project1_iot_server.Scheduler.{Scheduler, has_id, admit}
use project1_iot_server.Prelude.{
  ℕ, zero, suc, ◌-◌, Bool, false, Option, none, some, List, [], ◌∷◌, ltb, if◌then◌else◌, length,
  pos,
}

-- The inner loop of admitPending, with the slots that are free.
unfoldable pub admit_items : ℕ → List Row → Scheduler → ℕ × Scheduler
unfolding has_id admit
admit_items free [] s = (free, s)
admit_items zero (r ∷ rs) s = (zero, s)
admit_items (suc free) (r ∷ rs) s =
    if has_id r.message_id s.inflight
    then admit_items (suc free) rs s
    else admit_items free rs (admit r s)

abbrev pub last_id_of : ℕ → List Row → ℕ
last_id_of n [] = n
last_id_of n (r ∷ rs) = last_id_of r.id rs

-- A page of admitPending: an error, the end of the pages, or the next page.
pub data Page : Type 0 where
  page_failed : Error → Page
  last_page next_page : List Row → Page

abbrev pub page_of : ℕ → Option Error → Result (List Row) → Page
page_of size (some e) r = page_failed e
page_of size none (err e) = page_failed e
page_of size none (ok items) = if ltb (length items) size then last_page items else next_page items

abbrev pub rows_of : Page → List Row
rows_of (page_failed e) = []
rows_of (last_page items) = items
rows_of (next_page items) = items

-- What follows a page: `filled` has its rows, and `rest` is the result of the later pages.
abbrev pub after_page :
    Page → Scheduler → Scheduler → Result Bool × Scheduler → Result Bool × Scheduler
after_page (page_failed e) s filled rest = (err e, s)
after_page (last_page items) s filled rest = (ok false, filled)
after_page (next_page items) s filled rest = rest

-- The loop of admitPending over at most `pages` pages, which tells whether slots are left after the last
-- one.
unfoldable pub admit_pages :
    (ℕ → Option Error) → Outbox → ℕ → ℕ → ℕ → Scheduler → Result Bool × Scheduler
unfolding admit_items pending_after
admit_pages reads o zero cursor free s = (ok (ltb 0 free), s)
admit_pages reads o (suc pages) cursor zero s = (ok false, s)
admit_pages reads o (suc pages) cursor (suc free) s =
    let page = page_of s.max_inflight (reads pages) (pending_after cursor (pos s.max_inflight) o) in
    let (left, filled) = admit_items (suc free) (rows_of page) s in
    let rest = admit_pages reads o pages (last_id_of cursor (rows_of page)) left filled in
    after_page page s filled rest

-- admitPending
unfoldable pub admit_pending : (ℕ → Option Error) → Outbox → Scheduler → Result Bool × Scheduler
unfolding admit_pages
admit_pending reads o s = admit_pages reads o 4 0 (s.max_inflight - length s.inflight) s
