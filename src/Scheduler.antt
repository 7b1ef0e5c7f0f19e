-- ===== src/Scheduler.antt =====
-- src/internal/gatewaysim/scheduler.go: the bounded set of rows in flight. The clock, the jitter of a
-- delay and the faults of a read are arguments; the map of entries is a list. The clock is
-- read once in a step, and the numbers of attempts and retries have no bound.
pub mod Admission
pub mod Delays
pub mod Bounded
pub mod Thinned
pub mod Steps
pub mod Remembered
use project1_iot_server.Clock.{Time, Duration, before}
use project1_iot_server.Uuid.{Uuid}
use project1_iot_server.Telemetry.Errors.{Error, Result, ok, err}
use project1_iot_server.Outbox.{Row, Outbox, is_pending}
use project1_iot_server.Prelude.{
  ℕ, zero, suc, ◌+◌, Bool, true, false, ◌&&◌, ◌||◌, Option, none, some, List, [], ◌∷◌,
  if◌then◌else◌, ℤ, pos, ltb_ℤ, leb_ℤ, ◌+ℤ◌, mul64, bytes_eq,
}

-- The states of an entry: a Publish runs, the ACK is waited for, or a retry.
pub data EntryState : Type 0 where
  publishing await_ack backoff : EntryState

-- inflightEntry
pub record Entry : Type 0 where
  pub item : Row
  pub state : EntryState
  pub retries : ℕ
  pub next_at : Time

-- Scheduler, as far as the rows in flight need it.
pub record Scheduler : Type 0 where
  pub max_inflight : ℕ
  pub ack_timeout : Duration
  pub retry_min : Duration
  pub retry_max : Duration
  pub inflight : List Entry
  pub publish_attempts : ℕ
  pub generation_paused : Bool

abbrev pub id_of : Entry → Uuid
id_of e = e.item.message_id

unfoldable pub has_id : Uuid → List Entry → Bool
has_id id [] = false
has_id id (e ∷ es) = bytes_eq (id_of e) id || has_id id es

unfoldable pub drop_id : Uuid → List Entry → List Entry
drop_id id [] = []
drop_id id (e ∷ es) = if bytes_eq (id_of e) id then drop_id id es else e ∷ drop_id id es

-- The doubling of retryDelay.
unfoldable pub doubled : Duration → Duration → ℕ → Duration
unfolding mul64
doubled d max zero = d
doubled d max (suc n) =
    let twice = mul64 d (pos 2) in
    let next = if ltb_ℤ max twice then max else twice in
    let rest = doubled next max n in if leb_ℤ max d then d else rest

abbrev pub clamp : Duration → Duration → Duration
clamp max d =
    let capped = if ltb_ℤ max d then max else d in if ltb_ℤ capped (pos 0) then pos 0 else capped

-- retryDelay; the product with the random factor is an argument.
unfoldable pub retry_delay : (Duration → Duration) → Duration → Duration → ℕ → Duration
unfolding doubled
retry_delay jitter min max retries =
    let low = if leb_ℤ min (pos 0) then pos 1000000 else min in
    let high = if ltb_ℤ max low then low else max in clamp high (jitter (doubled low high retries))

-- startPublish, on the entry; the caller counts the attempt.
abbrev pub start_publish : Entry → Entry
start_publish e = record e { state = publishing }

-- admit: the entry of the map is replaced.
unfoldable pub admit : Row → Scheduler → Scheduler
unfolding drop_id
admit row s = record s {
  inflight =
      record { item = row; state = publishing; retries = 0; next_at = pos 0 }
      ∷ drop_id row.message_id s.inflight;
  publish_attempts = suc s.publish_attempts;
}

-- scheduleBackoff, at the time `now`
unfoldable pub schedule_backoff : (Duration → Duration) → Time → Scheduler → Entry → Entry
unfolding retry_delay ◌+ℤ◌
schedule_backoff jitter now s e = record e {
  state = backoff;
  next_at = now +ℤ retry_delay jitter s.retry_min s.retry_max e.retries;
  retries = suc e.retries;
}

-- onPublishResult, on the entry that owns the publish.
unfoldable pub after_publish :
    (Duration → Duration) → Time → Scheduler → Option Error → Entry → Entry
unfolding schedule_backoff ◌+ℤ◌
after_publish jitter now s (some x) e = schedule_backoff jitter now s e
after_publish jitter now s none e = record e { state = await_ack; next_at = now +ℤ s.ack_timeout }

abbrev pub is_publishing : EntryState → Bool
is_publishing publishing = true
is_publishing _ = false

unfoldable pub update_publishing : Uuid → (Entry → Entry) → List Entry → List Entry
update_publishing id f [] = []
update_publishing id f (e ∷ es) =
    (if bytes_eq (id_of e) id && is_publishing e.state then f e else e) ∷ update_publishing id f es

unfoldable pub on_publish_result :
    (Duration → Duration) → Time → Uuid → Option Error → Scheduler → Scheduler
unfolding update_publishing after_publish
on_publish_result jitter now id answer s = record s {
  inflight = update_publishing id (after_publish jitter now s answer) s.inflight;
}

-- Outbox.Lookup, and rowStillPending; a read may fail.
unfoldable pub lookup : Uuid → List Row → Option Row
lookup id [] = none
lookup id (r ∷ rs) = if bytes_eq r.message_id id then some r else lookup id rs

abbrev pub found_pending : Option Row → Bool
found_pending none = false
found_pending (some r) = is_pending r

abbrev pub pending_answer : Option Error → Bool → Result Bool
pending_answer (some e) b = err e
pending_answer none b = ok b

unfoldable pub row_still_pending : (Uuid → Option Error) → Outbox → Uuid → Result Bool
unfolding lookup
row_still_pending reads o id = pending_answer (reads id) (found_pending (lookup id o.rows))

abbrev pub synced_entries :
    Option Error → List Entry → Entry → List Entry → Result Bool → Option Error × List Entry
synced_entries failed rest e es (err x) = (some x, e ∷ es)
synced_entries failed rest e es (ok true) = (failed, e ∷ rest)
synced_entries failed rest e es (ok false) = (failed, rest)

-- The loop of syncInflight; after a failed read the other entries stay.
unfoldable pub sync_entries : (Uuid → Result Bool) → List Entry → Option Error × List Entry
sync_entries still [] = (none, [])
sync_entries still (e ∷ es) =
    let (failed, rest) = sync_entries still es in synced_entries failed rest e es (still (id_of e))

abbrev pub resumed : Option Error → Bool → Bool
resumed none paused = false
resumed (some e) paused = paused

-- syncInflight, which resumes the generation when every read has been answered
unfoldable pub sync_inflight : (Uuid → Option Error) → Outbox → Scheduler → Option Error × Scheduler
unfolding sync_entries row_still_pending
sync_inflight reads o s =
    let (failed, rest) = sync_entries (row_still_pending reads o) s.inflight in
    (failed, record s { inflight = rest; generation_paused = resumed failed s.generation_paused })

-- What processDueRetries makes of an entry, with the attempts that it starts.
pub data Due : Type 0 where
  failed_read : Error → Due
  gone : Due
  kept : Entry → ℕ → Due

abbrev pub after_timeout : (Duration → Duration) → Time → Scheduler → Entry → Result Bool → Due
after_timeout jitter now s e (err x) = failed_read x
after_timeout jitter now s e (ok false) = gone
after_timeout jitter now s e (ok true) = kept (schedule_backoff jitter now s e) 0

unfoldable pub due_state :
    (Duration → Duration) → Time → (Uuid → Result Bool) → Scheduler → Entry → EntryState → Due
unfolding schedule_backoff
due_state jitter now still s e publishing = kept e 0
due_state jitter now still s e await_ack = after_timeout jitter now s e (still (id_of e))
due_state jitter now still s e backoff = kept (start_publish e) 1

unfoldable pub due_entry :
    (Duration → Duration) → Time → (Uuid → Result Bool) → Scheduler → Entry → Due
unfolding due_state
due_entry jitter now still s e =
    if is_publishing e.state || before now e.next_at
    then kept e 0
    else due_state jitter now still s e e.state

abbrev pub Progress : Type 0
Progress = Option Error × List Entry × ℕ

abbrev pub take_due : Due → Entry → List Entry → Progress → Progress
take_due (failed_read x) e es rest = (some x, e ∷ es, 0)
take_due gone e es rest = rest
take_due (kept f n) e es (failed, entries, m) = (failed, f ∷ entries, n + m)

unfoldable pub due_entries :
    (Duration → Duration) → Time → (Uuid → Result Bool) → Scheduler → List Entry → Progress
unfolding due_entry
due_entries jitter now still s [] = (none, [], 0)
due_entries jitter now still s (e ∷ es) =
    take_due (due_entry jitter now still s e) e es (due_entries jitter now still s es)

-- processDueRetries
unfoldable pub process_due_retries :
    (Duration → Duration)
    → Time
    → (Uuid → Option Error)
    → Outbox
    → Scheduler
    → Option Error × Scheduler
unfolding due_entries row_still_pending
process_due_retries jitter now reads o s =
    let (failed, entries, started) =
      due_entries jitter now (row_still_pending reads o) s s.inflight in
    (failed, record s { inflight = entries; publish_attempts = s.publish_attempts + started })
