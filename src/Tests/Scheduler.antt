-- ===== src/Tests/Scheduler.antt =====
-- Concrete runs of the scheduler's rows in flight.
use project1_iot_server.Outbox.{Row, Outbox, pending}
use project1_iot_server.Uuid.{Uuid}
use project1_iot_server.Scheduler.{
  clamp, Scheduler, publishing, await_ack, has_id, on_publish_result, process_due_retries,
  retry_delay, found_pending, lookup,
}
use project1_iot_server.Scheduler.Admission.{admit_pending}
use project1_iot_server.Scheduler.Steps.{at_start, then_step, admits, answers, retries}
use project1_iot_server.Scheduler.Thinned.{Distinct}
use project1_iot_server.Scheduler.Delays.{least, retry_delay_closed}
use project1_iot_server.Scheduler.Bounded.{inflight_bounded}
use project1_iot_server.Scheduler.Remembered.{inflight_kept}
use project1_iot_server.Tests.Outbox.{fresh_outbox}
use project1_iot_server.Prelude.{
  ℕ, ◌*◌, ◌^◌, ◌≤◌, ◌≡◌, refl, ◌⊎◌, true, false, none, [], ◌∷◌, map, arith, length, pos, ◌≤ℤ◌, ◌-ℤ◌,
  codes, bytes_eq,
}

abbrev row : ℕ → Uuid → Row
row n id = record {
  id = n;
  message_id = id;
  boot_id = codes "b";
  topic = codes "t";
  payload = codes "p";
  byte_size = 1;
  first_sequence = pos 1;
  sample_count = pos 1;
  status = pending;
  enqueued_at = pos 0;
}

abbrev outbox : Outbox
outbox = record fresh_outbox {
  last_id = 3;
  rows = row 3 (codes "m3") ∷ row 2 (codes "m2") ∷ row 1 (codes "m1") ∷ [];
}

-- The ACK of the first row has deleted it.
abbrev acknowledged : Outbox
acknowledged = record outbox { rows = row 3 (codes "m3") ∷ row 2 (codes "m2") ∷ [] }

abbrev idle : Scheduler
idle = record {
  max_inflight = 2;
  ack_timeout = pos 100;
  retry_min = pos 10;
  retry_max = pos 40;
  inflight = [];
  publish_attempts = 0;
  generation_paused = false;
}

abbrev filled : Scheduler
filled = (admit_pending (λ n. none) outbox idle).1

abbrev sent : Scheduler
sent = on_publish_result (λ d. d) (pos 5) (codes "m1") none filled

abbrev freed : Scheduler
freed = (process_due_retries (λ d. d) (pos 200) (λ id. none) acknowledged sent).1

abbrev refilled : Scheduler
refilled = (admit_pending (λ n. none) acknowledged freed).1

scheduler_run :
    (map (λ e. e.item.id) filled.inflight ≡ 2 ∷ 1 ∷ [])
    × (map (λ e. e.state) sent.inflight ≡ publishing ∷ await_ack ∷ [])
    × (map (λ e. e.item.id) freed.inflight ≡ 2 ∷ [])
    × (map (λ e. e.item.id) refilled.inflight ≡ 3 ∷ 2 ∷ [])
unfolding admit_pending on_publish_result process_due_retries bytes_eq
scheduler_run = (refl, refl, refl, refl)

retry_delay_run :
    (map (retry_delay (λ d. d) (pos 10) (pos 40)) (0 ∷ 1 ∷ 2 ∷ 3 ∷ [])
      ≡ pos 10 ∷ pos 20 ∷ pos 40 ∷ pos 40 ∷ [])
    × (retry_delay (λ d. d) (pos 0) (pos 0) 3 ≡ pos 1000000)
unfolding retry_delay
retry_delay_run = (refl, refl)

inflight_bounded_example :
    (length refilled.inflight ≤ refilled.max_inflight) × Distinct refilled.inflight
inflight_bounded_example =
    inflight_bounded idle refilled
      (then_step acknowledged
        (then_step acknowledged
          (then_step outbox (then_step outbox at_start (admits (λ n. none)))
            (answers (λ d. d) (pos 5) (codes "m1") none))
          (retries (λ d. d) (pos 200) (λ id. none)))
        (admits (λ n. none)))
      refl

holds_first : has_id (codes "m1") sent.inflight ≡ true
unfolding has_id admit_pending on_publish_result bytes_eq
holds_first = refl

inflight_kept_example :
    (has_id (codes "m1") freed.inflight ≡ true)
    ⊎ (found_pending (lookup (codes "m1") acknowledged.rows) ≡ false)
inflight_kept_example =
    inflight_kept acknowledged sent freed (codes "m1") (retries (λ d. d) (pos 200) (λ id. none))
      holds_first

retry_delay_closed_example :
    (retry_delay (λ d. d -ℤ pos 1) (pos 10) (pos 400) 3
      ≡ clamp (pos 400) (pos (least (10 * 2 ^ 3) 400) -ℤ pos 1))
    × (pos 0 ≤ℤ retry_delay (λ d. d -ℤ pos 1) (pos 10) (pos 400) 3)
    × (retry_delay (λ d. d -ℤ pos 1) (pos 10) (pos 400) 3 ≤ℤ pos 400)
retry_delay_closed_example =
    retry_delay_closed (λ d. d -ℤ pos 1) 10 400 3 (omega arith) (omega arith) (omega arith)
