-- ===== src/Scheduler/Steps.antt =====
-- The steps of the loop of src/internal/gatewaysim/scheduler.go on the rows in flight.
use project1_iot_server.Clock.{Time, Duration}
use project1_iot_server.Uuid.{Uuid}
use project1_iot_server.Telemetry.Errors.{Error}
use project1_iot_server.Outbox.{Row, Outbox}
use project1_iot_server.Scheduler.{
  Scheduler, admit, on_publish_result, sync_inflight, process_due_retries,
}
use project1_iot_server.Scheduler.Admission.{admit_pending}
use project1_iot_server.Prelude.{ℕ, ◌<◌, Option, length}

-- One thing that the loop does while the outbox is `o`. A new batch is only made where a slot is free.
pub data Step (o : Outbox) (a : Scheduler) : Scheduler → Type 0 where
  answers :
      (jitter : Duration → Duration) (now : Time) (id : Uuid) (answer : Option Error)
      → Step o a (on_publish_result jitter now id answer a)
  syncs : (reads : Uuid → Option Error) → Step o a (sync_inflight reads o a).1
  retries :
      (jitter : Duration → Duration) (now : Time) (reads : Uuid → Option Error)
      → Step o a (process_due_retries jitter now reads o a).1
  admits : (reads : ℕ → Option Error) → Step o a (admit_pending reads o a).1
  generates : (row : Row) → length a.inflight < a.max_inflight → Step o a (admit row a)

-- The outbox may change between two steps.
pub data Run (a : Scheduler) : Scheduler → Type 0 where
  at_start : Run a a
  then_step : {b c : Scheduler} (o : Outbox) → Run a b → Step o b c → Run a c
