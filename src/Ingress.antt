-- ===== src/Ingress.antt =====
-- src/internal/mqttingress/ingress.go: the bounded queue, the workers and the ACK behind a commit. The
-- state that the goroutines share is a record, and each of their steps a function on it.
pub mod Tally
pub mod Measure
pub mod Process
pub mod Steps
pub mod Counted
pub mod Acks
pub mod Drained
pub mod Emptied
use project1_iot_server.Clock.{Time, Duration}
use project1_iot_server.Telemetry.Errors.{Result, ok, err}
use project1_iot_server.Telemetry.Topic.{ParsedTopic, parse_topic}
use project1_iot_server.Telemetry.Model.{Limits}
use project1_iot_server.Telemetry.Ack.{CommitAck, committed, duplicate_committed}
use project1_iot_server.Telemetry.Message.{Platform, Message}
use project1_iot_server.Store.{Db}
use project1_iot_server.Store.Persist.{PersistResult}
use project1_iot_server.Prelude.{
  ℕ, suc, ◌+◌, Bool, true, false, not, ◌&&◌, ◌||◌, Option, none, some, List, [], ◌∷◌, ◌++◌, ltb,
  leb, ◌==◌, if◌then◌else◌, length, ℤ, pos, pos_part, ltb_ℤ, leb_ℤ, Bytes,
}

-- AdmissionDecision
pub data AdmissionDecision : Type 0 where
  accepted not_running rejected_stopping retained_message oversized invalid_topic full :
      AdmissionDecision

-- Options, less the logger
pub record Options : Type 0 where
  pub queue_capacity : ℤ
  pub worker_count : ℤ
  pub max_payload_bytes : ℤ
  pub persist_timeout : Duration
  pub publish_timeout : Duration

-- item
pub record Item : Type 0 where
  pub topic : Bytes
  pub payload : Bytes
  pub received_at : Time

-- Delivery
pub record Delivery : Type 0 where
  pub topic : Bytes
  pub payload : Bytes
  pub qos : ℕ
  pub retained : Bool

-- The item of a worker: received from the queue, counted as processed, persisted and waiting for its ACK,
-- or before the deferred part of process.
pub data Work : Type 0 where
  received taken : Item → Work
  persisted : Message → PersistResult → Work
  ending : Work

-- A call of Admit that has sent its item to the queue: before it counts it, before it reads the length
-- of the queue, or with the length that it read.
pub data Admitting : Type 0 where
  item_sent item_counted : Admitting
  depth_read : ℕ → Admitting

-- counters, less the sum of the processing times. They do not wrap: 2 ^ 63 events do not happen.
pub record Counters : Type 0 where
  pub accepted : ℕ
  pub rejected_not_running : ℕ
  pub rejected_stopping : ℕ
  pub rejected_retained : ℕ
  pub rejected_oversized : ℕ
  pub rejected_invalid_topic : ℕ
  pub queue_full : ℕ
  pub queue_high_water : ℕ
  pub processed : ℕ
  pub validation_rejected : ℕ
  pub persist_failures : ℕ
  pub commit_unconfirmed : ℕ
  pub identity_mismatch : ℕ
  pub ack_build_failures : ℕ
  pub committed : ℕ
  pub duplicate_committed : ℕ
  pub samples_new : ℕ
  pub ack_published : ℕ
  pub ack_publish_failures : ℕ
  pub processing_count : ℕ

-- Ingress, with the tables of its repository and all deliveries handed to its publisher.
pub record State : Type 0 where
  pub capacity : ℕ
  pub worker_count : ℕ
  pub max_payload_bytes : ℤ
  pub started : Bool
  pub draining : Bool
  pub stopping : Bool
  pub queue : List Item
  -- the calls of Admit that hold the read lock behind their send
  pub admitting : List Admitting
  -- the workers that have not returned
  pub running : ℕ
  pub working : List Work
  pub counters : Counters
  pub db : Db
  pub deliveries : List Delivery

-- The rest of the server: the packages, the limits of the validator, and json.Marshal of an ACK.
pub record Services : Type 0 where
  pub platform : Platform
  pub limits : Limits
  pub format_time : Time → Bytes
  pub marshal : CommitAck → Option Bytes

abbrev pub zero_counters : Counters
zero_counters = record {
  accepted = 0;
  rejected_not_running = 0;
  rejected_stopping = 0;
  rejected_retained = 0;
  rejected_oversized = 0;
  rejected_invalid_topic = 0;
  queue_full = 0;
  queue_high_water = 0;
  processed = 0;
  validation_rejected = 0;
  persist_failures = 0;
  commit_unconfirmed = 0;
  identity_mismatch = 0;
  ack_build_failures = 0;
  committed = 0;
  duplicate_committed = 0;
  samples_new = 0;
  ack_published = 0;
  ack_publish_failures = 0;
  processing_count = 0;
}

-- New, where the validator, the repository and the publisher are not nil.
unfoldable pub new_ingress : Options → Db → Option State
new_ingress o db =
    if leb_ℤ o.queue_capacity (pos 0)
      || leb_ℤ o.worker_count (pos 0)
      || leb_ℤ o.max_payload_bytes (pos 0)
      || leb_ℤ o.persist_timeout (pos 0)
      || leb_ℤ o.publish_timeout (pos 0)
    then none
    else some (record {
      capacity = pos_part o.queue_capacity;
      worker_count = pos_part o.worker_count;
      max_payload_bytes = o.max_payload_bytes;
      started = false;
      draining = false;
      stopping = false;
      queue = [];
      admitting = [];
      running = 0;
      working = [];
      counters = zero_counters;
      db = db;
      deliveries = [];
    })

-- Start
unfoldable pub start : State → Option State
start s =
    if s.started
    then none
    else if s.draining
    then none
    else some (record s { started = true; running = s.worker_count })

-- recordQueueHighWater
unfoldable pub record_high_water : ℕ → ℕ → ℕ → ℕ
record_high_water capacity current observed =
    let bounded = if ltb capacity observed then capacity else observed in
    if leb bounded current then current else bounded

-- The send of Admit, which does not block. What follows a send is up to the next three functions.
unfoldable pub enqueue : Item → State → AdmissionDecision × State
enqueue it s =
    if ltb (length s.queue) s.capacity
    then (accepted, record s { queue = s.queue ++ (it ∷ []); admitting = item_sent ∷ s.admitting })
    else (
      full,
      record s { counters = record s.counters { queue_full = suc s.counters.queue_full } },
    )

-- The count of an accepted item, with the calls `rest` behind it.
unfoldable pub count_accepted : List Admitting → State → State
count_accepted rest s = record s {
  admitting = rest;
  counters = record s.counters { accepted = suc s.counters.accepted };
}

-- The length of the queue, which is read for the mark.
unfoldable pub read_depth : List Admitting → List Admitting → State → State
read_depth xs ys s = record s { admitting = xs ++ (depth_read (length s.queue) ∷ ys) }

-- The update of the mark, with which Admit returns.
unfoldable pub raise_mark : ℕ → List Admitting → State → State
unfolding record_high_water
raise_mark depth rest s = record s {
  admitting = rest;
  counters = record s.counters {
    queue_high_water = record_high_water s.capacity s.counters.queue_high_water depth;
  };
}

-- The end of Admit, by the parsed topic.
unfoldable pub admit_topic : Result ParsedTopic → Item → State → AdmissionDecision × State
admit_topic (err e) it s = (
  invalid_topic,
  record s {
    counters = record s.counters { rejected_invalid_topic = suc s.counters.rejected_invalid_topic };
  },
)
admit_topic (ok t) it s = enqueue it s

-- Admit
unfoldable pub admit : Bytes → Bytes → Time → Bool → State → AdmissionDecision × State
admit topic payload received_at retained s =
    let c = s.counters in
    if not s.started
    then (
      not_running,
      record s { counters = record c { rejected_not_running = suc c.rejected_not_running } },
    )
    else if s.stopping
    then (
      rejected_stopping,
      record s { counters = record c { rejected_stopping = suc c.rejected_stopping } },
    )
    else if retained
    then (
      retained_message,
      record s { counters = record c { rejected_retained = suc c.rejected_retained } },
    )
    else if ltb_ℤ s.max_payload_bytes (pos (length payload))
    then (
      oversized,
      record s { counters = record c { rejected_oversized = suc c.rejected_oversized } },
    )
    else admit_topic (parse_topic topic)
        (record { topic = topic; payload = payload; received_at = received_at }) s

-- StopAdmission
unfoldable pub stop_admission : State → State
stop_admission s = record s { stopping = true }

-- Accepting
unfoldable pub accepting : State → Bool
accepting s = s.started && not s.stopping

-- Drain up to its wait for the workers.
unfoldable pub begin_drain : State → State
begin_drain s =
    if s.started
    then stop_admission (record s { draining = true })
    else record s { draining = true }

-- Drain waits for this; a context that ends first only cancels the work of the workers.
unfoldable pub drained : State → Bool
drained s = s.draining && s.running == 0
