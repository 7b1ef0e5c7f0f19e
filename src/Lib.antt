-- ===== src/Lib.antt =====
-- A verification library of the IoT server: the path of telemetry from an MQTT delivery to the
-- application ACK of its commit.
--
-- A Gateway publishes a batch of samples on gateways/<gateway>/telemetry/<sensor>. The ingress admits
-- the delivery into a bounded queue; a worker validates it, stores it in one transaction, and only then
-- publishes the ACK.
--
-- - Prelude: the shared names; integers, byte strings and lists over the native natural numbers.
-- - Identifier: src/internal/gateway/identifier.go.
-- - Uuid, Clock, Json: what the program takes from github.com/google/uuid, time and encoding/json. The
--   uuid package, the JSON tokenizer and sha256 are parameters. A time is a count of nanoseconds since
--   the year 1, without bound.
-- - Telemetry: src/internal/telemetry up to a validated message: Errors (errors.go), Topic (topic.go),
--   Timestamp and Range (validation.go), Model (model.go), Decode (decode.go), Message (message.go),
--   Ack (ack.go).
-- - Store: the tables and the transaction of src/internal/telemetry: Metadata and Ledger
--   (postgres_ledger.go), Resources (postgres_resources.go), Reported (postgres_reported_state.go and
--   postgres_temporal.go), Persist (postgres_repository.go). A table is its rows. Each statement may
--   fail with a driver error, chosen by an argument; COMMIT succeeds, is lost, or takes effect though
--   it reports an error. Transactions run one after the other.
-- - Ingress: src/internal/mqttingress/ingress.go. The state that the goroutines share is a record, and
--   a relation has one constructor for each thing that a caller or a worker may do next. The send of
--   Admit, its count and its update of the mark are steps of their own, and so are the receipt of an
--   item, the start of process, Persist with the tests on its result, the ACK, and the deferred part of
--   process; calls of Admit and workers interleave between them. StopAdmission waits for the calls of
--   Admit that hold the read lock.
-- - Outbox: src/internal/gatewaysim/outbox.go and batch.go, the durable queue on the side of a Gateway.
--   Its tables are rows, a statement may fail, and COMMIT has the same fates as in Store.
--   Its child Acks is ack.go: the parser of a commit ACK and the deletion of the acknowledged row.
-- - Credential: src/internal/mqttcredential/model.go and reset_contract.go, the mutations of the MQTT
--   credential of a Gateway: Operation (the record and its validation), Versions (AllocateVersion,
--   BeginCredentialStatus), Complete (CompleteOperation), Replay (ReplayOperation), Reset
--   (CheckResetEligibility). An int64 version is an integer; strings that the source compares with
--   constants are data types with one constructor for any other string.
--   Its child Lifecycle is lifecycle.go: the methods of BrokerLifecycle on a record, with the exit of the
--   process as a step, and a machine of five phases that they are compared with.
-- - History: history_query.go (History, Floor, Micros, Counts), SelectAutoBucketResolution (Select) and
--   history_preparation.go with history_service.go (Service) of src/internal/telemetry. The reader and
--   the resolver are parameters, and each place that asks whether the context has ended reads a Boolean
--   of its own. A time keeps the offset of its zone, which the test of the year reads.
-- - Scheduler: the rows in flight of src/internal/gatewaysim/scheduler.go, as steps (Steps) of its loop
--   on the outbox of the moment: publish results, due retries, the synchronisation after an ACK and
--   admitPending (Admission), with the delays of retryDelay (Delays). The map of
--   entries is a list, a read fails by an argument, and the step of generate starts after the commit of
--   its batch.
-- - Outcome: a Go result with an error, which the next three parts use.
-- - Twin: src/internal/digitaltwin, identity.go with errors.go and protocol.go. Its children Cursor and
--   Relationship are cursor.go, with the packages for base64, JSON and UTF-8 as parameters; Read is
--   validation.go with read_preparation.go (Prepared) and read_service.go (Service), over a reader, a
--   resolver and a telemetry engine.
-- - ReadBounds: src/internal/config/read_bounds.go, over a lookup of the variables.
-- - Query: src/internal/httpserver/history_query_parser.go, whose instants are in Instant and whose
--   temporal query is in Temporal. A QueryError is its code and the error that it wraps.
-- - Tests: concrete runs.
--
-- Machine integers: int64 arithmetic wraps where the program computes it; the counters of the ingress
-- are natural numbers, since 2 ^ 63 events do not happen. No function needs fuel.
--
-- Not modelled: contexts and timeouts except as driver errors, logging, the MQTT and HTTP transports,
-- and the SQL of the other packages.
pub mod Prelude
pub mod Identifier
pub mod Uuid
pub mod Clock
pub mod Json
pub mod Telemetry
pub mod Store
pub mod Ingress
pub mod Outbox
pub mod Scheduler
pub mod Credential
pub mod History
pub mod Tests
pub mod Outcome
pub mod Twin
pub mod ReadBounds
pub mod Query
