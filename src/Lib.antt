-- ===== src/Lib.antt =====
-- A model of queuey, a library of typed job queues: a producer publishes the envelope of a job on a
-- queue of a backend, and a worker consumes the queue, runs the job's handler and settles the
-- delivery: acknowledged, retried later, deferred or dead-lettered. A backend is in memory or on
-- RabbitMQ.
--
-- The files, and the code that they are about:
--   Common: shared names, lists with the native `length`, and maps as association lists.
--   Retry: crates/core/src/retry.rs. `Backoff`, `RetryPolicy`, `decide`, `compute_delay`. A duration
--     is a number of nanoseconds; `f64`, its conversions and the random source are the fields of
--     `Floats`, which every definition that uses them takes as an argument.
--   QueueConfig: crates/core/src/queue.rs. `QueueConfig` with its setters, `QueueSet`, `from_name`.
--   Envelope: crates/core/src/envelope.rs and job.rs. `Envelope`, `next_attempt`, `deferred`. The
--     JSON value of a payload is a type parameter and serde's conversions are fields of `Job`.
--   Topology: crates/rabbitmq/src/topology.rs. The arguments of the broker's queues and
--     `deferred_ttl_ms`, the time in a hold queue; Topology/Names has the names of queues, and
--     `check_deferrable_name` of crates/rabbitmq/src/backend.rs.
--   DurationLiteral: crates/macros/src/duration.rs. `parse_millis` and `parse_lit`, on texts as lists of
--     code points; which of them are white space is a parameter.
--   Memory: crates/core/src/memory.rs. Memory.antt has the state behind the mutex; Memory/Api the
--     operations of `MemoryBackend` and `MemoryDelivery`; Memory/Consumer the critical sections of
--     `consume`, `consumer_loop`, `ConsumerGuard` and `DeliveryReceiver`. A spawned task that waits
--     is a `Timer`. Memory/World has the interleavings: one step per operation on the locked state,
--     in any order, with what it creates and what it drops. Where an operation checks `closed` under
--     one lock and acts under a later one, its step makes no use of the check. Memory/Lanes has the
--     abstract queue, one lane for each priority. Memory/Window has one consumer with its semaphore,
--     channel and signal, among the steps of World.
--   Worker: crates/core/src/worker.rs with handler.rs, error.rs and dead_letter.rs. Worker.antt has
--     one run of a handler (`ErasedJobHandler::run`), whose task is a parameter: how it ends, and
--     whether within a limit. Worker/Dispatch has `dispatch`, as the list of its effects in order;
--     Worker/Build has `WorkerBuilder`. Worker/RunLoop has `Worker::run` and `consume_into`: the start
--     of the consumers one after the other, the loop, the consumers, the jobs in flight and the handle
--     as tasks, one step of one of them at a time.
--   Producer: crates/core/src/producer.rs, over a record of the operations of the `Backend` trait
--     (crates/core/src/backend.rs); Producer/Memory fills it with the in-memory backend.
--   Reconnect: crates/rabbitmq/src/reconnect.rs. `BackoffPolicy` and `next_delay`, on the backoff of
--     Retry.
--   Rabbitmq: crates/rabbitmq. Rabbitmq/Options and Rabbitmq/Errors have options.rs and error.rs, Rabbitmq/Codec
--     codec.rs. Rabbitmq/Connection has `ConnectionHandle` of connection.rs and Rabbitmq/Pool the
--     `ConfirmChannels` of publisher.rs, both as steps of concurrent tasks. Rabbitmq/Publisher and
--     Rabbitmq/Delivery have publisher.rs, delivery.rs and `discard_malformed` of backend.rs, as actions
--     over Rabbitmq/Calls: a log of the calls of lapin, with an environment that answers each.
--     Rabbitmq/Declare has `declare` of backend.rs with `declare_topology`, `remember` and `redeclare` of connection.rs.
--     Rabbitmq/Stream has the stream of deliveries, `delivery_stream` and `recover` of backend.rs, over questions
--     that an environment answers (Rabbitmq/Stream/Ask). Rabbitmq/Settle joins `dispatch` to Rabbitmq/Delivery.
--   Macros: crates/macros. Macros/Attrs has attrs.rs with `retry(...)`, Macros/Queues and Macros/SnakeCase
--     queues.rs, and Macros/Job job.rs. The keys and values of an attribute are given, since syn parses them; what the
--     generated code evaluates to stands in for its tokens.
--
-- How the parts meet: `dispatch` asks the policy of Retry with the attempt number of the envelope,
-- the settlements that it chooses are the operations of Memory/Api, and those reschedule an
-- envelope that `next_attempt` or `deferred` made. Worker/Life follows a job along its retries. On
-- RabbitMQ the same settlements are those of Rabbitmq/Delivery, which publish into the hold queues of
-- Topology. Macros/Queues makes a `QueueSet` of QueueConfig, and Macros/Attrs a policy of Retry.
--
-- Bounds: the counters of an envelope are `u32` and wrap; the wake-up signal and the counter of
-- failed settlements are `u64` and wrap; a hold counter stops at 0 as `saturating_sub` does. The life
-- of a job runs on fuel, and the attempts that the policy leaves, and one, are enough.
--
-- The loop of `recover` runs on fuel, and the failures that its policy allows are enough. The loop of
-- `delivery_stream` takes as much as a broker sends messages that do not decode, so what is said of it holds
-- for any fuel. The run loop, the pool, the connection and the window have no fuel: their runs are relations.
--
-- Not modelled: log output; the clock, which is an argument; JSON. Of crates/rabbitmq: making the backend
-- (`with_options`), closing it, and the test for TLS. The best-effort closing of the channels of `declare` and
-- `redeclare` is left out. Of crates/macros: reading the manifest for the core crate, and the parsing and
-- printing of tokens, which are syn's and quote's. crates/queuey only passes names on.

pub mod Common
pub mod Retry
pub mod QueueConfig
pub mod Envelope
pub mod Topology
pub mod DurationLiteral
pub mod Memory
pub mod Producer
pub mod Reconnect
pub mod Rabbitmq
pub mod Worker
pub mod Macros
