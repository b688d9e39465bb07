-- ===== src/Producer.antt =====
-- crates/core/src/producer.rs: publishing a job. The backend is a record of the operations of the
-- `Backend` trait that a producer calls, over a state `S` and with the error `E`; Producer/Memory
-- fills it with the in-memory backend. The queue set is an argument.
pub mod Memory
mod Tests
use queuey.Common.{ℕ, String, Option, none, some, List, [], map}
use queuey.Retry.{Duration, or_else}
use queuey.QueueConfig.{QueueConfig, QueueSet}
use queuey.Envelope.{Envelope, Job, new_envelope}

-- An operation gives `none` for `Ok(())`, or its error, with the state after it.
pub record BackendOps (S V E : Type 0) : Type 0 where
  pub declare : S → List QueueConfig → Option E × S
  pub publish : S → Envelope V → Option Duration → Option E × S
  pub defer : S → Envelope V → Duration → Option E × S

pub data Schedule : Type 0 where
  now : Schedule
  after : Duration → Schedule
  held_for : Duration → Schedule  -- Schedule::Deferred

pub record EnqueueOptions : Type 0 where
  pub correlation_id : Option String
  pub schedule : Schedule

-- EnqueueOptions::now, ::after, ::deferred and ::correlation_id
pub options_now : EnqueueOptions
options_now = record { correlation_id = none; schedule = now }

pub options_after : Duration → EnqueueOptions
options_after delay = record { correlation_id = none; schedule = after delay }

pub options_deferred : Duration → EnqueueOptions
options_deferred delay = record { correlation_id = none; schedule = held_for delay }

pub options_correlation_id : EnqueueOptions → String → EnqueueOptions
options_correlation_id options id = record options { correlation_id = some id }

-- `Result<Uuid>`, with the two ways to fail.
pub data Enqueued (E : Type 0) : Type 0 where
  enqueued : (id : ℕ) → Enqueued E
  not_serialized : Enqueued E
  refused : E → Enqueued E

module _ {S V E : Type 0} (ops : BackendOps S V E) where
  -- Producer::new, as far as the backend goes.
  pub new_producer : {Q : Type 0} → QueueSet Q → S → Option E × S
  new_producer set s = ops.declare s (map set.config set.all)

  -- `?`, and the id of the job.
  abbrev pub answer : ℕ → Option E × S → Enqueued E × S
  answer id (none, s) = (enqueued id, s)
  answer id (some e, s) = (refused e, s)

  -- The match on the schedule.
  unfoldable pub send : {J : Type 0} → Job V J → Schedule → Envelope V → S → Option E × S
  send spec now env s = ops.publish s env none
  send spec (after delay) env s = ops.publish s env (some delay)
  send spec (held_for delay) env s =
      ops.defer s (record env { priority = or_else spec.queue_config.max_priority 0 }) delay

  -- The fresh id and the clock are arguments.
  unfoldable pub enqueue_with :
      {J : Type 0} → Job V J → (id time : ℕ) → J → EnqueueOptions → S → Enqueued E × S
  unfolding send
  enqueue_with spec id time job options s = elim (new_envelope spec id time job) [
    | none ↦ (not_serialized, s)
    | some env ↦
        answer id
          (send spec options.schedule (record env { correlation_id = options.correlation_id }) s)
  ]

  pub enqueue : {J : Type 0} → Job V J → (id time : ℕ) → J → S → Enqueued E × S
  enqueue spec id time job s = enqueue_with spec id time job options_now s

  pub enqueue_after : {J : Type 0} → Job V J → (id time : ℕ) → J → Duration → S → Enqueued E × S
  enqueue_after spec id time job delay s = enqueue_with spec id time job (options_after delay) s

  -- Producer::defer
  pub enqueue_deferred : {J : Type 0} → Job V J → (id time : ℕ) → J → Duration → S → Enqueued E × S
  enqueue_deferred spec id time job delay s =
      enqueue_with spec id time job (options_deferred delay) s
