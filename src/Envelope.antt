-- ===== src/Envelope.antt =====
-- crates/core/src/envelope.rs and the static side of crates/core/src/job.rs: the message that a
-- job travels in. A JSON value is a parameter `V`, since it belongs to serde_json; a `Uuid` is its
-- 128-bit number. The counters are `u32`, and wrap as in a release build.
pub mod Journey
mod Tests
use queuey.Common.{ℕ, ◌+◌, ◌%◌, String, Option, none, some}
use queuey.Retry.{RetryPolicy}
use queuey.QueueConfig.{QueueConfig}

abbrev pub u32 : ℕ → ℕ
u32 n = n % 4294967296

pub record Envelope (V : Type 0) : Type 0 where
  pub job_id : ℕ
  pub job_type : String
  pub queue : String
  pub attempt : ℕ
  pub enqueued_at_ms : ℕ
  pub deferrals : ℕ
  pub priority : ℕ
  pub correlation_id : Option String
  pub payload : V

-- A decoded payload, or the text of serde's error.
pub data Decoded (J : Type 0) : Type 0 where
  decoded : J → Decoded J
  undecodable : String → Decoded J

-- The associated items of a `Job`, with the JSON conversions that serde derives for it.
pub record Job (V J : Type 0) : Type 0 where
  pub name : String  -- NAME
  pub queue_name : String  -- QUEUE.name()
  pub queue_config : QueueConfig  -- QUEUE.config()
  pub retry_policy : Option RetryPolicy
  pub to_value : J → Option V
  pub from_value : V → Decoded J

module _ {V : Type 0} where
  -- Envelope::raw; the fresh id and the clock are arguments.
  unfoldable pub raw : (id now : ℕ) → String → String → V → Envelope V
  raw id now job_type queue payload = record {
    job_id = id;
    job_type = job_type;
    queue = queue;
    attempt = 1;
    enqueued_at_ms = now;
    deferrals = 0;
    priority = 0;
    correlation_id = none;
    payload = payload;
  }

  -- Envelope::new; `none` is the serialization error.
  unfoldable pub new_envelope : {J : Type 0} → Job V J → (id now : ℕ) → J → Option (Envelope V)
  unfolding raw
  new_envelope spec id now job = elim (spec.to_value job) [
    | none ↦ none
    | some payload ↦ some (raw id now spec.name spec.queue_name payload)
  ]

  pub with_correlation_id : Envelope V → String → Envelope V
  with_correlation_id env id = record env { correlation_id = some id }

  unfoldable pub decode : {J : Type 0} → Job V J → Envelope V → Decoded J
  decode spec env = spec.from_value env.payload

  unfoldable pub next_attempt : Envelope V → Envelope V
  next_attempt env = record env { attempt = u32 (env.attempt + 1); priority = 0 }

  unfoldable pub deferred : Envelope V → ℕ → Envelope V
  deferred env priority = record env { deferrals = u32 (env.deferrals + 1); priority = priority }
