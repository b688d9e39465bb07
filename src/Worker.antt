-- ===== src/Worker.antt =====
-- The worker of crates/core/src/worker.rs with the types of handler.rs, error.rs and dead_letter.rs
-- that it uses. This file has what a registered handler is and how one attempt runs; Dispatch has
-- what happens to its outcome, and Build the builder. An error is the text that it displays.
pub mod Dispatch
pub mod Settling
pub mod Attempts
pub mod Life
pub mod RunLoop
pub mod Build
mod Tests
use queuey.Common.{ℕ, ◌-◌, ◌*◌, String, Bool, true, false, Option, none, some, leb, if◌then◌else◌}
use queuey.Retry.{Duration, RetryPolicy, or_else}
use queuey.QueueConfig.{QueueConfig}
use queuey.Envelope.{Envelope, Job, decode, decoded, undecodable}

-- error.rs, what a handler returns besides success
pub data JobError : Type 0 where
  retryable_error : String → JobError
  fatal_error : String → JobError
  deferred_error : (delay : Duration) (reason : String) → JobError

-- handler.rs
pub record JobContext : Type 0 where
  pub job_id : ℕ
  pub job_type : String
  pub queue : String
  pub attempt : ℕ
  pub max_attempts : ℕ
  pub deferrals : ℕ
  pub priority : ℕ
  pub age : Duration
  pub correlation_id : Option String

pub is_last_attempt : JobContext → Bool
is_last_attempt ctx = leb ctx.max_attempts ctx.attempt

-- How the task that runs a handler ends: `Ok(Ok(()))`, `Ok(Err(e))`, a panic, another `JoinError`.
pub data Joined : Type 0 where
  returned : Joined
  returned_error : JobError → Joined
  panicked : Joined
  cancelled : String → Joined

-- A spawned handler: how it ends, and whether that is within a time limit.
pub record Task : Type 0 where
  pub joined : Joined
  pub within : Duration → Bool

pub record JobHandler (J : Type 0) : Type 0 where
  pub handle : J → JobContext → Task
  pub set_retry_policy : J → Option RetryPolicy

-- The text of a retryable failure.
pub data Failure : Type 0 where
  reported : String → Failure
  timed_out : (limit : Duration) → Failure  -- "job timed out after {limit:?}"
  handler_panicked : Failure  -- "handler panicked"
  task_failed : String → Failure  -- "handler task failed: {e}"

pub data JobOutcome : Type 0 where
  success : JobOutcome
  decode_failed : String → JobOutcome
  retryable : Failure → JobOutcome
  fatal : String → JobOutcome
  deferral : (delay : Duration) (reason : String) → JobOutcome

-- The trait object `dyn ErasedHandler`; `run` has the clock as its first argument.
pub record ErasedHandler (V : Type 0) : Type 0 where
  pub declared_policy : RetryPolicy
  pub queue : String
  pub defer_priority : ℕ
  pub run : ℕ → Envelope V → Option Duration → RetryPolicy → JobOutcome × RetryPolicy

outcome_of : Joined → JobOutcome
outcome_of returned = success
outcome_of (returned_error (retryable_error e)) = retryable (reported e)
outcome_of (returned_error (fatal_error e)) = fatal e
outcome_of (returned_error (deferred_error delay reason)) = deferral delay reason
outcome_of panicked = retryable handler_panicked
outcome_of (cancelled e) = retryable (task_failed e)

-- The `match timeout` of `run`.
await_task : Option Duration → Task → JobOutcome
unfolding outcome_of
await_task none task = outcome_of task.joined
await_task (some limit) task =
    if task.within limit then outcome_of task.joined else retryable (timed_out limit)

module _ {V J : Type 0} (spec : Job V J) (handler : JobHandler J) where
  context_for : ℕ → Envelope V → RetryPolicy → JobContext
  context_for now_ms env policy = record {
    job_id = env.job_id;
    job_type = spec.name;
    queue = spec.queue_name;
    attempt = env.attempt;
    max_attempts = policy.max_attempts;
    deferrals = env.deferrals;
    priority = env.priority;
    age = (now_ms - env.enqueued_at_ms) * 1000000;
    correlation_id = env.correlation_id;
  }

  run_job : ℕ → Envelope V → Option Duration → RetryPolicy → JobOutcome × RetryPolicy
  unfolding context_for await_task decode
  run_job now_ms env timeout configured = elim (decode spec env) [
    | undecodable e ↦ (decode_failed e, configured)
    | decoded job ↦
        let policy = or_else (handler.set_retry_policy job) configured in
        (await_task timeout (handler.handle job (context_for now_ms env policy)), policy)
  ]

  -- ErasedJobHandler
  unfoldable pub erase : ErasedHandler V
  unfolding run_job
  erase = record {
    declared_policy = or_else spec.retry_policy spec.queue_config.retry;
    queue = spec.queue_name;
    defer_priority = or_else spec.queue_config.max_priority 0;
    run = run_job;
  }
