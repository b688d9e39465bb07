-- ===== src/Reconnect.antt =====
-- crates/rabbitmq/src/reconnect.rs: whether and when the RabbitMQ backend tries again to connect. The
-- error of the last attempt is a type parameter.
pub mod Outage
mod Tests
use queuey.Common.{ℕ, Bool, true, false, Option, none, some, leb, ◌==◌, if◌then◌else◌}
use queuey.Retry.{Duration, F64, Floats, Backoff, exponential, compute_delay}

pub data Rebuilding : Type 0 where
  connection consumer : Rebuilding

pub record Attempt (E : Type 0) : Type 0 where
  pub failures : ℕ
  pub error : Option E
  pub rebuilding : Rebuilding

-- Attempt::first
pub first_attempt : {E : Type 0} → Rebuilding → Attempt E
first_attempt rebuilding = record { failures = 0; error = none; rebuilding = rebuilding }

-- Attempt::after
unfoldable pub attempt_after : {E : Type 0} → Rebuilding → ℕ → E → Attempt E
attempt_after rebuilding failures error = record {
  failures = failures;
  error = some error;
  rebuilding = rebuilding;
}

pub record BackoffPolicy : Type 0 where
  pub max_attempts : Option ℕ
  pub backoff : Backoff

-- BackoffPolicy::default, with the factor 2.0 as an argument.
pub default_backoff_policy : (two : F64) → BackoffPolicy
default_backoff_policy two = record {
  max_attempts = none;
  backoff = exponential 500000000 two 30000000000 true;
}

pub set_max_attempts : BackoffPolicy → Option ℕ → BackoffPolicy
set_max_attempts policy attempts = record policy { max_attempts = attempts }

pub set_backoff : BackoffPolicy → Backoff → BackoffPolicy
set_backoff policy backoff = record policy { backoff = backoff }

-- `self.max_attempts.is_some_and(|max| failures >= max)`
abbrev reached : Option ℕ → ℕ → Bool
reached none failures = false
reached (some most) failures = leb most failures

-- BackoffPolicy::next_delay
unfoldable pub next_delay : {E : Type 0} → Floats → BackoffPolicy → Attempt E → Option Duration
next_delay fl policy attempt =
    if reached policy.max_attempts attempt.failures
    then none
    else if attempt.failures == 0
    then some 0
    else some (compute_delay fl policy.backoff attempt.failures)
