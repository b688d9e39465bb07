-- ===== src/Rabbitmq/Options.antt =====
-- `RabbitMqOptions` of crates/rabbitmq/src/options.rs, its default and its setters. The error of a failed
-- attempt to connect, which a reconnect policy may look at, is its text.
use queuey.Common.{ℕ, String, Bool, true, Option, none, some}
use queuey.Retry.{Duration, F64, Floats}
use queuey.Reconnect.{Attempt, next_delay, default_backoff_policy}

-- The trait of reconnect.rs.
pub record ReconnectPolicy : Type 0 where
  pub delay_of : Attempt String → Option Duration

pub record RabbitMqOptions : Type 0 where
  pub connection_name : Option String
  pub dead_suffix : String
  pub declare_dead_letter_queues : Bool
  pub deferred_suffix : String
  pub retry_granularity : Duration
  pub deferred_granularity : Duration
  pub publish_concurrency : ℕ
  pub reconnect : Option ReconnectPolicy

-- default_policy of reconnect.rs
pub default_reconnect_policy : Floats → (two : F64) → ReconnectPolicy
default_reconnect_policy fl two = record { delay_of = next_delay fl (default_backoff_policy two) }

pub default_options : Floats → (two : F64) → RabbitMqOptions
default_options fl two = record {
  connection_name = none;
  dead_suffix = ".dead";
  declare_dead_letter_queues = true;
  deferred_suffix = ".deferred";
  retry_granularity = 1000000000;
  deferred_granularity = 1000000000;
  publish_concurrency = 8;
  reconnect = some (default_reconnect_policy fl two);
}

pub set_connection_name : RabbitMqOptions → String → RabbitMqOptions
set_connection_name options name = record options { connection_name = some name }

pub set_dead_suffix : RabbitMqOptions → String → RabbitMqOptions
set_dead_suffix options suffix = record options { dead_suffix = suffix }

pub set_declare_dead_letter_queues : RabbitMqOptions → Bool → RabbitMqOptions
set_declare_dead_letter_queues options declare = record options {
  declare_dead_letter_queues = declare;
}

pub set_deferred_suffix : RabbitMqOptions → String → RabbitMqOptions
set_deferred_suffix options suffix = record options { deferred_suffix = suffix }

pub set_retry_granularity : RabbitMqOptions → Duration → RabbitMqOptions
set_retry_granularity options granularity = record options { retry_granularity = granularity }

pub set_deferred_granularity : RabbitMqOptions → Duration → RabbitMqOptions
set_deferred_granularity options granularity = record options { deferred_granularity = granularity }

pub set_publish_concurrency : RabbitMqOptions → ℕ → RabbitMqOptions
set_publish_concurrency options publishes = record options { publish_concurrency = publishes }

pub set_reconnect : RabbitMqOptions → Option ReconnectPolicy → RabbitMqOptions
set_reconnect options policy = record options { reconnect = policy }

-- reconnect_with
pub set_reconnect_with : RabbitMqOptions → ReconnectPolicy → RabbitMqOptions
set_reconnect_with options policy = set_reconnect options (some policy)
