-- ===== src/Rabbitmq/Samples.antt =====
-- A broker that answers well, a queue and options, which the tests of the RabbitMQ backend share.
use queuey.Common.{ℕ, true, none}
use queuey.QueueConfig.{QueueConfig}
use queuey.Retry.{no_backoff}
use queuey.Rabbitmq.Options.{RabbitMqOptions}
use queuey.Rabbitmq.Calls.{Broker, ok, confirm_ack}

abbrev pub willing : Broker ℕ
willing = record {
  channel_taken = λ log. none;
  channel_created = λ log. none;
  declared = λ log. none;
  published = λ log. none;
  confirmed = λ log. ok (confirm_ack none);
  acked = λ log. ok true;
  rejected = λ log. ok true;
}

abbrev pub emails : QueueConfig
emails = record {
  name = "emails";
  prefetch = 16;
  retry = record { max_attempts = 3; backoff = no_backoff };
  durable = true;
  message_ttl = none;
  max_priority = none;
}

abbrev pub options : RabbitMqOptions
options = record {
  connection_name = none;
  dead_suffix = ".dead";
  declare_dead_letter_queues = true;
  deferred_suffix = ".deferred";
  retry_granularity = 1000000000;
  deferred_granularity = 1000000000;
  publish_concurrency = 8;
  reconnect = none;
}
