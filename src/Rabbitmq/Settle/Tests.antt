-- ===== src/Rabbitmq/Settle/Tests.antt =====
-- A worker with one handler, which fails with an error that is retryable, on the queue "emails".
use queuey.Common.{Option, ℕ, ◌≡◌, ◌++◌, String, true, none, some, List, [], ◌∷◌}
use queuey.Common.Map.{Map}
use queuey.Retry.{fixed}
use queuey.Retry.Tests.{whole_floats}
use queuey.Worker.{ErasedHandler, reported, retryable}
use queuey.Worker.Dispatch.{Reason, Settlement, Effect, settled, dispatch}
use queuey.Rabbitmq.Errors.{RabbitMqError}
use queuey.Rabbitmq.Calls.{Log}
use queuey.Rabbitmq.Samples.{willing, emails, options}
use queuey.Rabbitmq.Delivery.{RabbitMqDelivery}
use queuey.Rabbitmq.Settle.{carry_out}
use queuey.Rabbitmq.Settle.Once.{Settles, failures_of, dispatch-Settles}

abbrev flaky : ErasedHandler ℕ
flaky = record {
  declared_policy = record { max_attempts = 3; backoff = fixed 20 };
  queue = "emails";
  defer_priority = 10;
  run = λ now env limit configured.
      (retryable (reported "refused"), record { max_attempts = 3; backoff = fixed 20 });
}

abbrev handlers : Map (ErasedHandler ℕ)
handlers = ("send", flaky) ∷ []

abbrev taken : RabbitMqDelivery ℕ ℕ
taken = record {
  envelope = record {
    job_id = 1;
    job_type = "send";
    queue = "emails";
    attempt = 1;
    enqueued_at_ms = 0;
    deferrals = 0;
    priority = 0;
    correlation_id = none;
    payload = 5;
  };
  publisher = record {
    options = options;
    configs = ("emails", emails) ∷ [];
    to_bytes = λ envelope. some envelope.payload;
    uuid_text = λ id. "id";
  };
}

abbrev reason_text : Reason → String
reason_text reason = "failed"

abbrev no_calls : Log ℕ
no_calls = []

dispatch-Settles_example :
    let effects = dispatch whole_floats handlers [] true none 2000 taken.envelope in
    (s : Settlement ℕ) × (before : List (Effect ℕ)) × (result : Log ℕ × Option RabbitMqError)
    × (effects ≡ before ++ settled s ∷ [])
    × Settles willing reason_text taken s no_calls result
    × (carry_out willing reason_text taken effects no_calls ≡ (result.0, failures_of result.1))
dispatch-Settles_example =
    dispatch-Settles willing reason_text taken whole_floats handlers [] true none 2000 no_calls
