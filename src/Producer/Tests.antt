-- ===== src/Producer/Tests.antt =====
-- A job that is a text, on a queue that holds one message.
use queuey.Producer.Memory.{enqueue_with-pending_of, memory_ops, made_for}
use queuey.Memory.Api.{Backend}
use queuey.Producer.{enqueued, now, enqueue_with}
use queuey.Common.{str_eq, if◌then◌else◌, ◌≡◌, refl, String, false, none, some, [], ◌∷◌, ◌++◌}
use queuey.QueueConfig.{new_config}
use queuey.Envelope.{Envelope, Job, decoded, decode}
use queuey.Memory.Outcomes.{pending_of}

abbrev send_email : Job String String
send_email = record {
  name = "SendEmail";
  queue_name = "emails";
  queue_config = new_config "emails";
  retry_policy = none;
  to_value = λ job. some job;
  from_value = λ value. decoded value;
}

abbrev waiting : Envelope String
waiting = made_for send_email 1 900 "first" none

abbrev busy : Backend String
busy = record {
  shared = record {
    queues =
        (
          "emails",
          record {
            config = new_config "emails";
            pending = waiting ∷ [];
            settled = [];
            dead = [];
            consumers = [];
            held = 0;
            signal = 0;
          },
        )
        ∷ [];
    closed = false;
  };
  timers = [];
  now = 0;
}

enqueue_with-pending_of_example :
    let later =
      enqueue_with memory_ops send_email 2 1000 "second"
        (record { correlation_id = some "order-7"; schedule = now })
        busy in
    (later.0 ≡ enqueued 2)
    × ((env : Envelope String) × ((name : String)
          → pending_of name later.1.shared ≡ (
              if str_eq "emails" name
              then pending_of name busy.shared ++ env ∷ []
              else pending_of name busy.shared))
        × (decode send_email env ≡ decoded "second")
        × (env.attempt ≡ 1)
        × (env.correlation_id ≡ some "order-7"))
enqueue_with-pending_of_example =
    enqueue_with-pending_of send_email 2 1000 "second" "second" (some "order-7") busy refl refl refl
