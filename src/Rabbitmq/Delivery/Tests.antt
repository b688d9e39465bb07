-- ===== src/Rabbitmq/Delivery/Tests.antt =====
-- A delivery of the queue "emails" on a broker that answers well, and one that returns a publish.
use queuey.Common.{ℕ, ◌≡◌, refl, none, some, [], ◌∷◌}
use queuey.Common.Map.{get, Map}
use queuey.Envelope.{Envelope}
use queuey.QueueConfig.{QueueConfig}
use queuey.Topology.{deferred_ttl_ms}
use queuey.Topology.Names.{check_deferrable_name, deferred_queue_name, decimal, decimal_on}
use queuey.Rabbitmq.Samples.{willing, emails, options}
use queuey.Rabbitmq.Calls.{Log, Broker, ok, confirm_ack, acks}
use queuey.Rabbitmq.Publisher.{Publisher, retry_hold, deferral_hold, deferred_queue}
use queuey.Rabbitmq.Publisher.Handover.{held_log}
use queuey.Rabbitmq.Delivery.{
  RabbitMqDelivery, retry_delivery, defer_held_delivery, discard_malformed,
}
use queuey.Rabbitmq.Delivery.Settling.{AcksAfterHold, retry_delivery_lem}
use queuey.Rabbitmq.Delivery.Malformed.{Discards, discard_malformed_lem}
use queuey.Rabbitmq.Delivery.Willing.{IsWilling, retry_delivery-succeeds}

-- An unroutable publish: acked, with the message returned.
abbrev unroutable : Broker ℕ
unroutable = record willing { confirmed = λ log. ok (confirm_ack (some (312, "NO_ROUTE"))) }

abbrev known : Map QueueConfig
known = ("emails", emails) ∷ []

abbrev publisher : Publisher ℕ ℕ
publisher = record {
  options = options;
  configs = known;
  to_bytes = λ envelope. some envelope.payload;
  uuid_text = λ id. "id";
}

abbrev first : Envelope ℕ
first = record {
  job_id = 1;
  job_type = "send";
  queue = "emails";
  attempt = 1;
  enqueued_at_ms = 0;
  deferrals = 0;
  priority = 0;
  correlation_id = none;
  payload = 5;
}

abbrev second : Envelope ℕ
second = record first { attempt = 2 }

abbrev taken : RabbitMqDelivery ℕ ℕ
taken = record { envelope = first; publisher = publisher }

abbrev no_calls : Log ℕ
no_calls = []

abbrev half_minute : ℕ
half_minute = 30000000000

is_willing : IsWilling willing
is_willing = record {
  takes = λ log. refl;
  declares_all = λ log. refl;
  publishes_all = λ log. refl;
  confirms = λ log. refl;
  acks_all = λ log. refl;
}

retry_delivery_lem_example :
    AcksAfterHold unroutable taken second half_minute retry_hold no_calls
      (retry_delivery unroutable taken second half_minute no_calls)
    × AcksAfterHold unroutable taken second half_minute deferral_hold no_calls
        (defer_held_delivery unroutable taken second half_minute no_calls)
retry_delivery_lem_example = retry_delivery_lem unroutable taken second half_minute no_calls

discard_malformed_lem_example :
    Discards willing publisher "emails" 9 no_calls
      (discard_malformed willing publisher "emails" 9 no_calls)
discard_malformed_lem_example = discard_malformed_lem willing publisher "emails" 9 no_calls

abbrev in_hold : Log ℕ
in_hold =
    held_log publisher second emails 30000 (deferred_queue publisher second.queue 30000) 5 no_calls

found : get second.queue known ≡ some emails
unfolding get
found = refl

fits : check_deferrable_name second.queue options.deferred_suffix ≡ none
unfolding check_deferrable_name deferred_queue_name decimal decimal_on
fits = refl

waits : deferred_ttl_ms half_minute 1000000000 ≡ some 30000
unfolding deferred_ttl_ms
waits = refl

retry_delivery-succeeds_example :
    (retry_delivery willing taken second half_minute no_calls ≡ (acks ∷ in_hold, none))
    × (defer_held_delivery willing taken second half_minute no_calls ≡ (acks ∷ in_hold, none))
retry_delivery-succeeds_example =
    retry_delivery-succeeds willing taken second half_minute no_calls emails 5 30000 30000
      is_willing found fits refl waits waits
