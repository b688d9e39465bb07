-- ===== src/Rabbitmq/Delivery/Willing.antt =====
-- With a broker that answers well, a delivery is handed over (crates/rabbitmq/src/delivery.rs).
use queuey.Rabbitmq.Codec.{props_for, BasicProperties}
use queuey.Common.{String, ℕ, ◌≡◌, ap, ◌∙◌, true, none, some, ◌∷◌, arith}
use queuey.Common.Map.{get}
use queuey.Retry.{Duration}
use queuey.QueueConfig.{QueueConfig}
use queuey.Envelope.{Envelope}
use queuey.Topology.{deferred_queue_args, deferred_ttl_ms}
use queuey.Topology.Names.{check_deferrable_name, deferred_queue_name}
use queuey.Topology.Names.Deferrable.{check_deferrable_name_iff}
use queuey.Rabbitmq.Errors.{short_string}
use queuey.Rabbitmq.Calls.{
  unless_failed, publishes, takes_channel, declares, takes_declare_channel, acks, confirm_ack, Log,
  ok, Broker,
}
use queuey.Rabbitmq.Publisher.{
  Hold, retry_hold, deferral_hold, granularity, deferred_queue, confirmation_to_result,
  publish_confirmed, publish_into, publish_held,
}
use queuey.Rabbitmq.Publisher.Handover.{published_log, held_log}
use queuey.Rabbitmq.Delivery.{
  Publisher, RabbitMqDelivery, ack_original, retry_delivery, defer_held_delivery,
}

-- Every call succeeds, every publish is confirmed, and every ack is taken.
pub record IsWilling {B : Type 0} (broker : Broker B) : Type 0 where
  pub takes : (log : Log B) → broker.channel_taken log ≡ none
  pub declares_all : (log : Log B) → broker.declared log ≡ none
  pub publishes_all : (log : Log B) → broker.published log ≡ none
  pub confirms : (log : Log B) → broker.confirmed log ≡ ok (confirm_ack none)
  pub acks_all : (log : Log B) → broker.acked log ≡ ok true

publish_confirmed-succeeds :
    {B : Type 0} (broker : Broker B) (queue : String) (payload : B) (properties : BasicProperties)
    (log : Log B)
    → IsWilling broker
    → short_string queue ≡ none
    → publish_confirmed broker queue payload properties log
      ≡ (published_log queue payload properties log, none)
unfolding publish_confirmed confirmation_to_result
publish_confirmed-succeeds broker queue payload properties log w named =
    let logged = takes_channel queue ∷ log in
    ground (
      arith,
      w.takes logged,
      w.publishes_all (publishes queue true payload properties ∷ logged),
      w.confirms (published_log queue payload properties log),
    )

-- Every hold queue of an accepted name has a name that lapin takes.
short_string-deferred :
    (queue suffix : String) (t : ℕ)
    → check_deferrable_name queue suffix ≡ none
    → short_string (deferred_queue_name queue suffix t) ≡ none
unfolding short_string
short_string-deferred queue suffix t accepted =
    let fits = (check_deferrable_name_iff queue suffix).0 accepted t in ground arith

module _ {V B : Type 0} where
  publish_held-succeeds :
      (broker : Broker B) (publisher : Publisher V B) (next : Envelope V) (delay : Duration)
      (hold : Hold) (log : Log B) (config : QueueConfig) (payload : B) (ttl_ms : ℕ)
      → IsWilling broker
      → get next.queue publisher.configs ≡ some config
      → check_deferrable_name next.queue publisher.options.deferred_suffix ≡ none
      → publisher.to_bytes next ≡ some payload
      → deferred_ttl_ms delay (granularity hold publisher.options) ≡ some ttl_ms
      → publish_held broker publisher next delay hold log ≡ (
        held_log publisher next config ttl_ms
            (deferred_queue publisher next.queue ttl_ms)
            payload
            log,
        none,
      )
  unfolding publish_held publish_into deferred_queue
  publish_held-succeeds broker publisher next delay hold log config payload ttl_ms w known named
        bytes fits =
      let queue = deferred_queue publisher next.queue ttl_ms in
      let short : short_string queue ≡ none =
        short_string-deferred next.queue publisher.options.deferred_suffix ttl_ms named in
      let opened = takes_declare_channel queue ∷ log in
      let start = declares queue config.durable (deferred_queue_args config ttl_ms) ∷ opened in
      let last =
        publish_confirmed-succeeds broker queue payload (props_for publisher.uuid_text next) start w
          short in
      let held : publish_held broker publisher next delay hold log
          ≡ publish_into broker publisher next config ttl_ms queue log =
        cc in
      held ∙ ground (arith, w.takes opened, w.declares_all start)

  -- A retry and a deferral succeed, and end with the ack, directly after the next envelope went into
  -- the hold queue, if the broker answers well, the envelope's queue was declared and
  -- `check_deferrable_name` accepts its name, the envelope serializes, and the delay is one that a
  -- hold queue can wait for.
  pub retry_delivery-succeeds :
      (broker : Broker B) (delivery : RabbitMqDelivery V B) (next : Envelope V) (delay : Duration)
      (log : Log B) (config : QueueConfig) (payload : B) (ttl_retry ttl_defer : ℕ)
      → IsWilling broker
      → get next.queue delivery.publisher.configs ≡ some config
      → check_deferrable_name next.queue delivery.publisher.options.deferred_suffix ≡ none
      → delivery.publisher.to_bytes next ≡ some payload
      → deferred_ttl_ms delay delivery.publisher.options.retry_granularity ≡ some ttl_retry
      → deferred_ttl_ms delay delivery.publisher.options.deferred_granularity ≡ some ttl_defer
      → (retry_delivery broker delivery next delay log ≡ (
        acks
            ∷ held_log delivery.publisher next config ttl_retry
                (deferred_queue delivery.publisher next.queue ttl_retry)
                payload
                log,
        none,
      ))
        × (defer_held_delivery broker delivery next delay log ≡ (
          acks
              ∷ held_log delivery.publisher next config ttl_defer
                  (deferred_queue delivery.publisher next.queue ttl_defer)
                  payload
                  log,
          none,
        ))
  unfolding retry_delivery defer_held_delivery ack_original granularity
  retry_delivery-succeeds broker delivery next delay log config payload ttl_retry ttl_defer w known
        named bytes retry_fits defer_fits =
      let p = delivery.publisher in
      let retry_log =
        held_log p next config ttl_retry (deferred_queue p next.queue ttl_retry) payload log in
      let defer_log =
        held_log p next config ttl_defer (deferred_queue p next.queue ttl_defer) payload log in
      let retried =
        publish_held-succeeds broker p next delay retry_hold log config payload ttl_retry w known
          named bytes retry_fits in
      let deferred =
        publish_held-succeeds broker p next delay deferral_hold log config payload ttl_defer w known
          named bytes defer_fits in
      (
        ap (unless_failed (ack_original broker delivery)) retried
            ∙ ground (arith, w.acks_all (acks ∷ retry_log)),
        ap (unless_failed (ack_original broker delivery)) deferred
            ∙ ground (arith, w.acks_all (acks ∷ defer_log)),
      )
