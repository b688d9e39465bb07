-- ===== src/Rabbitmq/Delivery.antt =====
-- `RabbitMqDelivery` of crates/rabbitmq/src/delivery.rs, and `discard_malformed` of
-- crates/rabbitmq/src/backend.rs: how a message that was delivered is settled.
pub mod Settling
pub mod Willing
pub mod Malformed
mod Tests
use queuey.Common.{String, Bool, true, false, Option, none, some, ◌∷◌, if◌then◌else◌}
use queuey.Retry.{Duration}
use queuey.Envelope.{Envelope}
use queuey.Rabbitmq.Errors.{RabbitMqError, already_settled, amqp}
use queuey.Rabbitmq.Calls.{acks, rejects, Log, Action, Reply, ok, failed, Broker, calls, ◌>>◌}
use queuey.Rabbitmq.Publisher.{
  Publisher, retry_hold, deferral_hold, publish_held, publish_dead_letter, publish_malformed,
}

pub record RabbitMqDelivery (V B : Type 0) : Type 0 where
  pub envelope : Envelope V
  pub publisher : Publisher V B

-- The fall-back of discard_malformed. What lapin answers is only logged.
abbrev pub reject_malformed : {B : Type 0} → Log B → Log B
reject_malformed log = rejects false ∷ log

-- The match on the answer to the ack.
abbrev pub after_malformed_ack : {B : Type 0} → Reply Bool → Log B → Log B
after_malformed_ack (ok done) log = log
after_malformed_ack (failed e) log = reject_malformed log

-- The match on the result of the publish.
abbrev pub after_malformed_publish : {B : Type 0} → Broker B → Log B × Option RabbitMqError → Log B
after_malformed_publish broker (log, none) =
    after_malformed_ack (broker.acked (acks ∷ log)) (acks ∷ log)
after_malformed_publish broker (log, some e) = reject_malformed log

module _ {V B : Type 0} where
  -- RabbitMqDelivery::settled
  abbrev pub check_settled :
      RabbitMqDelivery V B → Bool → (operation : String) → Option RabbitMqError
  check_settled delivery true operation = none
  check_settled delivery false operation =
      some (already_settled operation delivery.envelope.job_id delivery.envelope.queue)

  abbrev pub settled_reply :
      RabbitMqDelivery V B → Reply Bool → (operation : String) → Option RabbitMqError
  settled_reply delivery (ok done) operation = check_settled delivery done operation
  settled_reply delivery (failed e) operation = some (amqp e)

  unfoldable pub ack_original : Broker B → RabbitMqDelivery V B → Action B
  ack_original broker delivery = calls acks (λ log. settled_reply delivery (broker.acked log) "ack")

  unfoldable pub reject_original : Broker B → RabbitMqDelivery V B → Action B
  reject_original broker delivery =
      calls (rejects false) (λ log. settled_reply delivery (broker.rejected log) "reject")

  unfoldable pub ack_delivery : Broker B → RabbitMqDelivery V B → Action B
  ack_delivery broker delivery = ack_original broker delivery

  unfoldable pub dead_letter_delivery :
      Broker B → RabbitMqDelivery V B → (reason : String) → Action B
  dead_letter_delivery broker delivery reason =
      if delivery.publisher.options.declare_dead_letter_queues
      then publish_dead_letter broker delivery.publisher delivery.envelope reason
        >> ack_original broker delivery
      else reject_original broker delivery

  unfoldable pub retry_delivery :
      Broker B → RabbitMqDelivery V B → (next : Envelope V) → (delay : Duration) → Action B
  retry_delivery broker delivery next delay =
      publish_held broker delivery.publisher next delay retry_hold >> ack_original broker delivery

  unfoldable pub defer_held_delivery :
      Broker B → RabbitMqDelivery V B → (next : Envelope V) → (delay : Duration) → Action B
  defer_held_delivery broker delivery next delay =
      publish_held broker delivery.publisher next delay deferral_hold
      >> ack_original broker delivery

  unfoldable pub discard_malformed :
      Broker B → Publisher V B → (queue : String) → (payload : B) → Log B → Log B
  discard_malformed broker publisher queue payload log =
      if publisher.options.declare_dead_letter_queues
      then after_malformed_publish broker
          (publish_malformed broker publisher queue payload "malformed envelope" log)
      else reject_malformed log
