-- ===== src/Rabbitmq/Settle.antt =====
-- A worker on RabbitMQ: the effects that `dispatch` of crates/core/src/worker.rs has, with the settlements of
-- crates/rabbitmq/src/delivery.rs. The text of a reason is an argument; hooks make no calls of lapin.
pub mod Once
mod Tests
use queuey.Common.{String, Option, none, some, List, [], ◌∷◌}
use queuey.Worker.Dispatch.{
  Settlement, Reason, ack, dead_letter, retry_as, defer_as, Effect, hook, settled,
}
use queuey.Rabbitmq.Errors.{RabbitMqError}
use queuey.Rabbitmq.Calls.{Log, Action, Broker}
use queuey.Rabbitmq.Delivery.{
  RabbitMqDelivery, ack_delivery, dead_letter_delivery, retry_delivery, defer_held_delivery,
}

-- settle: a failure is logged and counted, and the worker goes on.
abbrev pub after_settle :
    {B : Type 0}
    → (rest : Log B → Log B × List RabbitMqError) → Log B × Option RabbitMqError
    → Log B × List RabbitMqError
after_settle rest (log, none) = rest log
after_settle rest (log, some e) = let (log', failures) = rest log in (log', e ∷ failures)

module _ {V B : Type 0} (broker : Broker B) (text : Reason → String) where
  -- `impl Delivery for RabbitMqDelivery`
  unfoldable pub settle_delivery : RabbitMqDelivery V B → Settlement V → Action B
  settle_delivery delivery ack = ack_delivery broker delivery
  settle_delivery delivery (dead_letter reason) = dead_letter_delivery broker delivery (text reason)
  settle_delivery delivery (retry_as next delay) = retry_delivery broker delivery next delay
  settle_delivery delivery (defer_as next delay) = defer_held_delivery broker delivery next delay

  -- What effects call, and the failures that are counted.
  pub carry_out : RabbitMqDelivery V B → List (Effect V) → Log B → Log B × List RabbitMqError
  carry_out delivery [] log = (log, [])
  carry_out delivery (hook dead ∷ effects) log = carry_out delivery effects log
  carry_out delivery (settled s ∷ effects) log =
      after_settle (carry_out delivery effects) (settle_delivery delivery s log)
