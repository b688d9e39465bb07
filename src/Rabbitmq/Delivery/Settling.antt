-- ===== src/Rabbitmq/Delivery/Settling.antt =====
-- Publish first, settle second (crates/rabbitmq/src/delivery.rs), whatever lapin and the broker answer.
use queuey.Common.{
  ◌≡◌, ◌⊎◌, inl, inr, refl, ap, String, false, Option, some, arith, Option-cases, Bool-cases,
}
use queuey.Retry.{Duration}
use queuey.Envelope.{Envelope}
use queuey.Rabbitmq.Errors.{RabbitMqError}
use queuey.Rabbitmq.Codec.{dead_letter_props}
use queuey.Rabbitmq.Calls.{Log, Broker, ◌>>◌, unless_failed}
use queuey.Rabbitmq.Publisher.{
  Hold, retry_hold, deferral_hold, publish_held, publish_dead_letter, dead_queue,
}
use queuey.Rabbitmq.Publisher.Handover.{
  Unsettled, published_log, Confirmed, IsHeld, publish_confirmed_lem, publish_held_lem,
}
use queuey.Rabbitmq.Delivery.{
  RabbitMqDelivery, ack_original, reject_original, retry_delivery, defer_held_delivery,
  dead_letter_delivery,
}

module _ {V B : Type 0} where
  -- Either nothing is settled and there is an error, or the next envelope is held, and then the
  -- original is acked.
  abbrev pub AcksAfterHold :
      Broker B
      → RabbitMqDelivery V B
      → Envelope V
      → Duration
      → Hold
      → Log B
      → Log B × Option RabbitMqError
      → Type 0
  AcksAfterHold broker delivery next delay hold log result =
      Unsettled log result
      ⊎ ((held : Log B) × IsHeld broker delivery.publisher next delay hold log held
          × (result ≡ ack_original broker delivery held))

  hold-then_ack :
      (broker : Broker B) (delivery : RabbitMqDelivery V B) (next : Envelope V) (delay : Duration)
      (hold : Hold) (log : Log B)
      → AcksAfterHold broker delivery next delay hold log (
          (publish_held broker delivery.publisher next delay hold >> ack_original broker delivery)
            log)
  hold-then_ack broker delivery next delay hold log =
      elim (publish_held_lem broker delivery.publisher next delay hold log) [
        | inl e ↦ inl (ground arith)
        | inr (held, result, is_held) ↦
            inr (held, is_held, ap (unless_failed (ack_original broker delivery)) result)
      ]

  -- Whatever lapin and the broker answer, a retry and a deferral of a delivery either fail without
  -- settling the original, or ack it directly after the broker has confirmed, without returning it, that
  -- the next envelope is in a hold queue. That queue is one that was declared just before the
  -- publish, for the envelope's queue as it was declared and for a time that is not below the delay.
  -- Their result is then that of the ack.
  pub retry_delivery_lem :
      (broker : Broker B) (delivery : RabbitMqDelivery V B) (next : Envelope V) (delay : Duration)
      (log : Log B)
      → AcksAfterHold broker delivery next delay retry_hold log
          (retry_delivery broker delivery next delay log)
        × AcksAfterHold broker delivery next delay deferral_hold log
            (defer_held_delivery broker delivery next delay log)
  unfolding retry_delivery defer_held_delivery
  retry_delivery_lem broker delivery next delay log = (
    hold-then_ack broker delivery next delay retry_hold log,
    hold-then_ack broker delivery next delay deferral_hold log,
  )

  -- A dead letter: rejected where there are no dead-letter queues; else nothing is settled and there
  -- is an error, or the envelope is in the dead-letter queue, and then the original is acked.
  abbrev pub BuriesFirst :
      Broker B
      → RabbitMqDelivery V B
      → (reason : String) → Log B
      → Log B × Option RabbitMqError
      → Type 0
  BuriesFirst broker delivery reason log result =
      ((delivery.publisher.options.declare_dead_letter_queues ≡ false)
        × (result ≡ reject_original broker delivery log))
      ⊎ Unsettled log result
      ⊎ ((payload : B) × (dead : Log B) × (delivery.publisher.to_bytes delivery.envelope
            ≡ some payload)
          × (dead
              ≡ published_log (dead_queue delivery.publisher delivery.envelope.queue) payload
                  (dead_letter_props delivery.publisher.uuid_text delivery.envelope reason) log)
          × Confirmed broker dead
          × (result ≡ ack_original broker delivery dead))

  -- Whatever lapin and the broker answer, a delivery that is dead-lettered is rejected without a
  -- publish where there are no dead-letter queues. Else it fails without settling the original, or
  -- acks it directly after the broker has confirmed, without returning it, that the envelope is in the
  -- dead-letter queue of its queue with the reason in its headers; the result is then that of the ack.
  pub dead_letter_delivery_lem :
      (broker : Broker B) (delivery : RabbitMqDelivery V B) (reason : String) (log : Log B)
      → BuriesFirst broker delivery reason log (dead_letter_delivery broker delivery reason log)
  unfolding dead_letter_delivery publish_dead_letter
  dead_letter_delivery_lem broker delivery reason log =
      elim (Bool-cases delivery.publisher.options.declare_dead_letter_queues) [
        | inr off ↦ inl (off, cc)
        | inl on ↦ elim (Option-cases (delivery.publisher.to_bytes delivery.envelope)) [
          | inl e ↦ inr (inl (ground arith))
          | inr (payload, e) ↦
              elim (publish_confirmed_lem broker
                (dead_queue delivery.publisher delivery.envelope.queue) payload
                (dead_letter_props delivery.publisher.uuid_text delivery.envelope reason) log) [
                  | inl f ↦ inr (inl (ground arith))
                  | inr (result, confirmed, _) ↦
                      inr (inr (payload, _, e, refl, confirmed, ground arith))
                ]
        ]
      ]
