-- ===== src/Rabbitmq/Delivery/Malformed.antt =====
-- What `discard_malformed` of crates/rabbitmq/src/backend.rs does with a body that does not decode.
use queuey.Common.{
  true, Bool-cases, ◌≡◌, ◌⊎◌, inl, inr, refl, String, Bool, false, Option, ◌∷◌, arith,
}
use queuey.Rabbitmq.Codec.{malformed_props}
use queuey.Rabbitmq.Calls.{acks, rejects, Log, Broker, Reply, ok, failed}
use queuey.Rabbitmq.Publisher.{publish_confirmed, Publisher, dead_queue, publish_malformed}
use queuey.Rabbitmq.Publisher.Handover.{Unsettled, published_log, Confirmed, publish_confirmed_lem}
use queuey.Rabbitmq.Delivery.{RabbitMqError, discard_malformed}

Reply-cases :
    {A : Type 0} (reply : Reply A)
    → ((a : A) × (reply ≡ ok a)) ⊎ ((e : String) × (reply ≡ failed e))
Reply-cases (ok a) = inl (a, refl)
Reply-cases (failed e) = inr (e, refl)

module _ {V B : Type 0} where
  -- The publish of a copy of the bytes to the dead-letter queue of the queue.
  abbrev pub copy_of : Broker B → Publisher V B → String → B → Log B → Log B × Option RabbitMqError
  copy_of broker publisher queue payload =
      publish_confirmed broker (dead_queue publisher queue) payload
        (malformed_props queue "malformed envelope")

  -- How a malformed message ends, by the log that is left.
  abbrev pub Discards : Broker B → Publisher V B → String → B → (log result : Log B) → Type 0
  Discards broker publisher queue payload log result =
      ((publisher.options.declare_dead_letter_queues ≡ false) × (result ≡ rejects false ∷ log))
      ⊎ ((publisher.options.declare_dead_letter_queues ≡ true)
          × Unsettled log (copy_of broker publisher queue payload log)
          × (result ≡ rejects false ∷ (copy_of broker publisher queue payload log).0))
      ⊎ ((publisher.options.declare_dead_letter_queues ≡ true)
          × (dead : Log B) × (dead
              ≡ published_log (dead_queue publisher queue) payload
                  (malformed_props queue "malformed envelope") log)
          × Confirmed broker dead
          × (((done : Bool) × (broker.acked (acks ∷ dead) ≡ ok done) × (result ≡ acks ∷ dead))
              ⊎ ((e : String) × (broker.acked (acks ∷ dead) ≡ failed e)
                  × (result ≡ rejects false ∷ acks ∷ dead))))

  -- Whatever lapin and the broker answer, a malformed message is rejected without a requeue as the
  -- last call, or it is acked as the last call and lapin took that. The second is so only after the
  -- broker confirmed, without returning it, that a copy of the bytes is in the dead-letter queue.
  -- It is rejected where there are no dead-letter queues, where there are and the publish of the copy
  -- was tried and failed (and settled nothing), and where the ack failed after the copy.
  pub discard_malformed_lem :
      (broker : Broker B) (publisher : Publisher V B) (queue : String) (payload : B) (log : Log B)
      → Discards broker publisher queue payload log
          (discard_malformed broker publisher queue payload log)
  unfolding discard_malformed publish_malformed
  discard_malformed_lem broker publisher queue payload log =
      let dead =
        published_log (dead_queue publisher queue) payload
          (malformed_props queue "malformed envelope") log in
      elim (Bool-cases publisher.options.declare_dead_letter_queues) [
        | inr off ↦ inl (off, cc)
        | inl on ↦
            elim (publish_confirmed_lem broker (dead_queue publisher queue) payload
              (malformed_props queue "malformed envelope") log) [
                | inl failing ↦ inr (inl (on, failing, ground arith))
                | inr (result, confirmed, _) ↦ elim (Reply-cases (broker.acked (acks ∷ dead))) [
                  | inl (done, e) ↦
                      inr (inr (on, dead, refl, confirmed, inl (done, e, ground arith)))
                  | inr (error, e) ↦
                      inr (inr (on, dead, refl, confirmed, inr (error, e, ground arith)))
                ]
              ]
      ]
