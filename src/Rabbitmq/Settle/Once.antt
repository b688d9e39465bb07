-- ===== src/Rabbitmq/Settle/Once.antt =====
-- What a worker leaves on RabbitMQ: `dispatch` of crates/core/src/worker.rs, settled by crates/rabbitmq/src/delivery.rs.
use queuey.Common.{
  ℕ, ◌≡◌, ◌⊎◌, inl, inr, refl, ap, ◌∙◌, String, Bool, true, false, Option, none, some, List, [],
  ◌∷◌, ◌++◌, arith,
}
use queuey.Common.Map.{Map}
use queuey.Retry.{Duration, Floats, RetryPolicy}
use queuey.Worker.{ErasedHandler}
use queuey.Worker.Dispatch.{
  Settlement, Reason, ack, dead_letter, retry_as, defer_as, Effect, settled, dispatch,
}
use queuey.Worker.Settling.{Announces, dispatch-SettlesOnce}
use queuey.Rabbitmq.Errors.{RabbitMqError}
use queuey.Rabbitmq.Codec.{dead_letter_props}
use queuey.Rabbitmq.Calls.{Log, Broker, settlements}
use queuey.Rabbitmq.Publisher.{retry_hold, deferral_hold, dead_queue}
use queuey.Rabbitmq.Publisher.Handover.{Unsettled, published_log, Confirmed, IsHeld}
use queuey.Rabbitmq.Delivery.{RabbitMqDelivery, ack_original, reject_original, ack_delivery}
use queuey.Rabbitmq.Delivery.Settling.{retry_delivery_lem, dead_letter_delivery_lem}
use queuey.Rabbitmq.Settle.{after_settle, settle_delivery, carry_out}

abbrev pub failures_of : Option RabbitMqError → List RabbitMqError
failures_of none = []
failures_of (some e) = e ∷ []

module _ {V B : Type 0} (broker : Broker B) (text : Reason → String)
    (delivery : RabbitMqDelivery V B) where
  -- Where the job is when its delivery is about to be settled.
  abbrev pub Secured : Settlement V → (before after : Log B) → Type 0
  Secured ack before after = after ≡ before
  Secured (retry_as next delay) before after =
      IsHeld broker delivery.publisher next delay retry_hold before after
  Secured (defer_as next delay) before after =
      IsHeld broker delivery.publisher next delay deferral_hold before after
  Secured (dead_letter reason) before after =
      (payload : B) × (delivery.publisher.to_bytes delivery.envelope ≡ some payload)
      × (after
          ≡ published_log (dead_queue delivery.publisher delivery.envelope.queue) payload
              (dead_letter_props delivery.publisher.uuid_text delivery.envelope (text reason))
              before)
      × Confirmed broker after

  -- Nothing is settled and there is an error; or the job is secured and then the delivery acked; or,
  -- for a dead letter where there are no dead-letter queues, it is rejected.
  abbrev pub Settles : Settlement V → Log B → Log B × Option RabbitMqError → Type 0
  Settles s log result =
      Unsettled log result
      ⊎ ((secured : Log B) × Secured s log secured
          × (settlements secured ≡ settlements log)
          × (result ≡ ack_original broker delivery secured))
      ⊎ ((reason : Reason) × (s ≡ dead_letter reason)
          × (delivery.publisher.options.declare_dead_letter_queues ≡ false)
          × (result ≡ reject_original broker delivery log))

  settle_delivery-Settles :
      (s : Settlement V) (log : Log B) → Settles s log (settle_delivery broker text delivery s log)
  unfolding settle_delivery ack_delivery
  settle_delivery-Settles ack log = inr (inl (log, refl, refl, refl))
  settle_delivery-Settles (retry_as next delay) log =
      elim ((retry_delivery_lem broker delivery next delay log).0) [
        | inl failed ↦ inl failed
        | inr (held, is_held, e) ↦
            inr (inl (held, is_held, omega (arith, ap settlements is_held.7), e))
      ]
  settle_delivery-Settles (defer_as next delay) log =
      elim ((retry_delivery_lem broker delivery next delay log).1) [
        | inl failed ↦ inl failed
        | inr (held, is_held, e) ↦
            inr (inl (held, is_held, omega (arith, ap settlements is_held.7), e))
      ]
  settle_delivery-Settles (dead_letter reason) log =
      elim (dead_letter_delivery_lem broker delivery (text reason) log) [
        | inl (off, e) ↦ inr (inr (reason, refl, off, e))
        | inr (inl failed) ↦ inl failed
        | inr (inr (payload, dead, bytes, e, confirmed, result)) ↦
            inr
              (inl (dead, (payload, bytes, e, confirmed), omega (arith, ap settlements e), result))
      ]

  after_settle-nothing :
      (result : Log B × Option RabbitMqError)
      → after_settle (carry_out broker text delivery []) result ≡ (result.0, failures_of result.1)
  unfolding carry_out
  after_settle-nothing (log, none) = refl
  after_settle-nothing (log, some e) = refl

  -- What is announced calls nothing of lapin.
  carry_out-announced :
      (registered : Bool) (s : Settlement V) (before : List (Effect V)) (log : Log B)
      → Announces delivery.envelope s registered before
      → carry_out broker text delivery (before ++ settled s ∷ []) log
        ≡ carry_out broker text delivery (settled s ∷ []) log
  unfolding carry_out
  carry_out-announced true (dead_letter reason) before log (dead, e, _, _) = rw e
  carry_out-announced false (dead_letter reason) before log e = rw e
  carry_out-announced registered ack before log e = rw e
  carry_out-announced registered (retry_as next delay) before log e = rw e
  carry_out-announced registered (defer_as next delay) before log e = rw e

  -- Whatever handlers and policies are registered, however the handler of a delivery ends, and
  -- whatever lapin and the broker answer, the worker makes one settlement of it, the last effect of
  -- the dispatch, and counts its error if it fails. Either that settles nothing and is an error; or the
  -- job is safe first, without a settlement: nothing is to be kept for an ack, the next envelope is
  -- confirmed in a hold queue for a retry or a deferral, the dead letter is confirmed in its queue; and
  -- then the delivery is acked once. A dead letter is rejected where there are no such queues.
  pub dispatch-Settles :
      (fl : Floats) (handlers : Map (ErasedHandler V)) (policies : Map RetryPolicy)
      (registered : Bool) (timeout : Option Duration) (now_ms : ℕ) (log : Log B)
      → let effects = dispatch fl handlers policies registered timeout now_ms delivery.envelope in
        (s : Settlement V) × (before : List (Effect V)) × (result : Log B × Option RabbitMqError)
        × (effects ≡ before ++ settled s ∷ [])
        × Settles s log result
        × (carry_out broker text delivery effects log ≡ (result.0, failures_of result.1))
  unfolding carry_out
  dispatch-Settles fl handlers policies registered timeout now_ms log =
      let (before, s, e, announced) =
        dispatch-SettlesOnce fl handlers policies registered timeout now_ms delivery.envelope in
      let result = settle_delivery broker text delivery s log in
      (
        s,
        before,
        result,
        e,
        settle_delivery-Settles s log,
        ap (λ effects. carry_out broker text delivery effects log) e
            ∙ carry_out-announced registered s before log announced
            ∙ after_settle-nothing result,
      )
