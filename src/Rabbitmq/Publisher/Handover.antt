-- ===== src/Rabbitmq/Publisher/Handover.antt =====
-- What a publish leaves behind (crates/rabbitmq/src/publisher.rs): either it fails, or lapin confirmed that the
-- message is in its queue.
use queuey.Common.{
  ℕ, ◌≡◌, ◌≢◌, ◌⊎◌, inl, inr, refl, ◌∙◌, String, true, Option, none, some, ◌∷◌, arith, Option-cases,
  ◌*◌, ◌≤◌,
}
use queuey.Common.Map.{get}
use queuey.Retry.{Duration}
use queuey.QueueConfig.{QueueConfig}
use queuey.Envelope.{Envelope}
use queuey.Topology.{deferred_ttl_ms, deferred_queue_args}
use queuey.Topology.HoldTtl.{deferred_ttl_ms_bounds}
use queuey.Rabbitmq.Codec.{BasicProperties, props_for}
use queuey.Rabbitmq.Errors.{RabbitMqError, short_string}
use queuey.Rabbitmq.Calls.{
  Confirmation, confirm_ack, takes_channel, takes_declare_channel, declares, publishes,
  awaits_confirm, Log, Reply, ok, Broker, settlements,
}
use queuey.Rabbitmq.Publisher.{
  Hold, granularity, Publisher, confirmation_to_result, confirm_result, deferred_queue,
  publish_confirmed, publish_held, publish_into,
}

-- A part that fails, and settles nothing.
abbrev pub Unsettled : {B : Type 0} → Log B → Log B × Option RabbitMqError → Type 0
Unsettled log r = (r.1 ≢ none) × (settlements r.0 ≡ settlements log)

-- The calls of a publish.
abbrev pub published_log : {B : Type 0} → String → B → BasicProperties → Log B → Log B
published_log queue payload properties log =
    awaits_confirm ∷ publishes queue true payload properties ∷ takes_channel queue ∷ log

-- What `Ok(())` of a publish stands for.
abbrev pub Confirmed : {B : Type 0} → Broker B → Log B → Type 0
Confirmed broker log = broker.confirmed log ≡ ok (confirm_ack none)

confirm_result-none :
    (reply : Reply Confirmation) (queue : String)
    → confirm_result reply queue ≡ none
    → reply ≡ ok (confirm_ack none)
unfolding confirmation_to_result
confirm_result-none reply queue h = ground arith

module _ {B : Type 0} where
  pub publish_confirmed_lem :
      (broker : Broker B) (queue : String) (payload : B) (properties : BasicProperties)
      (log : Log B)
      → Unsettled log (publish_confirmed broker queue payload properties log)
        ⊎ ((publish_confirmed broker queue payload properties log
              ≡ (published_log queue payload properties log, none))
            × Confirmed broker (published_log queue payload properties log)
            × (short_string queue ≡ none))
  unfolding publish_confirmed
  publish_confirmed_lem broker queue payload properties log = ground (
    arith,
    confirm_result-none (broker.confirmed (published_log queue payload properties log)) queue,
  )

module _ {V B : Type 0} where
  -- The calls of `publish_into`.
  abbrev pub held_log : Publisher V B → Envelope V → QueueConfig → ℕ → String → B → Log B → Log B
  held_log publisher envelope config ttl_ms queue payload log =
      published_log queue payload (props_for publisher.uuid_text envelope) (
        declares queue config.durable (deferred_queue_args config ttl_ms)
        ∷ takes_declare_channel queue
        ∷ log)

  publish_into_lem :
      (broker : Broker B) (publisher : Publisher V B) (envelope : Envelope V) (config : QueueConfig)
      (ttl_ms : ℕ) (queue : String) (log : Log B)
      → Unsettled log (publish_into broker publisher envelope config ttl_ms queue log)
        ⊎ ((payload : B) × (publisher.to_bytes envelope ≡ some payload)
            × Confirmed broker (held_log publisher envelope config ttl_ms queue payload log)
            × (publish_into broker publisher envelope config ttl_ms queue log
                ≡ (held_log publisher envelope config ttl_ms queue payload log, none)))
  unfolding publish_into
  publish_into_lem broker publisher envelope config ttl_ms queue log =
      let start =
        declares queue config.durable (deferred_queue_args config ttl_ms)
        ∷ takes_declare_channel queue
        ∷ log in
      elim (Option-cases (publisher.to_bytes envelope)) [
        | inl e ↦ inl (ground arith)
        | inr (payload, e) ↦ ground (
          arith,
          publish_confirmed_lem broker queue payload (props_for publisher.uuid_text envelope) start,
        )
      ]

  -- The message is in a hold queue of its queue that waits for the delay at least.
  abbrev pub IsHeld :
      Broker B → Publisher V B → Envelope V → Duration → Hold → (before after : Log B) → Type 0
  IsHeld broker publisher envelope delay hold before after =
      (config : QueueConfig) × (ttl_ms : ℕ) × (payload : B) × (get envelope.queue publisher.configs
        ≡ some config)
      × (deferred_ttl_ms delay (granularity hold publisher.options) ≡ some ttl_ms)
      × (delay ≤ ttl_ms * 1000000)
      × (publisher.to_bytes envelope ≡ some payload)
      × (after
          ≡ held_log publisher envelope config ttl_ms
              (deferred_queue publisher envelope.queue ttl_ms) payload before)
      × Confirmed broker after

  pub publish_held_lem :
      (broker : Broker B) (publisher : Publisher V B) (envelope : Envelope V) (delay : Duration)
      (hold : Hold) (log : Log B)
      → Unsettled log (publish_held broker publisher envelope delay hold log)
        ⊎ ((after : Log B) × (publish_held broker publisher envelope delay hold log ≡ (after, none))
            × IsHeld broker publisher envelope delay hold log after)
  unfolding publish_held
  publish_held_lem broker publisher envelope delay hold log =
      elim (Option-cases (get envelope.queue publisher.configs)) [
        | inl e ↦ inl (ground arith)
        | inr (config, known) ↦
            elim (Option-cases (deferred_ttl_ms delay (granularity hold publisher.options))) [
              | inl e ↦ inl (ground arith)
              | inr (ttl_ms, fits) ↦
                  let queue = deferred_queue publisher envelope.queue ttl_ms in
                  let same : publish_held broker publisher envelope delay hold log
                      ≡ publish_into broker publisher envelope config ttl_ms queue log =
                    cc in
                  elim (publish_into_lem broker publisher envelope config ttl_ms queue log) [
                    | inl (e, none_settled) ↦ inl (ground arith)
                    | inr (payload, bytes, confirmed, result) ↦ inr (
                      held_log publisher envelope config ttl_ms queue payload log,
                      same ∙ result,
                      (
                        config,
                        ttl_ms,
                        payload,
                        known,
                        fits,
                        (deferred_ttl_ms_bounds delay (granularity hold publisher.options) ttl_ms
                            fits).1,
                        bytes,
                        refl,
                        confirmed,
                      ),
                    )
                  ]
            ]
      ]
