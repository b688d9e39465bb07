-- ===== src/Rabbitmq/Publisher.antt =====
-- `Publisher` and `Hold` of crates/rabbitmq/src/publisher.rs: how a message is published and confirmed. The
-- bytes of an envelope and the text of an id belong to serde_json and uuid.
pub mod Handover
use Prim.Native.String.{len}
use queuey.Common.{ℕ, ◌*◌, String, true, Option, none, some}
use queuey.Common.Map.{Map, get}
use queuey.Retry.{Duration}
use queuey.QueueConfig.{QueueConfig}
use queuey.Envelope.{Envelope}
use queuey.Topology.{deferred_ttl_ms, deferred_queue_args, max_deferral_ms}
use queuey.Topology.Names.{dead_queue_name, deferred_queue_name}
use queuey.Rabbitmq.Options.{RabbitMqOptions}
use queuey.Rabbitmq.Codec.{BasicProperties, props_for, dead_letter_props, malformed_props}
use queuey.Rabbitmq.Errors.{
  RabbitMqError, nacked, returned, confirms_not_enabled, delay_too_long, unknown_queue,
  not_serialized, amqp, short_string,
}
use queuey.Rabbitmq.Calls.{
  Confirmation, confirm_ack, confirm_nack, not_requested, Action, takes_channel,
  takes_declare_channel, declares, publishes, awaits_confirm, Log, Reply, ok, failed, Broker,
  amqp_error, checks, fails, calls, ◌>>◌,
}

pub data Hold : Type 0 where
  retry_hold deferral_hold : Hold

-- Hold::granularity
unfoldable pub granularity : Hold → RabbitMqOptions → Duration
granularity retry_hold options = options.retry_granularity
granularity deferral_hold options = options.deferred_granularity

unfoldable pub confirmation_to_result : Confirmation → (routing_key : String) → Option RabbitMqError
confirmation_to_result (confirm_ack none) routing_key = none
confirmation_to_result (confirm_ack (some (code, text))) routing_key =
    some (returned code text routing_key)
confirmation_to_result (confirm_nack none) routing_key = some (nacked routing_key)
confirmation_to_result (confirm_nack (some (code, text))) routing_key =
    some (returned code text routing_key)
confirmation_to_result not_requested routing_key = some (confirms_not_enabled routing_key)

abbrev pub confirm_result : Reply Confirmation → String → Option RabbitMqError
confirm_result (ok confirmation) queue = confirmation_to_result confirmation queue
confirm_result (failed e) queue = some (amqp e)

-- `configs` is kept by the ConnectionHandle.
pub record Publisher (V B : Type 0) : Type 0 where
  pub options : RabbitMqOptions
  pub configs : Map QueueConfig
  pub to_bytes : Envelope V → Option B
  pub uuid_text : ℕ → String

unfoldable pub publish_confirmed : {B : Type 0} → Broker B → String → B → BasicProperties → Action B
publish_confirmed broker queue payload properties =
    checks (short_string queue)
    >> calls (takes_channel queue) broker.channel_taken
    >> calls (publishes queue true payload properties) (λ log. amqp_error (broker.published log))
    >> calls awaits_confirm (λ log. confirm_result (broker.confirmed log) queue)

module _ {V B : Type 0} where
  unfoldable pub dead_queue : Publisher V B → String → String
  dead_queue publisher queue = dead_queue_name queue publisher.options.dead_suffix

  unfoldable pub deferred_queue : Publisher V B → String → ℕ → String
  deferred_queue publisher queue ttl_ms =
      deferred_queue_name queue publisher.options.deferred_suffix ttl_ms

  -- `let payload = envelope.to_bytes()?`, and what follows.
  abbrev pub with_bytes : Publisher V B → Envelope V → (B → Action B) → Action B
  with_bytes publisher envelope next = elim (publisher.to_bytes envelope) [
    | none ↦ fails not_serialized
    | some payload ↦ next payload
  ]

  pub publish_envelope : Broker B → Publisher V B → Envelope V → Action B
  publish_envelope broker publisher envelope = with_bytes publisher envelope (λ payload.
      publish_confirmed broker envelope.queue payload (props_for publisher.uuid_text envelope))

  -- publish_held, from the name of the hold queue on.
  unfoldable pub publish_into :
      Broker B
      → Publisher V B
      → Envelope V
      → QueueConfig
      → (ttl_ms : ℕ) → (hold_queue : String) → Action B
  publish_into broker publisher envelope config ttl_ms hold_queue =
      checks (short_string hold_queue)
      >> calls (takes_declare_channel hold_queue) broker.channel_taken
      >> calls (declares hold_queue config.durable (deferred_queue_args config ttl_ms))
          (λ log. amqp_error (broker.declared log))
      >> with_bytes publisher envelope (λ payload.
        publish_confirmed broker hold_queue payload (props_for publisher.uuid_text envelope))

  unfoldable pub publish_held : Broker B → Publisher V B → Envelope V → Duration → Hold → Action B
  publish_held broker publisher envelope delay hold = elim (get envelope.queue publisher.configs) [
    | none ↦ fails (unknown_queue envelope.queue)
    | some config ↦ elim (deferred_ttl_ms delay (granularity hold publisher.options)) [
      | none ↦ fails (delay_too_long delay (max_deferral_ms * 1000000))
      | some ttl_ms ↦
          publish_into broker publisher envelope config ttl_ms
            (deferred_queue publisher envelope.queue ttl_ms)
    ]
  ]

  unfoldable pub publish_dead_letter :
      Broker B → Publisher V B → Envelope V → (reason : String) → Action B
  publish_dead_letter broker publisher envelope reason = with_bytes publisher envelope (λ payload.
      publish_confirmed broker (dead_queue publisher envelope.queue) payload
        (dead_letter_props publisher.uuid_text envelope reason))

  unfoldable pub publish_malformed :
      Broker B → Publisher V B → (queue : String) → (payload : B) → (reason : String) → Action B
  publish_malformed broker publisher queue payload reason =
      publish_confirmed broker (dead_queue publisher queue) payload (malformed_props queue reason)
