-- ===== src/Rabbitmq/Stream.antt =====
-- The stream of deliveries of a queue, which outlives its connection: `recover`, `close_consumer_channel`
-- and `delivery_stream` of crates/rabbitmq/src/backend.rs, over the questions of Stream/Ask. Messages that do
-- not decode are settled over the log of Rabbitmq/Calls. Both loops run on fuel; log output is left out.
pub mod Tag
pub mod Ask
pub mod Messages
pub mod Handed
pub mod Own
pub mod InOrder
pub mod Attempts
pub mod Recovery
mod Tests
use queuey.Common.{ℕ, zero, suc, ◌+◌, String, Option, none, some, List, [], ◌∷◌, if◌then◌else◌}
use queuey.Retry.{Duration}
use queuey.QueueConfig.{QueueConfig}
use queuey.Envelope.{Envelope, u32}
use queuey.Reconnect.{attempt_after, Rebuilding}
use queuey.Rabbitmq.Options.{ReconnectPolicy}
use queuey.Rabbitmq.Errors.{RabbitMqError}
use queuey.Rabbitmq.Calls.{Log, Reply, ok, failed, Broker}
use queuey.Rabbitmq.Publisher.{Publisher}
use queuey.Rabbitmq.Delivery.{RabbitMqDelivery, discard_malformed}
use queuey.Rabbitmq.Stream.Ask.{
  Question, polls, tests_closing, ensures_connected, reads_generation, tests_channel,
  closes_channel, sleeps, Asked, Environment, Outcome, done, raised, Task, ◌>>=◌, ◌>>◌, ask,
  or_raised, subscribe,
}

-- A consumer is known by its tag. The handle that the state shares is the publisher's, with the same
-- options and so the same policy.
pub record ConsumeState (V B : Type 0) : Type 0 where
  pub consumer : String
  pub channel : ℕ
  pub publisher : Publisher V B
  pub config : QueueConfig
  pub generation : ℕ

-- What `recover` ends with; the new state is the one that the stream goes on with.
pub data Recovered (V B : Type 0) : Type 0 where
  resubscribed : ConsumeState V B → Recovered V B
  stop : Recovered V B
  gave_up : RabbitMqError → Recovered V B
  out_of_fuel : Recovered V B

-- What one poll of the stream gives, with the state it goes on with.
pub data Next (V B : Type 0) : Type 0 where
  item : RabbitMqDelivery V B → ConsumeState V B → Next V B
  failure : RabbitMqError → ConsumeState V B → Next V B
  ended : Next V B
  tired : Next V B

module _ {B : Type 0} (environment : Environment B) where
  -- A live connection, and the generation that the handle has by then.
  abbrev pub connect : Task ℕ
  connect = do
    ask ensures_connected (λ asked. or_raised (environment.connected asked))
    ask reads_generation (λ asked. done (environment.generation asked))

  pub close_consumer_channel : (channel : ℕ) → Asked → Asked
  close_consumer_channel channel asked =
      let tested = tests_channel channel ∷ asked in
      if environment.channel_open tested then closes_channel channel ∷ tested else tested

module _ {V B : Type 0} (environment : Environment B) where
  -- The match on the answer of the policy; `again` is the next round of the loop.
  abbrev pub after_delay :
      Option Duration
      → RabbitMqError
      → (again : Asked → Asked × Recovered V B) → Asked
      → Asked × Recovered V B
  after_delay none e again asked = (asked, gave_up e)
  after_delay (some delay) e again asked = elim (environment.slept (sleeps delay ∷ asked)) [
    | none ↦ again (sleeps delay ∷ asked)
    | some e' ↦ (sleeps delay ∷ asked, gave_up e')
  ]

  -- The match on the result of `subscribe`.
  abbrev pub after_subscribe :
      ReconnectPolicy
      → ConsumeState V B
      → (failures generation : ℕ) → (again : Asked → Asked × Recovered V B)
      → Asked × Outcome (ℕ × String)
      → Asked × Recovered V B
  after_subscribe policy state failures generation again (asked, done (channel, tag)) = (
    asked,
    resubscribed (record state { channel = channel; consumer = tag; generation = generation }),
  )
  after_subscribe policy state failures generation again (asked, raised e) =
      after_delay
        (policy.delay_of
          (attempt_after Rebuilding.consumer (u32 (failures + 1)) (environment.error_text e)))
        e again asked

  abbrev pub after_connect :
      ReconnectPolicy
      → ConsumeState V B
      → (failures : ℕ) → (again : Asked → Asked × Recovered V B) → Asked × Outcome ℕ
      → Asked × Recovered V B
  after_connect policy state failures again (asked, done generation) =
      after_subscribe policy state failures generation again
        (subscribe environment state.config asked)
  after_connect policy state failures again (asked, raised e) = (asked, gave_up e)

  -- The loop of `recover`.
  pub resubscribe :
      (fuel : ℕ)
      → ReconnectPolicy
      → ConsumeState V B
      → (failures : ℕ) → Asked
      → Asked × Recovered V B
  resubscribe zero policy state failures asked = (asked, out_of_fuel)
  resubscribe (suc fuel) policy state failures asked =
      after_connect policy state failures (resubscribe fuel policy state (u32 (failures + 1)))
        (connect environment asked)

  -- The match on the policy of the handle.
  abbrev pub with_policy :
      (fuel : ℕ) → Option ReconnectPolicy → ConsumeState V B → Asked → Asked × Recovered V B
  with_policy fuel none state asked = (asked, stop)
  with_policy fuel (some policy) state asked =
      resubscribe fuel policy state 0 (close_consumer_channel environment state.channel asked)

  pub recover : (fuel : ℕ) → ConsumeState V B → Asked → Asked × Recovered V B
  recover fuel state asked =
      let tested = tests_closing ∷ asked in
      if environment.closing tested
      then (tested, stop)
      else with_policy fuel state.publisher.options.reconnect state tested

-- Both logs, and what the stream gives.
abbrev pub Polled : (V B : Type 0) → Type 0
Polled V B = (Asked × Log B) × Next V B

module _ {V B : Type 0} (environment : Environment B) (broker : Broker B)
    (from_bytes : B → Option (Envelope V)) where
  -- The match on the result of `recover`.
  abbrev pub after_recover :
      (again : ConsumeState V B → Asked → Log B → Polled V B)
      → ConsumeState V B
      → Log B
      → Asked × Recovered V B
      → Polled V B
  after_recover again state log (asked, resubscribed renewed) = again renewed asked log
  after_recover again state log (asked, stop) = ((asked, log), ended)
  after_recover again state log (asked, gave_up e) = ((asked, log), failure e state)
  after_recover again state log (asked, out_of_fuel) = ((asked, log), tired)

  -- The match on `Envelope::from_bytes`.
  abbrev pub after_decode :
      (again : ConsumeState V B → Asked → Log B → Polled V B)
      → ConsumeState V B
      → Asked
      → Log B
      → (payload : B) → Option (Envelope V)
      → Polled V B
  after_decode again state asked log payload (some envelope) =
      ((asked, log), item (record { envelope = envelope; publisher = state.publisher }) state)
  after_decode again state asked log payload none =
      again state asked (discard_malformed broker state.publisher state.config.name payload log)

  -- The match on what the consumer gives.
  abbrev pub after_poll :
      (fuel : ℕ)
      → (again : ConsumeState V B → Asked → Log B → Polled V B) → ConsumeState V B
      → Asked
      → Log B
      → Option (Reply B)
      → Polled V B
  after_poll fuel again state asked log (some (ok payload)) =
      after_decode again state asked log payload (from_bytes payload)
  after_poll fuel again state asked log (some (failed e)) =
      after_recover again state log (recover environment fuel state asked)
  after_poll fuel again state asked log none =
      after_recover again state log (recover environment fuel state asked)

  -- The loop of the closure of `delivery_stream`, with fuel for its rounds and for those of `recover`.
  pub next_delivery : (rounds fuel : ℕ) → ConsumeState V B → Asked → Log B → Polled V B
  next_delivery zero fuel state asked log = ((asked, log), tired)
  next_delivery (suc rounds) fuel state asked log =
      let polled = polls state.consumer ∷ asked in
      after_poll fuel (next_delivery rounds fuel) state polled log (environment.polled polled)

  -- What follows what the stream gave.
  abbrev pub after_next :
      (more : ConsumeState V B → Asked → Log B → (Asked × Log B) × List (RabbitMqDelivery V B))
      → Polled V B
      → (Asked × Log B) × List (RabbitMqDelivery V B)
  after_next more ((asked, log), item delivery state) =
      let (logs, deliveries) = more state asked log in (logs, delivery ∷ deliveries)
  after_next more ((asked, log), failure e state) = more state asked log
  after_next more (logs, ended) = (logs, [])
  after_next more (logs, tired) = (logs, [])

  -- `futures::stream::unfold`, polled so many times: the deliveries that it gives.
  pub deliveries :
      (times rounds fuel : ℕ)
      → ConsumeState V B
      → Asked
      → Log B
      → (Asked × Log B) × List (RabbitMqDelivery V B)
  deliveries zero rounds fuel state asked log = ((asked, log), [])
  deliveries (suc times) rounds fuel state asked log =
      after_next (deliveries times rounds fuel) (next_delivery rounds fuel state asked log)
