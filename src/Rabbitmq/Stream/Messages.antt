-- ===== src/Rabbitmq/Stream/Messages.antt =====
-- Which messages a stream of crates/rabbitmq/src/backend.rs gives: `delivery_stream` against the messages that
-- its consumers received.
use queuey.Common.{
  ℕ, zero, suc, ◌+◌, ◌≡◌, refl, ◌∙◌, String, Option, none, some, List, [], ◌∷◌, ◌++◌, arith,
  Bool-cases, Option-cases, inl, inr,
}
use queuey.QueueConfig.{QueueConfig}
use queuey.Reconnect.{attempt_after, Rebuilding}
use queuey.Envelope.{u32}
use queuey.Rabbitmq.Options.{ReconnectPolicy}
use queuey.Rabbitmq.Calls.{Reply, ok, failed}
use queuey.Rabbitmq.Stream.Ask.{
  polls, tests_closing, sleeps, Asked, Environment, Outcome, done, raised, subscribe,
}
use queuey.Rabbitmq.Stream.{
  ConsumeState, Recovered, connect, close_consumer_channel, after_subscribe, after_connect,
  resubscribe, with_policy, recover,
}

module _ {B : Type 0} (environment : Environment B) where
  abbrev pub message_of : Option (Reply B) → List B
  message_of (some (ok payload)) = payload ∷ []
  message_of (some (failed e)) = []
  message_of none = []

  -- The messages that the consumers have received, the latest last.
  abbrev pub received : Asked → List B
  received [] = []
  received (polls consumer ∷ asked) =
      received asked ++ message_of (environment.polled (polls consumer ∷ asked))
  received (question ∷ asked) = received asked

  received-subscribe :
      (config : QueueConfig) (asked : Asked)
      → received (subscribe environment config asked).0 ≡ received asked
  unfolding subscribe
  received-subscribe config asked = ground arith

  received-connect : (asked : Asked) → received (connect environment asked).0 ≡ received asked
  received-connect asked = ground arith

  received-close :
      (channel : ℕ) (asked : Asked)
      → received (close_consumer_channel environment channel asked) ≡ received asked
  unfolding close_consumer_channel
  received-close channel asked = ground arith

  module _ {V : Type 0} where
    received-after_connect :
        (policy : ReconnectPolicy) (state : ConsumeState V B) (failures : ℕ)
        (again : Asked → Asked × Recovered V B)
        → ((asked : Asked) → received (again asked).0 ≡ received asked)
        → (connected : Asked × Outcome ℕ)
        → received (after_connect environment policy state failures again connected).0
          ≡ received connected.0
    received-after_connect policy state failures again quiet (asked, raised e) = refl
    received-after_connect policy state failures again quiet (asked, done generation) =
        go (subscribe environment state.config asked) (received-subscribe state.config asked)
      where
        go :
            (subscribed : Asked × Outcome (ℕ × String))
            → received subscribed.0 ≡ received asked
            → received
                (after_subscribe environment policy state failures generation again subscribed).0
              ≡ received asked
        go (asked', done (channel, tag)) e = e
        go (asked', raised error) e =
            elim (Option-cases (
              policy.delay_of (
                attempt_after Rebuilding.consumer (u32 (failures + 1))
                  (environment.error_text error)))) [
                    | inl no_more ↦ rw no_more e
                    | inr (delay, more) ↦ ground (arith, quiet (sleeps delay ∷ asked'))
                  ]

    received-resubscribe :
        (fuel : ℕ) (policy : ReconnectPolicy) (state : ConsumeState V B) (failures : ℕ)
        (asked : Asked)
        → received (resubscribe environment fuel policy state failures asked).0 ≡ received asked
    unfolding resubscribe
    received-resubscribe zero policy state failures asked = refl
    received-resubscribe (suc fuel) policy state failures asked =
        received-after_connect policy state failures
          (resubscribe environment fuel policy state (u32 (failures + 1)))
          (λ later. received-resubscribe fuel policy state (u32 (failures + 1)) later)
          (connect environment asked)
        ∙ received-connect asked

    received-with_policy :
        (fuel : ℕ) (reconnect : Option ReconnectPolicy) (state : ConsumeState V B) (asked : Asked)
        → received (with_policy environment fuel reconnect state asked).0 ≡ received asked
    received-with_policy fuel none state asked = refl
    received-with_policy fuel (some policy) state asked =
        received-resubscribe fuel policy state 0
          (close_consumer_channel environment state.channel asked)
        ∙ received-close state.channel asked

    pub received-recover :
        (fuel : ℕ) (state : ConsumeState V B) (asked : Asked)
        → received (recover environment fuel state asked).0 ≡ received asked
    unfolding recover
    received-recover fuel state asked =
        elim (Bool-cases (environment.closing (tests_closing ∷ asked))) [
          | inl closing ↦ rw closing
          | inr open' ↦ rw open' (
              received-with_policy fuel state.publisher.options.reconnect state
                (tests_closing ∷ asked))
        ]
