-- ===== src/Rabbitmq/Stream/Own.antt =====
-- A stream of crates/rabbitmq/src/backend.rs that resubscribes goes on with its own publisher and queue.
use queuey.Common.{
  ℕ, zero, suc, ◌+◌, ◌≡◌, String, Option, none, some, ◌∷◌, Option-cases, Bool-cases, inl, inr,
}
use queuey.Envelope.{u32}
use queuey.Rabbitmq.Options.{ReconnectPolicy}
use queuey.Rabbitmq.Publisher.{Publisher}
use queuey.Rabbitmq.Stream.Ask.{Asked, Environment, Outcome, done, raised}
use queuey.Rabbitmq.Stream.{
  subscribe, sleeps, Rebuilding, attempt_after, tests_closing, ConsumeState, Recovered,
  resubscribed, connect, after_delay, after_subscribe, after_connect, resubscribe, with_policy,
  recover,
}

module _ {V B : Type 0} (environment : Environment B) (publisher : Publisher V B)
    (queue : String) where
  abbrev pub IsOwn : ConsumeState V B → Type 0
  IsOwn state = (state.publisher ≡ publisher) × (state.config.name ≡ queue)

  abbrev pub KeepsOwn : Recovered V B → Type 0
  KeepsOwn (resubscribed state) = IsOwn state
  KeepsOwn _ = Unit

  after_connect-KeepsOwn :
      (policy : ReconnectPolicy) (state : ConsumeState V B) (failures : ℕ)
      (again : Asked → Asked × Recovered V B)
      → IsOwn state
      → ((asked : Asked) → KeepsOwn (again asked).1)
      → (connected : Asked × Outcome ℕ)
      → KeepsOwn (after_connect environment policy state failures again connected).1
  after_connect-KeepsOwn policy state failures again own rest (asked, raised e) = tt
  after_connect-KeepsOwn policy state failures again own rest (asked, done generation) =
      go (subscribe environment state.config asked)
    where
      go :
          (subscribed : Asked × Outcome (ℕ × String))
          → KeepsOwn
              (after_subscribe environment policy state failures generation again subscribed).1
      go (asked', done (channel, tag)) = own
      go (asked', raised error) =
          elim (Option-cases (
            policy.delay_of (
              attempt_after Rebuilding.consumer (u32 (failures + 1))
                (environment.error_text error)))) [
                  | inl no_more ↦ rw no_more tt
                  | inr (delay, more) ↦
                      rw more (elim (Option-cases (environment.slept (sleeps delay ∷ asked'))) [
                        | inl awake ↦
                            rw (awake, after_delay, KeepsOwn) (rest (sleeps delay ∷ asked'))
                        | inr (e, woken) ↦ rw (woken, after_delay, KeepsOwn) tt
                      ])
                ]

  resubscribe-KeepsOwn :
      (fuel : ℕ) (policy : ReconnectPolicy) (state : ConsumeState V B) (failures : ℕ)
      (asked : Asked)
      → IsOwn state
      → KeepsOwn (resubscribe environment fuel policy state failures asked).1
  unfolding resubscribe
  resubscribe-KeepsOwn zero policy state failures asked own = tt
  resubscribe-KeepsOwn (suc fuel) policy state failures asked own =
      after_connect-KeepsOwn policy state failures
        (resubscribe environment fuel policy state (u32 (failures + 1))) own
        (λ later. resubscribe-KeepsOwn fuel policy state (u32 (failures + 1)) later own)
        (connect environment asked)

  with_policy-KeepsOwn :
      (fuel : ℕ) (reconnect : Option ReconnectPolicy) (state : ConsumeState V B) (asked : Asked)
      → IsOwn state
      → KeepsOwn (with_policy environment fuel reconnect state asked).1
  with_policy-KeepsOwn fuel none state asked own = tt
  with_policy-KeepsOwn fuel (some policy) state asked own =
      resubscribe-KeepsOwn fuel policy state 0 _ own

  pub recover-KeepsOwn :
      (fuel : ℕ) (state : ConsumeState V B) (asked : Asked)
      → IsOwn state
      → KeepsOwn (recover environment fuel state asked).1
  unfolding recover
  recover-KeepsOwn fuel state asked own =
      elim (Bool-cases (environment.closing (tests_closing ∷ asked))) [
        | inl closing ↦ rw closing tt
        | inr open' ↦ rw open' (
            with_policy-KeepsOwn fuel state.publisher.options.reconnect state
              (tests_closing ∷ asked) own)
      ]
