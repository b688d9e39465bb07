-- ===== src/Rabbitmq/Stream/Attempts.antt =====
-- One round of the loop of `recover` of crates/rabbitmq/src/backend.rs: an attempt to subscribe, and why the loop
-- ends after it.
use queuey.Common.{
  ℕ, zero, suc, ◌+◌, ◌≤◌, ◌<◌, ◌≡◌, ◌⊎◌, inl, inr, refl, ap, String, Bool, true, false, Option,
  none, some, ◌∷◌, arith, count, Option-cases,
}
use mathlib.Core.Path.{subst⁻¹}
use queuey.Envelope.{u32}
use queuey.QueueConfig.{QueueConfig}
use queuey.Reconnect.{attempt_after, Rebuilding}
use queuey.Rabbitmq.Options.{ReconnectPolicy}
use queuey.Rabbitmq.Errors.{RabbitMqError}
use queuey.Rabbitmq.Calls.{ok}
use queuey.Rabbitmq.Stream.Ask.{
  Question, ensures_connected, reads_generation, creates_channel, sets_prefetch, reads_clock,
  consumes, sleeps, Asked, Environment, Outcome, done, raised, subscribe,
}
use queuey.Rabbitmq.Stream.{
  ConsumeState, Recovered, resubscribed, stop, gave_up, out_of_fuel, connect, after_delay,
  after_subscribe, after_connect,
}

-- An attempt to subscribe begins with a channel.
abbrev pub is_attempt : Question → Bool
is_attempt creates_channel = true
is_attempt _ = false

module _ {B : Type 0} (environment : Environment B) where
  -- A consumer of the queue is on a channel of its own, whose prefetch was set first.
  abbrev pub Subscribed : QueueConfig → (before after : Asked) → ℕ → String → Type 0
  Subscribed config before after channel tag =
      (after
        ≡ consumes channel config.name tag
          ∷ reads_clock
          ∷ sets_prefetch channel config.prefetch
          ∷ creates_channel
          ∷ before)
      × (environment.consuming after ≡ ok tt)

  subscribe-done :
      (config : QueueConfig) (asked after : Asked) (channel : ℕ) (tag : String)
      → subscribe environment config asked ≡ (after, done (channel, tag))
      → Subscribed config asked after channel tag
  unfolding subscribe
  subscribe-done config asked after channel tag e = ground arith

  subscribe-once :
      (config : QueueConfig) (asked : Asked)
      → count is_attempt (subscribe environment config asked).0 ≡ count is_attempt asked + 1
  unfolding subscribe
  subscribe-once config asked = ground arith

  module _ {V : Type 0} (policy : ReconnectPolicy) (state : ConsumeState V B) where
    -- Why the loop of `recover` ends; `made` are the attempts to subscribe that were made before it.
    abbrev pub Justified : (made : ℕ) → Asked × Recovered V B → Type 0
    Justified made (after, resubscribed renewed) =
        (earlier : Asked) × (environment.connected (ensures_connected ∷ earlier) ≡ none)
        × (renewed ≡ record state {
          channel = renewed.channel;
          consumer = renewed.consumer;
          generation = environment.generation (reads_generation ∷ ensures_connected ∷ earlier);
        })
        × Subscribed state.config (reads_generation ∷ ensures_connected ∷ earlier) after
            renewed.channel renewed.consumer
    Justified made (after, gave_up e) =
        ((earlier : Asked) × (after ≡ ensures_connected ∷ earlier)
          × (environment.connected after ≡ some e))
        ⊎ ((earlier : Asked) × (delay : ℕ) × (after ≡ sleeps delay ∷ earlier)
            × (environment.slept after ≡ some e))
        ⊎ ((before : Asked) × (failures : ℕ) × (subscribe environment state.config before
              ≡ (after, raised e))
            × (made + failures ≡ count is_attempt after)
            × (policy.delay_of
                  (attempt_after Rebuilding.consumer failures (environment.error_text e))
                ≡ none))
    Justified made (after, stop) = ⊥
    Justified made (after, out_of_fuel) = ⊥

    -- With at most so many attempts more.
    abbrev pub EndsWithin : (made most : ℕ) → Asked → Asked × Recovered V B → Type 0
    EndsWithin made most asked (after, result) =
        Justified made (after, result) × (count is_attempt after ≤ count is_attempt asked + most)

    after_delay-EndsWithin :
        (answer : Option ℕ) (made left failures : ℕ) (e : RabbitMqError)
        (again : Asked → Asked × Recovered V B) (earlier before after : Asked)
        → policy.delay_of (attempt_after Rebuilding.consumer failures (environment.error_text e))
          ≡ answer
        → subscribe environment state.config before ≡ (after, raised e)
        → count is_attempt after ≡ count is_attempt earlier + 1
        → made + failures ≡ count is_attempt after
        → (left ≡ 0 → answer ≡ none)
        → ((asked : Asked)
            → made + failures ≡ count is_attempt asked
            → 0 < left
            → EndsWithin made left asked (again asked))
        → EndsWithin made (left + 1) earlier (after_delay environment answer e again after)
    after_delay-EndsWithin none made left failures e again earlier before after asked refused once
          counted last rest =
        (inr (inr (before, failures, refused, counted, asked)), omega (arith, once))
    after_delay-EndsWithin (some delay) made zero failures e again earlier before after asked
          refused once counted last rest =
        absurd (cc (last refl))
    after_delay-EndsWithin (some delay) made (suc left) failures e again earlier before after asked
          refused once counted last rest =
        let slept = sleeps delay ∷ after in
        elim (Option-cases (environment.slept slept)) [
          | inl awake ↦
              subst⁻¹
                (λ x.
                  EndsWithin made (suc left + 1) earlier
                    (elim x [ none ↦ again slept | some e' ↦ (slept, gave_up e') ]))
                awake
                (let (why, few) = rest slept (omega (arith, counted)) (omega arith) in
                  (why, omega (arith, few, once)))
          | inr (e', woken) ↦
              subst⁻¹
                (λ x.
                  EndsWithin made (suc left + 1) earlier
                    (elim x [ none ↦ again slept | some e' ↦ (slept, gave_up e') ]))
                woken (inr (inl (after, delay, refl, woken)), omega (arith, once))
        ]

    after_subscribe-EndsWithin :
        (made left failures : ℕ) (again : Asked → Asked × Recovered V B) (earlier : Asked)
        → made + u32 (failures + 1) ≡ count is_attempt earlier + 1
        → let before = reads_generation ∷ ensures_connected ∷ earlier in
          (result : Asked × Outcome (ℕ × String))
          → subscribe environment state.config before ≡ result
          → environment.connected (ensures_connected ∷ earlier) ≡ none
          → ((e : String)
              → left ≡ 0
              → policy.delay_of (attempt_after Rebuilding.consumer (u32 (failures + 1)) e) ≡ none)
          → ((asked : Asked)
              → made + u32 (failures + 1) ≡ count is_attempt asked
              → 0 < left
              → EndsWithin made left asked (again asked))
          → EndsWithin made (left + 1) earlier (
              after_subscribe environment policy state failures
                (environment.generation before)
                again
                result)
    after_subscribe-EndsWithin made left failures again earlier counted (after, done (channel, tag))
          did live last rest =
        let before = reads_generation ∷ ensures_connected ∷ earlier in
        let once = subscribe-once state.config before in
        (
          (earlier, live, refl, subscribe-done state.config before after channel tag did),
          omega (arith, once, ap (λ r. count is_attempt r.0) did),
        )
    after_subscribe-EndsWithin made left failures again earlier counted (after, raised e) did live
          last rest =
        let before = reads_generation ∷ ensures_connected ∷ earlier in
        let once = subscribe-once state.config before in
        after_delay-EndsWithin
          (policy.delay_of
            (attempt_after Rebuilding.consumer (u32 (failures + 1)) (environment.error_text e)))
          made left (u32 (failures + 1)) e again earlier before after refl did
          (omega (arith, once, ap (λ r. count is_attempt r.0) did))
          (omega (arith, counted, once, ap (λ r. count is_attempt r.0) did))
          (last (environment.error_text e)) rest

    connect-lost :
        (earlier : Asked) (e : RabbitMqError)
        → environment.connected (ensures_connected ∷ earlier) ≡ some e
        → connect environment earlier ≡ (ensures_connected ∷ earlier, raised e)
    connect-lost earlier e lost = ground arith

    connect-live :
        (earlier : Asked)
        → let asked = ensures_connected ∷ earlier in
          environment.connected asked ≡ none
          → connect environment earlier
            ≡ (reads_generation ∷ asked, done (environment.generation (reads_generation ∷ asked)))
    connect-live earlier live = ground arith

    pub after_connect-EndsWithin :
        (made left failures : ℕ) (again : Asked → Asked × Recovered V B) (earlier : Asked)
        → made + u32 (failures + 1) ≡ count is_attempt earlier + 1
        → ((e : String)
            → left ≡ 0
            → policy.delay_of (attempt_after Rebuilding.consumer (u32 (failures + 1)) e) ≡ none)
        → ((asked : Asked)
            → made + u32 (failures + 1) ≡ count is_attempt asked
            → 0 < left
            → EndsWithin made left asked (again asked))
        → EndsWithin made
            (left + 1)
            earlier
            (after_connect environment policy state failures again (connect environment earlier))
    after_connect-EndsWithin made left failures again earlier counted last rest =
        let goal = λ (c : Asked × Outcome ℕ).
          EndsWithin made (left + 1) earlier
            (after_connect environment policy state failures again c) in
        elim (Option-cases (environment.connected (ensures_connected ∷ earlier))) [
          | inr (e, lost) ↦
              subst⁻¹ goal (connect-lost earlier e lost) (inl (earlier, refl, lost), omega arith)
          | inl live ↦ subst⁻¹ goal (connect-live earlier live) (
              after_subscribe-EndsWithin made left failures again earlier counted
                (subscribe environment state.config
                  (reads_generation ∷ ensures_connected ∷ earlier))
                refl live last rest)
        ]
