-- ===== src/Rabbitmq/Stream/Recovery.antt =====
-- How `recover` of crates/rabbitmq/src/backend.rs ends, and after how many attempts to subscribe.
use queuey.Rabbitmq.Stream.Attempts.{is_attempt, after_connect-EndsWithin, EndsWithin, Justified}
use queuey.Common.{
  ℕ, zero, suc, ◌+◌, ◌-◌, ◌≤◌, ◌<◌, ◌≡◌, ◌⊎◌, inl, inr, refl, String, true, false, Option, none,
  some, ◌∷◌, arith, count, max, Bool-cases, if◌then◌else◌,
}
use mathlib.Core.Path.{subst, subst⁻¹}
use queuey.Envelope.{u32}
use queuey.Reconnect.{attempt_after, Rebuilding}
use queuey.Rabbitmq.Options.{ReconnectPolicy}
use queuey.Rabbitmq.Stream.Ask.{tests_closing, Asked, Environment}
use queuey.Rabbitmq.Stream.{
  ConsumeState, Recovered, stop, close_consumer_channel, resubscribe, with_policy, recover,
}

module _ {B : Type 0} (environment : Environment B) where
  module _ {V : Type 0} (policy : ReconnectPolicy) (state : ConsumeState V B) where
    resubscribe-EndsWithin :
        (made most fuel left failures : ℕ) (asked : Asked)
        → made + failures ≡ count is_attempt asked
        → ((failures : ℕ) (e : String)
            → most ≤ failures
            → policy.delay_of (attempt_after Rebuilding.consumer failures e) ≡ none)
        → most < 4294967296
        → left ≡ most - (failures + 1)
        → failures < 4294967295
        → left < fuel
        → EndsWithin environment policy state made
            (left + 1)
            asked
            (resubscribe environment fuel policy state failures asked)
    unfolding resubscribe
    resubscribe-EndsWithin made most zero left failures asked counted declines small rest few
          enough =
        absurd (omega arith)
    resubscribe-EndsWithin made most (suc fuel) left failures asked counted declines small rest few
          enough =
        let next : u32 (failures + 1) ≡ failures + 1 = omega arith in
        after_connect-EndsWithin environment policy state made left failures
          (resubscribe environment fuel policy state (u32 (failures + 1))) asked (omega arith)
          (λ e none_left. declines (u32 (failures + 1)) e (omega arith))
          (λ later more some_left.
            subst
              (λ n.
                EndsWithin environment policy state made n later
                  (resubscribe environment fuel policy state (u32 (failures + 1)) later))
              (omega arith)
              (resubscribe-EndsWithin made most fuel (left - 1) (u32 (failures + 1)) later more
                declines small (omega arith) (omega arith) (omega arith)))

  close-attempts :
      (channel : ℕ) (asked : Asked)
      → count is_attempt (close_consumer_channel environment channel asked) ≡ count is_attempt asked
  unfolding close_consumer_channel
  close-attempts channel asked = ground arith

  -- What `recover` does, by what it finds at its start.
  abbrev pub Recovers : {V : Type 0} → ℕ → ConsumeState V B → Asked → Asked × Recovered V B → Type 0
  Recovers most state asked result =
      let tested = tests_closing ∷ asked in
      ((environment.closing tested ≡ true) × (result ≡ (tested, stop)))
      ⊎ ((environment.closing tested ≡ false)
          × (state.publisher.options.reconnect ≡ none)
          × (result ≡ (tested, stop)))
      ⊎ ((environment.closing tested ≡ false)
          × (policy : ReconnectPolicy) × (state.publisher.options.reconnect ≡ some policy)
          × Justified environment policy state (count is_attempt asked) result
          × (count is_attempt result.0 ≤ count is_attempt asked + max 1 most))

  with_policy-Recovers :
      {V : Type 0} (most fuel : ℕ) (state : ConsumeState V B) (asked : Asked)
      (reconnect : Option ReconnectPolicy)
      → state.publisher.options.reconnect ≡ reconnect
      → ((policy : ReconnectPolicy) (failures : ℕ) (e : String)
          → state.publisher.options.reconnect ≡ some policy
          → most ≤ failures
          → policy.delay_of (attempt_after Rebuilding.consumer failures e) ≡ none)
      → most < 4294967296
      → most - 1 < fuel
      → environment.closing (tests_closing ∷ asked) ≡ false
      → Recovers most state asked
          (with_policy environment fuel reconnect state (tests_closing ∷ asked))
  with_policy-Recovers most fuel state asked none e declines small enough open' =
      inr (inl (open', e, refl))
  with_policy-Recovers most fuel state asked (some policy) e declines small enough open' =
      let cleaned = close_consumer_channel environment state.channel (tests_closing ∷ asked) in
      let (why, few) =
        resubscribe-EndsWithin policy state (count is_attempt asked) most fuel (most - 1) 0 cleaned
          (omega (arith, close-attempts state.channel (tests_closing ∷ asked)))
          (λ failures error over. declines policy failures error e over) small (omega arith)
          (omega arith) enough in
      inr (
        inr (
          open',
          policy,
          e,
          why,
          omega (arith, few, close-attempts state.channel (tests_closing ∷ asked)),
        ))

  -- With a policy that declines from some number of failures on, `recover` ends, and with the fuel of
  -- that number the loop of the model does. It ends the stream exactly when the handle is closing or
  -- has no policy. Else it makes at most as many attempts to subscribe as that number (one at
  -- least), and it ends because a consumer of the same queue started on a new channel, with the
  -- prefetch set before and with the generation that the handle had after it was connected; or with
  -- the error of the handle, of the interrupted sleep, or of the last attempt, after which the policy
  -- declined to go on for as many failures as `recover` made attempts.
  pub recover-Recovers :
      {V : Type 0} (most fuel : ℕ) (state : ConsumeState V B) (asked : Asked)
      → ((policy : ReconnectPolicy) (failures : ℕ) (e : String)
          → state.publisher.options.reconnect ≡ some policy
          → most ≤ failures
          → policy.delay_of (attempt_after Rebuilding.consumer failures e) ≡ none)
      → most < 4294967296
      → most - 1 < fuel
      → Recovers most state asked (recover environment fuel state asked)
  unfolding recover
  recover-Recovers most fuel state asked declines small enough =
      let tested = tests_closing ∷ asked in
      let rest = with_policy environment fuel state.publisher.options.reconnect state tested in
      elim (Bool-cases (environment.closing tested)) [
        | inl closing ↦
            subst⁻¹ (λ b. Recovers most state asked (if b then (tested, stop) else rest)) closing
              (inl (closing, refl))
        | inr open' ↦
            subst⁻¹ (λ b. Recovers most state asked (if b then (tested, stop) else rest)) open'
              (with_policy-Recovers most fuel state asked state.publisher.options.reconnect refl
                declines small enough open')
      ]
