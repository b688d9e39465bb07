-- ===== src/Worker/Dispatch.antt =====
-- `dispatch`, `notify_dead` and `settle` of crates/core/src/worker.rs: what one delivery causes, as a
-- list of effects in the order in which they happen. The reason texts are kept as what they report.
use queuey.Common.{
  ℕ, ◌+◌, ◌%◌, String, Bool, true, false, Option, none, some, List, [], ◌∷◌, ◌++◌, if◌then◌else◌,
}
use queuey.Common.Map.{Map, get}
use queuey.Retry.{Duration, Floats, RetryPolicy, RetryDecision, retry, give_up, decide, or_else}
use queuey.Envelope.{Envelope, next_attempt, deferred}
use queuey.Worker.{
  ErasedHandler, JobOutcome, Failure, success, decode_failed, retryable, fatal, deferral,
}

-- dead_letter.rs
pub data DeadLetterCause : Type 0 where
  no_handler decode_error fatal_failure exhausted : DeadLetterCause

pub reached_handler : DeadLetterCause → Bool
reached_handler no_handler = false
reached_handler decode_error = false
reached_handler fatal_failure = true
reached_handler exhausted = true

pub data Reason : Type 0 where
  no_handler_for : (job_type : String) → Reason
  not_decoded : String → Reason
  fatal_because : String → Reason
  attempts_exhausted : (max_attempts attempt : ℕ) → Failure → Reason

pub record DeadLetter (V : Type 0) : Type 0 where
  pub envelope : Envelope V
  pub cause : DeadLetterCause
  pub reason : Reason
  pub max_attempts : Option ℕ

-- The calls of `Delivery` that settle it.
pub data Settlement (V : Type 0) : Type 0 where
  ack : Settlement V
  dead_letter : Reason → Settlement V
  retry_as : Envelope V → Duration → Settlement V
  defer_as : Envelope V → Duration → Settlement V

pub data Effect (V : Type 0) : Type 0 where
  hook : DeadLetter V → Effect V
  settled : Settlement V → Effect V

module _ {V : Type 0} where
  -- notify_dead; a hook that panics is logged and nothing else.
  unfoldable pub notify_dead : Bool → DeadLetter V → List (Effect V)
  notify_dead registered dead = if registered then hook dead ∷ [] else []

  -- A dead letter: the hook first, then the settlement.
  unfoldable pub bury : Bool → Envelope V → DeadLetterCause → Reason → Option ℕ → List (Effect V)
  unfolding notify_dead
  bury registered env cause reason max_attempts =
      notify_dead registered
        (record { envelope = env; cause = cause; reason = reason; max_attempts = max_attempts })
      ++ settled (dead_letter reason) ∷ []

  -- The match on the decision of the policy.
  unfoldable pub after_decision :
      Bool → Envelope V → RetryPolicy → Failure → RetryDecision → List (Effect V)
  unfolding bury next_attempt
  after_decision registered env policy e (retry delay) =
      settled (retry_as (next_attempt env) delay) ∷ []
  after_decision registered env policy e give_up =
      bury registered env exhausted (attempts_exhausted policy.max_attempts env.attempt e)
        (some policy.max_attempts)

  -- The match on the outcome.
  unfoldable pub after_run :
      Floats → Bool → ℕ → Envelope V → RetryPolicy → JobOutcome → List (Effect V)
  unfolding after_decision bury deferred
  after_run fl registered top env policy success = settled ack ∷ []
  after_run fl registered top env policy (decode_failed e) =
      bury registered env decode_error (not_decoded e) (some policy.max_attempts)
  after_run fl registered top env policy (fatal e) =
      bury registered env fatal_failure (fatal_because e) (some policy.max_attempts)
  after_run fl registered top env policy (deferral delay reason) =
      settled (defer_as (deferred env top) delay) ∷ []
  after_run fl registered top env policy (retryable e) =
      after_decision registered env policy e (decide fl policy env.attempt)

  unfoldable pub run_handler :
      Floats
      → Map RetryPolicy
      → Bool
      → Option Duration
      → ℕ
      → Envelope V
      → ErasedHandler V
      → List (Effect V)
  unfolding after_run
  run_handler fl policies registered timeout now_ms env handler =
      let configured = or_else (get env.job_type policies) handler.declared_policy in
      let (outcome, policy) = handler.run now_ms env timeout configured in
      after_run fl registered handler.defer_priority env policy outcome

  unfoldable pub dispatch :
      Floats
      → Map (ErasedHandler V)
      → Map RetryPolicy
      → Bool
      → Option Duration
      → ℕ
      → Envelope V
      → List (Effect V)
  unfolding run_handler bury
  dispatch fl handlers policies registered timeout now_ms env = elim (get env.job_type handlers) [
    | none ↦ bury registered env no_handler (no_handler_for env.job_type) none
    | some handler ↦ run_handler fl policies registered timeout now_ms env handler
  ]

  -- settle: the counter of failed settlements, for the answers that the backend gives.
  unfoldable pub settle_failures : (Settlement V → Bool) → List (Effect V) → ℕ → ℕ
  settle_failures accepted [] failures = failures
  settle_failures accepted (hook dead ∷ effects) failures =
      settle_failures accepted effects failures
  settle_failures accepted (settled s ∷ effects) failures =
      settle_failures accepted effects
        (if accepted s then failures else (failures + 1) % 18446744073709551616)
