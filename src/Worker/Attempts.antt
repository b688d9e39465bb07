-- ===== src/Worker/Attempts.antt =====
-- How often a job is attempted: the retries and deferrals that `dispatch` of
-- crates/core/src/worker.rs asks for, and the life of a job that keeps failing.
use queuey.Common.{
  sym, String, ℕ, ◌+◌, ◌<◌, ◌≡◌, refl, ap, Bool, true, false, Option, none, some, List, [], ◌∷◌,
  arith, ◌∙◌,
}
use queuey.Common.Map.{Map, get}
use queuey.Retry.{Duration, Floats, RetryPolicy, decide, compute_delay, or_else}
use queuey.Envelope.{Envelope, u32}
use queuey.Worker.{ErasedHandler, JobOutcome, success, decode_failed, retryable, fatal, deferral}
use queuey.Worker.Dispatch.{
  DeadLetterCause, decode_error, fatal_failure, exhausted, not_decoded, fatal_because, Settlement,
  Effect, Reason, dead_letter, retry_as, defer_as, hook, settled, bury, after_run, dispatch,
  attempts_exhausted,
}

module _ {V : Type 0} where
  abbrev later : Option (Settlement V) → Settlement V → Settlement V
  later none s = s
  later (some t) s = t

  -- The last settlement of a list of effects.
  unfoldable pub settlement_of : List (Effect V) → Option (Settlement V)
  settlement_of [] = none
  settlement_of (hook dead ∷ effects) = settlement_of effects
  settlement_of (settled s ∷ effects) = some (later (settlement_of effects) s)

  abbrev pub settles : Effect V → Bool
  settles (hook dead) = false
  settles (settled s) = true

  pub bury-settlement :
      (registered : Bool) (env : Envelope V) (cause : DeadLetterCause) (reason : Reason)
      (m : Option ℕ)
      → settlement_of (bury registered env cause reason m) ≡ some (dead_letter reason)
  unfolding settlement_of bury
  bury-settlement true env cause reason m = refl
  bury-settlement false env cause reason m = refl

  after_run-retry :
      (fl : Floats) (registered : Bool) (top : ℕ) (env : Envelope V) (policy : RetryPolicy)
      (o : JobOutcome) (next : Envelope V) (delay : Duration)
      → policy.max_attempts < 4294967296
      → settlement_of (after_run fl registered top env policy o) ≡ some (retry_as next delay)
      → (env.attempt < policy.max_attempts)
        × (next ≡ record env { attempt = env.attempt + 1; priority = 0 })
        × (delay ≡ compute_delay fl policy.backoff env.attempt)
  unfolding settlement_of after_run decide
  after_run-retry fl registered top env policy success next delay small asked = cc
  after_run-retry fl registered top env policy (decode_failed e) next delay small asked =
      cc (bury-settlement registered env decode_error (not_decoded e) (some policy.max_attempts))
  after_run-retry fl registered top env policy (fatal e) next delay small asked =
      cc (bury-settlement registered env fatal_failure (fatal_because e) (some policy.max_attempts))
  after_run-retry fl registered top env policy (deferral d reason) next delay small asked = cc
  after_run-retry fl registered top env policy (retryable e) next delay small asked = ground (
    arith,
    bury-settlement registered env exhausted (attempts_exhausted policy.max_attempts env.attempt e)
        (some policy.max_attempts),
  )

  after_run-deferral :
      (fl : Floats) (registered : Bool) (top : ℕ) (env : Envelope V) (policy : RetryPolicy)
      (o : JobOutcome) (next : Envelope V) (delay : Duration)
      → settlement_of (after_run fl registered top env policy o) ≡ some (defer_as next delay)
      → ((reason : String) × (o ≡ deferral delay reason))
        × (next ≡ record env { deferrals = u32 (env.deferrals + 1); priority = top })
  unfolding settlement_of after_run decide
  after_run-deferral fl registered top env policy success next delay asked = absurd (cc)
  after_run-deferral fl registered top env policy (decode_failed e) next delay asked =
      absurd (
        cc (bury-settlement registered env decode_error (not_decoded e) (some policy.max_attempts)))
  after_run-deferral fl registered top env policy (fatal e) next delay asked = absurd (
      cc
        (bury-settlement registered env fatal_failure (fatal_because e) (some policy.max_attempts)))
  after_run-deferral fl registered top env policy (deferral d reason) next delay asked =
      ((reason, ground arith), ground arith)
  after_run-deferral fl registered top env policy (retryable e) next delay asked = absurd (
      ground (
        arith,
        bury-settlement registered env exhausted
            (attempts_exhausted policy.max_attempts env.attempt e) (some policy.max_attempts),
      ))

  module _ (fl : Floats) (handlers : Map (ErasedHandler V)) (policies : Map RetryPolicy)
      (registered : Bool) (timeout : Option Duration) (now_ms : ℕ) (env : Envelope V)
      (handler : ErasedHandler V) (found : get env.job_type handlers ≡ some handler) where
    abbrev effects_of : List (Effect V)
    effects_of = dispatch fl handlers policies registered timeout now_ms env

    -- The policy that the attempt is judged by.
    abbrev judged_by : RetryPolicy
    judged_by =
        (handler.run now_ms env timeout
          (or_else (get env.job_type policies) handler.declared_policy)).1

    abbrev outcome : JobOutcome
    outcome =
        (handler.run now_ms env timeout
          (or_else (get env.job_type policies) handler.declared_policy)).0

    dispatch_found :
        effects_of ≡ after_run fl registered handler.defer_priority env judged_by outcome
    unfolding dispatch
    dispatch_found = rw (found, dispatch) refl

    -- A retry is asked for only below the policy's maximum, so the attempt number of a policy with a
    -- 32-bit maximum does not wrap: the next envelope is this one with the attempt number one higher
    -- and the priority back at 0, after the delay of the policy's curve.
    pub dispatch-retry :
        (next : Envelope V) (delay : Duration)
        → judged_by.max_attempts < 4294967296
        → settlement_of effects_of ≡ some (retry_as next delay)
        → (env.attempt < judged_by.max_attempts)
          × (next ≡ record env { attempt = env.attempt + 1; priority = 0 })
          × (delay ≡ compute_delay fl judged_by.backoff env.attempt)
    dispatch-retry next delay small asked =
        after_run-retry fl registered handler.defer_priority env judged_by outcome next delay small
          (sym (ap settlement_of dispatch_found) ∙ asked)

    -- A deferral is asked for only when the handler deferred the job, for the delay that it named.
    -- The attempt number stays, whatever the policy; the deferral counter grows by one, in 32 bits,
    -- and the priority is the top level of the job's queue.
    dispatch-deferral :
        (next : Envelope V) (delay : Duration)
        → settlement_of effects_of ≡ some (defer_as next delay)
        → ((reason : String) × (outcome ≡ deferral delay reason))
          × (next ≡ record env {
            deferrals = u32 (env.deferrals + 1);
            priority = handler.defer_priority;
          })
    dispatch-deferral next delay asked =
        after_run-deferral fl registered handler.defer_priority env judged_by outcome next delay
          (sym (ap settlement_of dispatch_found) ∙ asked)
