-- ===== src/Worker/Settling.antt =====
-- Each delivery is settled once, and a dead letter is announced first (crates/core/src/worker.rs).
use queuey.Common.{
  ℕ, ◌≡◌, refl, inl, inr, Bool, true, false, Option, List, [], ◌∷◌, ◌++◌, Option-cases,
}
use queuey.Common.Map.{Map, get}
use queuey.Retry.{Duration, Floats, RetryPolicy, RetryDecision, retry, give_up, decide}
use queuey.Envelope.{Envelope, next_attempt, deferred}
use queuey.Worker.{
  Failure, ErasedHandler, JobOutcome, success, decode_failed, retryable, fatal, deferral,
}
use queuey.Worker.Dispatch.{
  DeadLetterCause, DeadLetter, Settlement, Effect, Reason, ack, dead_letter, retry_as, defer_as,
  hook, settled, bury, after_decision, after_run, dispatch,
}

module _ {V : Type 0} where
  -- What is announced before a settlement: for a dead letter and a registered hook, one call with
  -- the delivery's envelope and the reason of the dead letter; otherwise nothing.
  abbrev pub Announces : Envelope V → Settlement V → Bool → List (Effect V) → Type 0
  Announces env (dead_letter reason) true effects =
      (dead : DeadLetter V) × (effects ≡ hook dead ∷ [])
      × (dead.envelope ≡ env)
      × (dead.reason ≡ reason)
  Announces env (dead_letter reason) false effects = effects ≡ []
  Announces env ack registered effects = effects ≡ []
  Announces env (retry_as next delay) registered effects = effects ≡ []
  Announces env (defer_as next delay) registered effects = effects ≡ []

  abbrev pub SettlesOnce : Bool → Envelope V → List (Effect V) → Type 0
  SettlesOnce registered env effects =
      (before : List (Effect V)) × (s : Settlement V) × (effects ≡ before ++ settled s ∷ [])
      × Announces env s registered before

  bury-SettlesOnce :
      (registered : Bool) (env : Envelope V) (cause : DeadLetterCause) (reason : Reason)
      (m : Option ℕ)
      → SettlesOnce registered env (bury registered env cause reason m)
  unfolding bury
  bury-SettlesOnce true env cause reason m = (_, dead_letter reason, refl, (_, refl, refl, refl))
  bury-SettlesOnce false env cause reason m = ([], dead_letter reason, refl, refl)

  after_decision-SettlesOnce :
      (registered : Bool) (env : Envelope V) (policy : RetryPolicy) (e : Failure)
      (d : RetryDecision)
      → SettlesOnce registered env (after_decision registered env policy e d)
  unfolding after_decision
  after_decision-SettlesOnce registered env policy e (retry delay) =
      ([], retry_as (next_attempt env) delay, refl, refl)
  after_decision-SettlesOnce registered env policy e give_up = bury-SettlesOnce registered env _ _ _

  after_run-SettlesOnce :
      (fl : Floats) (registered : Bool) (top : ℕ) (env : Envelope V) (policy : RetryPolicy)
      (o : JobOutcome)
      → SettlesOnce registered env (after_run fl registered top env policy o)
  unfolding after_run
  after_run-SettlesOnce fl registered top env policy success = ([], ack, refl, refl)
  after_run-SettlesOnce fl registered top env policy (decode_failed e) =
      bury-SettlesOnce registered env _ _ _
  after_run-SettlesOnce fl registered top env policy (fatal e) =
      bury-SettlesOnce registered env _ _ _
  after_run-SettlesOnce fl registered top env policy (deferral delay reason) =
      ([], defer_as (deferred env top) delay, refl, refl)
  after_run-SettlesOnce fl registered top env policy (retryable e) =
      after_decision-SettlesOnce registered env policy e (decide fl policy env.attempt)

  -- Whatever is registered and however the handler ends, a delivery is settled exactly once and
  -- nothing follows the settlement. Before it, the dead-letter hook is called exactly if the
  -- settlement is a dead letter and a hook is registered, once, with the delivery's envelope and the
  -- reason that is written to the dead letter.
  pub dispatch-SettlesOnce :
      (fl : Floats) (handlers : Map (ErasedHandler V)) (policies : Map RetryPolicy)
      (registered : Bool) (timeout : Option Duration) (now_ms : ℕ) (env : Envelope V)
      → SettlesOnce registered env (dispatch fl handlers policies registered timeout now_ms env)
  unfolding dispatch
  dispatch-SettlesOnce fl handlers policies registered timeout now_ms env =
      elim (Option-cases (get env.job_type handlers)) [
        | inl missing ↦ rw (missing, dispatch) (bury-SettlesOnce registered env _ _ _)
        | inr (handler, found) ↦
            rw (found, dispatch)
              (after_run-SettlesOnce fl registered handler.defer_priority env _ _)
      ]
