-- ===== src/Worker/Life.antt =====
-- The life of a job that fails whenever it runs: dispatch of one attempt after the other, along
-- the envelopes that the retries publish (crates/core/src/worker.rs, retry.rs and envelope.rs).
use queuey.Common.{
  String, ℕ, zero, suc, ◌+◌, ◌-◌, ◌<◌, ◌≡◌, refl, ap, ◌∙◌, Bool, true, false, Option, none, some,
  List, [], ◌∷◌, ◌++◌, arith, max, count, leb, Bool-cases, inl, inr,
}
use queuey.Common.Map.{Map, get}
use queuey.Retry.{Duration, Floats, RetryPolicy, give_up, decide, compute_delay, or_else}
use queuey.Envelope.{Envelope, next_attempt}
use queuey.Worker.{ErasedHandler, Failure, retryable}
use queuey.Worker.Dispatch.{
  Settlement, Effect, ack, dead_letter, retry_as, defer_as, settled, bury, after_decision, dispatch,
  attempts_exhausted,
}
use queuey.Worker.Attempts.{settlement_of, settles, bury-settlement}

max-le : (m a : ℕ) → leb m a ≡ true → a ≡ max m a
max-le m a h = ground arith

module _ {V : Type 0} where
  -- The envelope of the retry that a settlement publishes.
  abbrev pub republished : Option (Settlement V) → Option (Envelope V)
  republished none = none
  republished (some ack) = none
  republished (some (dead_letter reason)) = none
  republished (some (retry_as next delay)) = some next
  republished (some (defer_as next delay)) = none

  -- An attempt's effects, followed by those of the retry that it publishes, if any.
  pub go_on : (Envelope V → List (Effect V)) → List (Effect V) → List (Effect V)
  go_on next_life effects = elim (republished (settlement_of effects)) [
    | none ↦ effects
    | some next ↦ effects ++ next_life next
  ]

  go_on-buried :
      (rest : Envelope V → List (Effect V)) (registered : Bool) (env : Envelope V)
      (policy : RetryPolicy) (e : Failure)
      → go_on rest (after_decision registered env policy e give_up)
        ≡ after_decision registered env policy e give_up
  unfolding go_on after_decision settlement_of bury
  go_on-buried rest true env policy e = refl
  go_on-buried rest false env policy e = refl

  count-bury :
      (registered : Bool) (env : Envelope V) (policy : RetryPolicy) (e : Failure)
      → count settles (after_decision registered env policy e give_up) ≡ 1
  unfolding after_decision
  count-bury true env policy e = refl
  count-bury false env policy e = refl

  after_decision-settlement :
      (registered : Bool) (env : Envelope V) (policy : RetryPolicy) (e : Failure)
      → settlement_of (after_decision registered env policy e give_up)
        ≡ some (dead_letter (attempts_exhausted policy.max_attempts env.attempt e))
  unfolding after_decision
  after_decision-settlement registered env policy e = bury-settlement registered env _ _ _

  module _ (fl : Floats) (handlers : Map (ErasedHandler V)) (policies : Map RetryPolicy)
      (registered : Bool) (timeout : Option Duration) (now_ms : ℕ) where
    -- All effects, from one attempt to the next, for as many attempts as `fuel` allows.
    pub life : ℕ → Envelope V → List (Effect V)
    life zero env = []
    life (suc fuel) env =
        go_on (life fuel) (dispatch fl handlers policies registered timeout now_ms env)

    -- A handler that fails every run of the jobs of one type and payload with a retryable error, each
    -- judged by one policy, in the worker that dispatches them.
    pub record AlwaysFails (handler : ErasedHandler V) (job_type : String) (payload : V)
        (policy : RetryPolicy) (fail : Envelope V → Failure) : Type 0 where
      pub run_fails :
          (env : Envelope V)
          → env.job_type ≡ job_type
          → env.payload ≡ payload
          → handler.run now_ms env timeout
              (or_else (get env.job_type policies) handler.declared_policy)
            ≡ (retryable (fail env), policy)
      pub small : policy.max_attempts < 4294967296

    module _ (handler : ErasedHandler V) (job_type : String) (payload : V) (policy : RetryPolicy)
        (fail : Envelope V → Failure) (fails : AlwaysFails handler job_type payload policy fail)
        (found : get job_type handlers ≡ some handler) where
      effects_failed :
          (env : Envelope V)
          → env.job_type ≡ job_type
          → env.payload ≡ payload
          → dispatch fl handlers policies registered timeout now_ms env
            ≡ after_decision registered env policy (fail env) (decide fl policy env.attempt)
      unfolding dispatch
      effects_failed env typed loaded =
          let registered_there : get env.job_type handlers ≡ some handler =
            ap (λ name. get name handlers) typed ∙ found in
          rw (registered_there, dispatch) (rw (fails.run_fails env typed loaded) refl)

      -- One round: the last attempt, and one before it.
      decision-last :
          (env : Envelope V) (e : Failure)
          → leb policy.max_attempts env.attempt ≡ true
          → after_decision registered env policy e (decide fl policy env.attempt)
            ≡ after_decision registered env policy e give_up
      unfolding decide
      decision-last env e over = rw over refl

      life_last :
          (fuel : ℕ) (env : Envelope V)
          → env.job_type ≡ job_type
          → env.payload ≡ payload
          → leb policy.max_attempts env.attempt ≡ true
          → life (suc fuel) env ≡ after_decision registered env policy (fail env) give_up
      unfolding life
      life_last fuel env typed loaded over =
          ap (go_on (life fuel))
            (effects_failed env typed loaded ∙ decision-last env (fail env) over)
          ∙ go_on-buried (life fuel) registered env policy (fail env)

      decision-more :
          (env : Envelope V) (e : Failure)
          → leb policy.max_attempts env.attempt ≡ false
          → after_decision registered env policy e (decide fl policy env.attempt)
            ≡ settled (retry_as (next_attempt env) (compute_delay fl policy.backoff env.attempt))
              ∷ []
      unfolding decide after_decision
      decision-more env e more = rw more refl

      life_more :
          (fuel : ℕ) (env : Envelope V)
          → env.job_type ≡ job_type
          → env.payload ≡ payload
          → leb policy.max_attempts env.attempt ≡ false
          → life (suc fuel) env
            ≡ settled (retry_as (next_attempt env) (compute_delay fl policy.backoff env.attempt))
              ∷ life fuel (next_attempt env)
      unfolding life go_on settlement_of
      life_more fuel env typed loaded more =
          ap (go_on (life fuel))
            (effects_failed env typed loaded ∙ decision-more env (fail env) more)

      -- A job whose registered handler fails with a retryable error in every run of a job of its type and
      -- payload, each judged by one policy with a 32-bit maximum, is attempted exactly until the attempt number reaches that
      -- maximum, and at least once, and then dead-lettered with the maximum as the reason: the fuel
      -- of the attempts left, and one, is enough. It is settled once for each attempt.
      pub life_exhausts :
          (fuel : ℕ) (env : Envelope V)
          → env.job_type ≡ job_type
          → env.payload ≡ payload
          → policy.max_attempts - env.attempt < fuel
          → (count settles (life fuel env) ≡ suc (policy.max_attempts - env.attempt))
            × ((e : Failure) × (settlement_of (life fuel env)
                  ≡ some (
                      dead_letter (
                        attempts_exhausted policy.max_attempts
                          (max policy.max_attempts env.attempt)
                          e))))
      unfolding next_attempt settlement_of
      life_exhausts zero env typed loaded enough = absurd (omega arith)
      life_exhausts (suc fuel) env typed loaded enough =
          let m = policy.max_attempts in
          let small = fails.small in
          elim (Bool-cases (leb m env.attempt)) [
            | inl over ↦ rw (life_last fuel env typed loaded over) (
              count-bury registered env policy (fail env) ∙ ground arith,
              (
                fail env,
                after_decision-settlement registered env policy (fail env)
                    ∙ ap (λ n. some (dead_letter (attempts_exhausted m n (fail env))))
                        (max-le m env.attempt over),
              ),
            )
            | inr more ↦
                let lt : env.attempt < m = ground arith in
                let next : (next_attempt env).attempt ≡ env.attempt + 1 = omega arith in
                let (rounds, last) =
                  life_exhausts fuel (next_attempt env) typed loaded (omega arith) in
                rw (life_more fuel env typed loaded more)
                  (omega (arith, rounds), (last.0, ground (arith, last.1)))
          ]
