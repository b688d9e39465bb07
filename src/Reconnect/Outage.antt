-- ===== src/Reconnect/Outage.antt =====
-- How often and after which delays a policy tries during one outage (crates/rabbitmq/src/reconnect.rs).
use queuey.Common.{
  ◌⊎◌, ℕ, zero, suc, ◌+◌, ◌-◌, ◌<◌, ◌≤◌, ◌≡◌, ◌==◌, if◌then◌else◌, Bool, true, false, none, some,
  List, [], ◌∷◌, arith, All, length, leb, Bool-cases, inl, inr,
}
use queuey.Retry.{Duration, F64, Floats, Backoff, exponential, compute_delay}
use queuey.Retry.Bounds.{compute_delay-le-limit}
use queuey.Reconnect.{Rebuilding, BackoffPolicy, attempt_after, next_delay}

module _ {E : Type 0} (fl : Floats) (rebuilding : Rebuilding) (error : E) where
  -- The delays that the policy asks for while every attempt fails, from a number of failures on.
  pub delays : ℕ → BackoffPolicy → ℕ → List Duration
  delays zero policy failures = []
  delays (suc fuel) policy failures =
      let rest = delays fuel policy (failures + 1) in
      elim (next_delay fl policy (attempt_after rebuilding failures error)) [
        | none ↦ []
        | some delay ↦ delay ∷ rest
      ]

  capped :
      (base : Duration) (factor : F64) (limit : Duration) (jitter : Bool) (failures : ℕ)
      → compute_delay fl (exponential base factor limit jitter) failures ≤ limit
  capped base factor limit true failures =
      let (plain, shorter) = compute_delay-le-limit fl base factor limit failures in
      omega (arith, plain, shorter)
  capped base factor limit false failures = (compute_delay-le-limit fl base factor limit failures).0

  next_delay_over :
      (most failures : ℕ) (curve : Backoff)
      → leb most failures ≡ true
      → next_delay fl
          (record { max_attempts = some most; backoff = curve })
          (attempt_after rebuilding failures error)
        ≡ none
  unfolding next_delay attempt_after
  next_delay_over most failures curve over = ground arith

  next_delay_more :
      (most failures : ℕ) (curve : Backoff)
      → leb most failures ≡ false
      → next_delay fl
          (record { max_attempts = some most; backoff = curve })
          (attempt_after rebuilding failures error)
        ≡ some (if failures == 0 then 0 else compute_delay fl curve failures)
  unfolding next_delay attempt_after
  next_delay_more most failures curve more = ground arith

  -- During one outage a policy with a maximum makes exactly the attempts that are left to that
  -- maximum, and the fuel of these and one is enough. If there is one and nothing failed before it,
  -- the first is made at once, and with an exponential backoff none waits longer than the limit.
  pub length-delays :
      (fuel most failures : ℕ) (base : Duration) (factor : F64) (limit : Duration) (jitter : Bool)
      → most - failures < fuel
      → let waits =
          delays fuel
            (record { max_attempts = some most; backoff = exponential base factor limit jitter })
            failures in
        (length waits ≡ most - failures)
        × All (λ wait. wait ≤ limit) waits
        × ((1 ≤ failures) ⊎ (most ≡ 0) ⊎ ((rest : List Duration) × (waits ≡ 0 ∷ rest)))
  unfolding delays
  length-delays zero most failures base factor limit jitter enough = absurd (omega arith)
  length-delays (suc fuel) most failures base factor limit jitter enough =
      let curve = exponential base factor limit jitter in
      elim (Bool-cases (leb most failures)) [
        | inl over ↦
            rw (next_delay_over most failures curve over, delays)
              (
                ground arith,
                tt,
                elim (Bool-cases (failures == 0)) [
                  | inl first ↦ inr (inl (ground arith))
                  | inr later ↦ inl (ground arith)
                ],
              )
        | inr more ↦
            let (count, all, start) =
              length-delays fuel most (failures + 1) base factor limit jitter (ground arith) in
            rw (next_delay_more most failures curve more, delays)
              (
                ground (arith, count),
                (ground (arith, capped base factor limit jitter failures), all),
                elim (Bool-cases (failures == 0)) [
                  | inr later ↦ inl (ground arith)
                  | inl first ↦ inr (
                      inr (
                        delays fuel (record { max_attempts = some most; backoff = curve })
                            (failures + 1),
                        ground arith,
                      ))
                ],
              )
      ]
