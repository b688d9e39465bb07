-- ===== src/Retry.antt =====
-- crates/core/src/retry.rs: retry policies and the backoff curve. A `Duration` is a number of
-- nanoseconds. An `f64` is the number that its 64 bits spell; what `std` and `rand` do with such
-- numbers is a parameter, `Floats`. A finite `x <= 0.0` is written as not `x > 0.0`.
pub mod Bounds
pub mod Tests
use queuey.Common.{ℕ, ◌-◌, Bool, not, ◌&&◌, ◌||◌, Option, none, some, min, max}
use queuey.Common.{leb, ◌==◌, if◌then◌else◌}

abbrev pub Duration : Type 0
Duration = ℕ

abbrev pub F64 : Type 0
F64 = ℕ

-- The operations of `f64`, `Duration` and `rand` that the curve calls.
pub record Floats : Type 0 where
  pub zero_f64 : F64
  pub one_f64 : F64
  pub from_u32 : ℕ → F64  -- f64::from
  pub is_finite : F64 → Bool
  pub is_positive : F64 → Bool  -- x > 0.0
  pub multiply : F64 → F64 → F64
  pub powf : F64 → F64 → F64
  pub clamp : F64 → F64 → F64 → F64
  pub as_secs_f64 : Duration → F64
  pub try_from_secs_f64 : F64 → Option Duration
  pub random_up_to : F64 → F64  -- rng().random_range(0.0..=x)

pub data Backoff : Type 0 where
  no_backoff : Backoff
  fixed : Duration → Backoff
  exponential : (base : Duration) (factor : F64) (limit : Duration) (jitter : Bool) → Backoff

pub record RetryPolicy : Type 0 where
  pub max_attempts : ℕ
  pub backoff : Backoff

pub data RetryDecision : Type 0 where
  retry : (delay : Duration) → RetryDecision
  give_up : RetryDecision

abbrev pub or_else {ℓ} : {A : Type ℓ} → Option A → A → A
or_else none d = d
or_else (some a) d = a

-- RetryPolicy::default, which is also RetryPolicy::none
pub default_policy : RetryPolicy
default_policy = record { max_attempts = 1; backoff = no_backoff }

module _ (fl : Floats) where
  open fl use {
    zero_f64, one_f64, from_u32, is_finite, is_positive, multiply, powf, clamp, as_secs_f64,
    try_from_secs_f64, random_up_to,
  }

  unfoldable pub usable_factor : F64 → F64
  usable_factor factor = if is_finite factor && is_positive factor then factor else one_f64

  pub exponential_delay : Duration → F64 → Duration → ℕ → Duration
  unfolding usable_factor
  exponential_delay base factor limit failed_attempt =
      let exponent = from_u32 (max failed_attempt 1 - 1) in
      let secs = multiply (as_secs_f64 base) (powf (usable_factor factor) exponent) in
      let capped = clamp secs zero_f64 (as_secs_f64 limit) in
      if base == 0 || limit == 0
      then 0
      else if not (is_finite secs)
      then limit
      else min (or_else (try_from_secs_f64 capped) limit) limit

  pub full_jitter : Duration → Duration
  full_jitter delay =
      let secs = as_secs_f64 delay in
      if not (is_finite secs) || not (is_positive secs)
      then 0
      else min (or_else (try_from_secs_f64 (random_up_to secs)) delay) delay

  -- Backoff::delay_for is this function.
  unfoldable pub compute_delay : Backoff → ℕ → Duration
  unfolding exponential_delay full_jitter
  compute_delay no_backoff failed_attempt = 0
  compute_delay (fixed delay) failed_attempt = delay
  compute_delay (exponential base factor limit jitter) failed_attempt =
      let computed = exponential_delay base factor limit failed_attempt in
      if jitter then full_jitter computed else computed

  unfoldable pub decide : RetryPolicy → ℕ → RetryDecision
  decide policy failed_attempt =
      if leb policy.max_attempts failed_attempt
      then give_up
      else retry (compute_delay policy.backoff failed_attempt)
