-- ===== src/Retry/Bounds.antt =====
-- How long a retry waits: the delays of `compute_delay` (crates/core/src/retry.rs).
use queuey.Common.{ℕ, ◌≤◌, ◌-◌, ◌≡◌, refl, Bool, true, false, ◌&&◌, some, arith, min, max}
use queuey.Retry.{Floats, F64, Duration, exponential, compute_delay, exponential_delay, full_jitter}

module _ (fl : Floats) where
  exponential_delay-le :
      (base : Duration) (factor : F64) (limit : Duration) (attempt : ℕ)
      → exponential_delay fl base factor limit attempt ≤ limit
  unfolding exponential_delay
  exponential_delay-le base factor limit attempt = ground arith

  full_jitter-le : (delay : Duration) → full_jitter fl delay ≤ delay
  unfolding full_jitter
  full_jitter-le delay = ground arith

  -- Whatever the floating-point operations answer, and for every attempt number, an exponential
  -- backoff never waits longer than its limit, and with jitter never longer than without.
  pub compute_delay-le-limit :
      (base : Duration) (factor : F64) (limit : Duration) (attempt : ℕ)
      → (compute_delay fl (exponential base factor limit false) attempt ≤ limit)
        × (compute_delay fl (exponential base factor limit true) attempt
            ≤ compute_delay fl (exponential base factor limit false) attempt)
  unfolding compute_delay
  compute_delay-le-limit base factor limit attempt =
      (exponential_delay-le base factor limit attempt, full_jitter-le _)

  -- A factor that is not finite, or not above zero, gives one delay for all attempts, with and
  -- without jitter, if 1.0 to any power is 1.0.
  pub compute_delay-unusable_factor :
      ((x : F64) → fl.powf fl.one_f64 x ≡ fl.one_f64)
      → (base : Duration) (factor : F64) (limit : Duration) (jitter : Bool)
      → (fl.is_finite factor && fl.is_positive factor) ≡ false
      → (i j : ℕ)
      → compute_delay fl (exponential base factor limit jitter) i
        ≡ compute_delay fl (exponential base factor limit jitter) j
  unfolding compute_delay exponential_delay
  compute_delay-unusable_factor pow_one base factor limit jitter h i j =
      rw (h, pow_one, pow_one) refl

  -- What is asked of the operations for a curve to start at its base: x to the 0 is 1, x times 1 is
  -- x, `clamp` of seconds follows the order of the durations, and the two durations at hand are
  -- finite and survive the conversion to seconds and back.
  pub record IsExact (base limit : Duration) : Type 0 where
    pub pow_zero : (x : F64) → fl.powf x (fl.from_u32 0) ≡ fl.one_f64
    pub mul_one : (x : F64) → fl.multiply x fl.one_f64 ≡ x
    pub finite_base : fl.is_finite (fl.as_secs_f64 base) ≡ true
    pub clamp_base :
        fl.clamp (fl.as_secs_f64 base) fl.zero_f64 (fl.as_secs_f64 limit)
        ≡ fl.as_secs_f64 (min base limit)
    pub back_base : fl.try_from_secs_f64 (fl.as_secs_f64 (min base limit)) ≡ some (min base limit)

  -- The first wait of an exponential curve without jitter is the base, cut off at the limit; the
  -- attempt number 0, which no envelope has, is treated like 1.
  pub compute_delay-first :
      (base : Duration) (factor : F64) (limit : Duration) (attempt : ℕ)
      → IsExact base limit
      → attempt ≤ 1
      → compute_delay fl (exponential base factor limit false) attempt ≡ min base limit
  unfolding compute_delay exponential_delay
  compute_delay-first base factor limit attempt x h =
      rw (first, x.pow_zero, x.mul_one, x.finite_base, x.clamp_base, x.back_base) (ground arith)
    where
      first : max attempt 1 - 1 ≡ 0
      first = omega arith
