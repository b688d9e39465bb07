-- ===== src/Topology/HoldTtl.antt =====
-- The time-to-live of a hold queue: `deferred_ttl_ms` of crates/rabbitmq/src/topology.rs.
use native.Mathlib.Nat.{div-add-mod', mod-lt, le-div_iff_mul-le, mul-le-mul_right}
use native.Mathlib.Decide.{dec_le}
use queuey.Common.{
  ◌⊎◌, inl, inr, zero, suc, ℕ, zero, suc, ◌+◌, ◌-◌, ◌*◌, ◌≤◌, ◌<◌, ◌≡◌, some, none, arith, max, leb,
  if◌then◌else◌,
}
use queuey.Retry.{Duration}
use queuey.Topology.{max_deferral_ms, div_ceil, millis_ceil, hold_step, deferred_ttl_ms}

-- The multiple of `step` that rounding up arrives at.
abbrev round_up : ℕ → ℕ → ℕ
round_up n step = div_ceil n step * step

round_up_bounds : (n step : ℕ) → 0 < step → (n ≤ round_up n step) × (round_up n step < n + step)
round_up_bounds n step h =
    let d = div-add-mod' (n + (step - 1)) step in
    let r = mod-lt (n + (step - 1)) h in (omega arith, omega arith)

hold_step_bounds : (g : Duration) → (1 ≤ hold_step g) × (hold_step g ≤ max_deferral_ms)
unfolding hold_step
hold_step_bounds g = (omega arith, omega arith)

millis_ceil_bounds :
    (d : Duration) → (d ≤ millis_ceil d * 1000000) × (millis_ceil d * 1000000 < d + 1000000)
unfolding millis_ceil
millis_ceil_bounds d = round_up_bounds d 1000000 (omega arith)

-- A hold is refused only if rounding up passes the cap; the ttl it gets otherwise.
pub deferred_ttl_ms_lem :
    (d g : Duration)
    → deferred_ttl_ms d g ≡ (
        if leb (max (round_up (millis_ceil d) (hold_step g)) (hold_step g)) max_deferral_ms
        then some (max (round_up (millis_ceil d) (hold_step g)) (hold_step g))
        else none)
unfolding deferred_ttl_ms
deferred_ttl_ms_lem d g = ground arith

-- Rounding up gives the least multiple that is not below.
round_up-least : (n step k : ℕ) → 0 < step → n ≤ k * step → round_up n step ≤ k * step
round_up-least n step k h le =
    let below : div_ceil n step ≤ k = elim (dec_le (div_ceil n step) k) [
      | yes p ↦ p
      | no p ↦ absurd (
          omega (
            arith,
            (le-div_iff_mul-le {k = step} {x = k + 1} {y = n + (step - 1)} h).0 (omega arith),
          ))
    ] in
    mul-le-mul_right step below

max-mul_one : (k step : ℕ) → max (k * step) step ≡ max k 1 * step
max-mul_one zero step = omega arith
max-mul_one (suc k) step = grind arith

-- What a delay waits is a whole number of steps. It is never less than the delay and never more
-- than the broker's bound, and it is less than one step above the delay's whole milliseconds (one
-- millisecond, for a delay of zero).
pub deferred_ttl_ms_bounds :
    (d g : Duration) (t : ℕ)
    → deferred_ttl_ms d g ≡ some t
    → ((k : ℕ) × (1 ≤ k) × (t ≡ k * hold_step g))
      × (d ≤ t * 1000000)
      × (t ≤ max_deferral_ms)
      × (t < max (millis_ceil d) 1 + hold_step g)
deferred_ttl_ms_bounds d g t h =
    let r = round_up_bounds (millis_ceil d) (hold_step g) (hold_step_bounds g).0 in
    let m = millis_ceil_bounds d in
    let s = hold_step_bounds g in
    let e = max-mul_one (div_ceil (millis_ceil d) (hold_step g)) (hold_step g) in
    (
      (
        max (div_ceil (millis_ceil d) (hold_step g)) 1,
        omega arith,
        ground (arith, deferred_ttl_ms_lem d g),
      ),
      ground (arith, deferred_ttl_ms_lem d g),
      ground (arith, deferred_ttl_ms_lem d g),
      ground (arith, deferred_ttl_ms_lem d g),
    )

-- Against any whole number of steps, one at least, that covers the delay: a wait that is chosen is itself
-- a whole number of steps, one at least, it covers the delay, it is not above the broker's bound,
-- and it is not more than the given one. Where none is chosen, the given one is above the bound.
pub deferred_ttl_ms_least :
    (d g : Duration) (k : ℕ)
    → 1 ≤ k
    → d ≤ k * hold_step g * 1000000
    → ((t : ℕ) × (deferred_ttl_ms d g ≡ some t)
        × ((steps : ℕ) × (1 ≤ steps) × (t ≡ steps * hold_step g))
        × (d ≤ t * 1000000)
        × (t ≤ max_deferral_ms)
        × (t ≤ k * hold_step g))
      ⊎ ((deferred_ttl_ms d g ≡ none) × (max_deferral_ms < k * hold_step g))
deferred_ttl_ms_least d g k one covers =
    let step = hold_step g in
    let m = millis_ceil_bounds d in
    let r = round_up-least (millis_ceil d) step k (hold_step_bounds g).0 (omega arith) in
    let s : step ≤ k * step = grind arith in
    let t = max (round_up (millis_ceil d) step) step in
    elim (dec_le t max_deferral_ms) [
      | yes fits ↦
          let chosen : deferred_ttl_ms d g ≡ some t = ground (arith, deferred_ttl_ms_lem d g) in
          let (whole, covered, bounded, _) = deferred_ttl_ms_bounds d g t chosen in
          inl (t, chosen, whole, covered, bounded, omega arith)
      | no over ↦ inr (ground (arith, deferred_ttl_ms_lem d g), omega arith)
    ]

pub deferred_ttl_ms-pos : (d g : Duration) (t : ℕ) → deferred_ttl_ms d g ≡ some t → 0 < t
deferred_ttl_ms-pos d g t h = let s = hold_step_bounds g in ground (arith, deferred_ttl_ms_lem d g)
