-- ===== src/Retry/Tests.antt =====
-- Runs of the retry curve over a whole-number stand-in for `f64`.
use Prim.Native.Nat.{zero, suc}
use native.Mathlib.Nat.{pow-suc, pow-zero}
use queuey.Common.{ℕ, ◌*◌, ◌^◌, ◌/◌, ◌≡◌, refl, true, false, some, min, max, arith, ltb}
use queuey.Retry.{Floats, exponential, compute_delay}
use queuey.Retry.Bounds.{IsExact}

abbrev pub whole_floats : Floats
whole_floats = record {
  zero_f64 = 0;
  one_f64 = 1;
  from_u32 = λ n. n;
  is_finite = λ x. true;
  is_positive = λ x. ltb 0 x;
  multiply = λ x y. x * y;
  powf = λ x y. x ^ y;
  clamp = λ x lo hi. max lo (min x hi);
  as_secs_f64 = λ d. d;
  try_from_secs_f64 = λ x. some x;
  random_up_to = λ x. x / 2;
}

delay_grows : compute_delay whole_floats (exponential 100 3 5000 false) 3 ≡ 900
unfolding compute_delay
delay_grows = refl

delay_capped : compute_delay whole_floats (exponential 100 3 5000 true) 9 ≡ 2500
unfolding compute_delay
delay_capped = refl

pow_one : (n : ℕ) → ◌^◌ 1 n ≡ 1
pow_one zero = refl
pow_one (suc n) = rw (pow-suc, pow_one n) refl

whole_floats-IsExact : IsExact whole_floats 100 5000
whole_floats-IsExact = record {
  pow_zero = λ x. pow-zero x;
  mul_one = λ x. omega arith;
  finite_base = refl;
  clamp_base = refl;
  back_base = refl;
}
