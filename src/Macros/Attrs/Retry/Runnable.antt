-- ===== src/Macros/Attrs/Retry/Runnable.antt =====
-- What an accepted `retry(...)` means at run time (crates/macros/src/attrs.rs and crates/core/src/retry.rs).
use mathlib.Core.Path.{subst⁻¹}
use queuey.Common.{inl, inr, ℕ, ◌≤◌, ◌≡◌, String, true, Bool, Option, none, some, List, arith}
use queuey.Retry.{F64, Floats, Backoff, no_backoff, fixed, exponential, usable_factor}
use queuey.Macros.Attrs.{
  Parse-cases, or_else, backoff_of, Value, ok, FloatLiterals, BackoffSpec, none_spec, fixed_spec,
  exponential_spec, RetrySpec, RetryRaw, policy_of, empty_raw, reject,
}
use queuey.Macros.Attrs.Retry.{
  attempts_of, finish_none, finish_fixed, factor_of, finish_exponential, finish_kind, finish,
  kind_of, parse_retry, add_keys, Kind, none_kind, fixed_kind, exponential_kind, other_kind,
}

-- An exponential backoff whose base is within its limit, and whose factor is used as it is.
abbrev pub IsSensible : Floats → Backoff → Type 0
IsSensible fl no_backoff = Unit {0}
IsSensible fl (fixed delay) = Unit {0}
IsSensible fl (exponential base factor limit jitter) =
    (base ≤ limit) × (usable_factor fl factor ≡ factor)

-- What each kind makes of its keys.
finish_none-ok :
    (raw : RetryRaw) (spec : BackoffSpec) → finish_none raw ≡ ok spec → spec ≡ none_spec
unfolding finish_none reject
finish_none-ok raw spec h = ground arith

finish_fixed-ok :
    (raw : RetryRaw) (spec : BackoffSpec)
    → finish_fixed raw ≡ ok spec
    → spec ≡ fixed_spec (or_else raw.delay 0)
unfolding finish_fixed reject
finish_fixed-ok raw spec h = ground arith

finish_exponential-ok :
    (fl : Floats) (two : F64) (raw : RetryRaw) (spec : BackoffSpec)
    → finish_exponential fl two raw ≡ ok spec
    → (spec
        ≡ exponential_spec
            (or_else raw.base 1000)
            (or_else raw.factor two)
            (or_else raw.max 300000)
            (or_else raw.jitter true))
      × (or_else raw.base 1000 ≤ or_else raw.max 300000)
      × (factor_of fl two raw.factor ≡ ok (or_else raw.factor two))
unfolding finish_exponential reject factor_of
finish_exponential-ok fl two raw spec h = (ground arith, ground arith, ground arith)

factor_of-usable :
    (fl : Floats) (two : F64) (slot : Option F64) (factor : F64)
    → usable_factor fl two ≡ two
    → factor_of fl two slot ≡ ok factor
    → usable_factor fl factor ≡ factor
unfolding factor_of usable_factor
factor_of-usable fl two none factor exact h = ground arith
factor_of-usable fl two (some x) factor exact h = ground arith

finish_kind-IsSensible :
    (fl : Floats) (two : F64) (raw : RetryRaw) (kind : Kind) (spec : BackoffSpec)
    → usable_factor fl two ≡ two
    → finish_kind fl two raw kind ≡ ok spec
    → IsSensible fl (backoff_of spec)
unfolding finish_kind
finish_kind-IsSensible fl two raw none_kind spec exact h =
    subst⁻¹ (λ s. IsSensible fl (backoff_of s)) (finish_none-ok raw spec h) tt
finish_kind-IsSensible fl two raw fixed_kind spec exact h =
    subst⁻¹ (λ s. IsSensible fl (backoff_of s)) (finish_fixed-ok raw spec h) tt
finish_kind-IsSensible fl two raw exponential_kind spec exact h =
    let (same, within, kept) = finish_exponential-ok fl two raw spec h in
    subst⁻¹ (λ s. IsSensible fl (backoff_of s)) same
      (
        omega (arith, within),
        factor_of-usable fl two raw.factor (or_else raw.factor two) exact kept,
      )
finish_kind-IsSensible fl two raw other_kind spec exact h = absurd (cc)

attempts_of-pos : (slot : Option ℕ) (n : ℕ) → attempts_of slot ≡ ok n → 1 ≤ n
unfolding attempts_of
attempts_of-pos slot n h = ground arith

finish-ok :
    (fl : Floats) (two : F64) (raw : RetryRaw) (spec : RetrySpec)
    → finish fl two raw ≡ ok spec
    → (attempts_of raw.max_attempts ≡ ok spec.max_attempts)
      × (finish_kind fl two raw (kind_of raw.backoff) ≡ ok spec.backoff)
unfolding finish
finish-ok fl two raw spec h = (ground arith, ground arith)

-- An accepted list of keys was collected, and then finished.
parse_retry-ok :
    (fl : Floats) (two : F64) (floats : FloatLiterals) (white : ℕ → Bool)
    (keys : List (String × Value)) (spec : RetrySpec)
    → parse_retry fl two floats white keys ≡ ok spec
    → (raw : RetryRaw) × (add_keys floats white keys empty_raw ≡ ok raw)
      × (finish fl two raw ≡ ok spec)
unfolding parse_retry
parse_retry-ok fl two floats white keys spec h =
    elim (Parse-cases (add_keys floats white keys empty_raw)) [
      | inl (raw, e) ↦ (raw, e, cc)
      | inr (error, e) ↦ absurd (cc)
    ]

-- Every `retry(...)` that the derives accept gives a policy with at least one attempt whose backoff,
-- if it is exponential, has a base that is not above its limit and a factor that the run time uses as
-- it is written. The default factor 2.0 is taken to be one that the run time uses.
pub parse_retry-runnable :
    (fl : Floats) (two : F64) (floats : FloatLiterals) (white : ℕ → Bool)
    (keys : List (String × Value)) (spec : RetrySpec)
    → usable_factor fl two ≡ two
    → parse_retry fl two floats white keys ≡ ok spec
    → (1 ≤ (policy_of spec).max_attempts) × IsSensible fl (policy_of spec).backoff
unfolding policy_of
parse_retry-runnable fl two floats white keys spec exact h =
    let (raw, _, finished) = parse_retry-ok fl two floats white keys spec h in
    let (many, kind) = finish-ok fl two raw spec finished in
    (
      attempts_of-pos raw.max_attempts spec.max_attempts many,
      finish_kind-IsSensible fl two raw (kind_of raw.backoff) spec.backoff exact kind,
    )
