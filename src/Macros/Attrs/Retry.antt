-- ===== src/Macros/Attrs/Retry.antt =====
-- `parse_retry` and `RetryRaw::finish` of crates/macros/src/attrs.rs.
pub mod Runnable
mod Tests
use queuey.Common.{
  ℕ, ◌&&◌, ◌||◌, String, str_eq, Bool, true, false, Option, none, some, List, [], ◌∷◌, ltb, ◌==◌,
  if◌then◌else◌,
}
use queuey.Retry.{F64, Floats, or_else}
use queuey.Macros.Attrs.{
  Value, SynError, unknown_key, zero_attempts, no_delay, bad_factor, base_above_max,
  unknown_backoff, Parse, ok, err, then_parse, set_once, lit_str, lit_bool, lit_int, FloatLiterals,
  lit_f64, lit_duration, BackoffSpec, none_spec, fixed_spec, exponential_spec, RetrySpec, RetryRaw,
  empty_raw, reject,
}

pub data Kind : Type 0 where
  none_kind fixed_kind exponential_kind other_kind : Kind

-- The match on the text of `backoff`.
unfoldable pub kind_of : Option String → Kind
kind_of none = exponential_kind
kind_of (some kind) =
    if str_eq kind "none"
    then none_kind
    else if str_eq kind "fixed"
    then fixed_kind
    else if str_eq kind "exponential"
    then exponential_kind
    else other_kind

-- `max_attempts`, with its default.
unfoldable pub attempts_of : Option ℕ → Parse ℕ
attempts_of none = ok 3
attempts_of (some n) = if n == 0 then err zero_attempts else ok n

pub finish_none : RetryRaw → Parse BackoffSpec
finish_none raw = then_parse (reject raw.delay "delay" "fixed") (λ _.
    then_parse (reject raw.base "base" "exponential") (λ _.
      then_parse (reject raw.factor "factor" "exponential") (λ _.
        then_parse (reject raw.max "max" "exponential")
          (λ _. then_parse (reject raw.jitter "jitter" "exponential") (λ _. ok none_spec)))))

abbrev pub fixed_delay : Option ℕ → Parse BackoffSpec
fixed_delay none = err no_delay
fixed_delay (some delay_ms) = ok (fixed_spec delay_ms)

pub finish_fixed : RetryRaw → Parse BackoffSpec
finish_fixed raw = then_parse (reject raw.base "base" "exponential") (λ _.
    then_parse (reject raw.factor "factor" "exponential") (λ _.
      then_parse (reject raw.max "max" "exponential")
        (λ _. then_parse (reject raw.jitter "jitter" "exponential") (λ _. fixed_delay raw.delay))))

-- `factor`, with its default 2.0, which is an argument.
unfoldable pub factor_of : Floats → (two : F64) → Option F64 → Parse F64
factor_of fl two none = ok two
factor_of fl two (some x) = if fl.is_finite x && fl.is_positive x then ok x else err bad_factor

abbrev pub exponential_of : F64 → (base_ms max_ms : ℕ) → Bool → Parse BackoffSpec
exponential_of factor base_ms max_ms jitter =
    if ltb max_ms base_ms
    then err base_above_max
    else ok (exponential_spec base_ms factor max_ms jitter)

unfoldable pub finish_exponential : Floats → (two : F64) → RetryRaw → Parse BackoffSpec
finish_exponential fl two raw = then_parse (reject raw.delay "delay" "fixed") (λ _.
    then_parse (factor_of fl two raw.factor) (λ factor.
      exponential_of factor (or_else raw.base 1000) (or_else raw.max 300000)
        (or_else raw.jitter true)))

-- The match on the kind.
unfoldable pub finish_kind : Floats → (two : F64) → RetryRaw → Kind → Parse BackoffSpec
finish_kind fl two raw none_kind = finish_none raw
finish_kind fl two raw fixed_kind = finish_fixed raw
finish_kind fl two raw exponential_kind = finish_exponential fl two raw
finish_kind fl two raw other_kind = err unknown_backoff

unfoldable pub finish : Floats → (two : F64) → RetryRaw → Parse RetrySpec
finish fl two raw = then_parse (attempts_of raw.max_attempts) (λ max_attempts.
    then_parse (finish_kind fl two raw (kind_of raw.backoff))
      (λ backoff. ok (record { max_attempts = max_attempts; backoff = backoff })))

-- One key of the list, by its name.
unfoldable pub add_key :
    FloatLiterals → (white : ℕ → Bool) → RetryRaw → (key : String) → Value → Parse RetryRaw
add_key floats white raw key value =
    if str_eq key "max_attempts"
    then then_parse (lit_int 4294967296 key value) (λ n.
      then_parse (set_once raw.max_attempts key n)
        (λ slot. ok (record raw { max_attempts = slot })))
    else if str_eq key "backoff"
    then then_parse (lit_str key value) (λ kind.
      then_parse (set_once raw.backoff key kind) (λ slot. ok (record raw { backoff = slot })))
    else if str_eq key "delay"
    then then_parse (lit_duration white key value)
        (λ ms. then_parse (set_once raw.delay key ms) (λ slot. ok (record raw { delay = slot })))
    else if str_eq key "base"
    then then_parse (lit_duration white key value)
        (λ ms. then_parse (set_once raw.base key ms) (λ slot. ok (record raw { base = slot })))
    else if str_eq key "factor"
    then then_parse (lit_f64 floats key value)
        (λ x. then_parse (set_once raw.factor key x) (λ slot. ok (record raw { factor = slot })))
    else if str_eq key "max"
    then then_parse (lit_duration white key value)
        (λ ms. then_parse (set_once raw.max key ms) (λ slot. ok (record raw { max = slot })))
    else if str_eq key "jitter"
    then then_parse (lit_bool key value)
        (λ b. then_parse (set_once raw.jitter key b) (λ slot. ok (record raw { jitter = slot })))
    else err (unknown_key key)

unfoldable pub add_keys :
    FloatLiterals → (white : ℕ → Bool) → List (String × Value) → RetryRaw → Parse RetryRaw
add_keys floats white [] raw = ok raw
add_keys floats white ((key, value) ∷ keys) raw =
    then_parse (add_key floats white raw key value) (add_keys floats white keys)

unfoldable pub parse_retry :
    Floats
    → (two : F64) → FloatLiterals
    → (white : ℕ → Bool) → List (String × Value)
    → Parse RetrySpec
parse_retry fl two floats white keys =
    then_parse (add_keys floats white keys empty_raw) (finish fl two)
