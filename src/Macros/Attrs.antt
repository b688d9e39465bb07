-- ===== src/Macros/Attrs.antt =====
-- crates/macros/src/attrs.rs: the literals of attributes and the keys of `retry(...)`.
pub mod Retry
pub mod CratePath
use Prim.Native.Char.{code}
use queuey.Common.{
  refl, inr, inl, ◌⊎◌, ◌≡◌, false, ℕ, ◌*◌, ◌&&◌, not, String, str_eq, Bool, true, Option, none,
  some, List, [], ◌∷◌, ltb, ◌==◌, if◌then◌else◌,
}
use queuey.Retry.{F64, Floats, Backoff, no_backoff, fixed, exponential, RetryPolicy, or_else}
use queuey.DurationLiteral.{
  Literal, accepted, malformed, too_large, is_zero, parse_lit, trim_start, trim_end,
}

-- What stands behind `key =`: a literal, the negation of one, or something else. An integer is its
-- value, and a floating point literal what `base10_parse` makes of it.
pub data Value : Type 0 where
  text : String → Value
  integer negative_integer : ℕ → Value
  float negative_float : Option F64 → Value
  boolean : Bool → Value
  other_value : Value

pub data SynError : Type 0 where
  duplicate_key unknown_key : (key : String) → SynError
  not_a_string not_a_bool not_an_integer not_a_float : (key : String) → SynError
  bad_duration : (key : String) → Literal → SynError
  empty_text blank_text : (key : String) → SynError
  zero_attempts no_delay bad_factor base_above_max unknown_backoff : SynError
  only_valid_with : (key kind : String) → SynError
  -- those of queues.rs
  trailing_separator zero_prefetch ttl_too_long misplaced : SynError
  has_fields empty_queue_name no_variants : SynError
  duplicate_queue_name : (name : String) → SynError
  unparsed : SynError  -- an error of syn's own
  -- those of job.rs
  generic_job no_queue not_a_variant no_crate : SynError

pub data Parse (A : Type 0) : Type 0 where
  ok : A → Parse A
  err : SynError → Parse A

-- `?`
abbrev pub then_parse : {A B : Type 0} → Parse A → (A → Parse B) → Parse B
then_parse (ok a) next = next a
then_parse (err e) next = err e

pub Parse-cases :
    {A : Type 0} (p : Parse A) → ((a : A) × (p ≡ ok a)) ⊎ ((e : SynError) × (p ≡ err e))
Parse-cases (ok a) = inl (a, refl)
Parse-cases (err e) = inr (e, refl)

-- A slot without the span of its key.
unfoldable pub set_once : {A : Type 0} → Option A → (key : String) → A → Parse (Option A)
set_once none key value = ok (some value)
set_once (some old) key value = err (duplicate_key key)

-- The code points of a text.
abbrev pub codes : String → List ℕ
codes String.[] = []
codes (String.◌∷◌ c s) = code c ∷ codes s

abbrev is_empty : List ℕ → Bool
is_empty [] = true
is_empty (c ∷ cs) = false

-- `white` says which characters `trim` removes.
pub reject_blank : (white : ℕ → Bool) → String → (key : String) → Parse String
reject_blank white value key =
    if is_empty (codes value)
    then err (empty_text key)
    else if is_empty (trim_end white (trim_start white (codes value)))
    then err (blank_text key)
    else ok value

pub lit_str : (key : String) → Value → Parse String
lit_str key (text value) = ok value
lit_str key _ = err (not_a_string key)

pub lit_bool : (key : String) → Value → Parse Bool
lit_bool key (boolean value) = ok value
lit_bool key _ = err (not_a_bool key)

-- `base10_parse` into an unsigned type with that many values.
unfoldable pub lit_int : (limit : ℕ) → (key : String) → Value → Parse ℕ
lit_int limit key (integer value) = if ltb value limit then ok value else err (not_an_integer key)
lit_int limit key _ = err (not_an_integer key)

-- The conversions of numbers that `lit_f64` takes from `std`.
pub record FloatLiterals : Type 0 where
  pub of_integer : ℕ → F64
  pub negated : F64 → F64

abbrev pub parsed_float : Option F64 → Parse F64
parsed_float none = err unparsed
parsed_float (some x) = ok x

unfoldable pub lit_f64 : FloatLiterals → (key : String) → Value → Parse F64
lit_f64 floats key (float x) = parsed_float x
lit_f64 floats key (negative_float x) = then_parse (parsed_float x) (λ y. ok (floats.negated y))
lit_f64 floats key (integer n) = ok (floats.of_integer n)
lit_f64 floats key (negative_integer n) = ok (floats.negated (floats.of_integer n))
lit_f64 floats key _ = err (not_a_float key)

abbrev pub accepted_duration : (key : String) → Literal → Parse ℕ
accepted_duration key (accepted ms) = ok ms
accepted_duration key wrong = err (bad_duration key wrong)

-- `duration::parse_lit(&lit_str(..)?, key)?`
pub lit_duration : (white : ℕ → Bool) → (key : String) → Value → Parse ℕ
lit_duration white key value =
    then_parse (lit_str key value) (λ input. accepted_duration key (parse_lit white (codes input)))

pub data BackoffSpec : Type 0 where
  none_spec : BackoffSpec
  fixed_spec : (delay_ms : ℕ) → BackoffSpec
  exponential_spec : (base_ms : ℕ) (factor : F64) (max_ms : ℕ) (jitter : Bool) → BackoffSpec

pub record RetrySpec : Type 0 where
  pub max_attempts : ℕ
  pub backoff : BackoffSpec

-- What the expression that `to_tokens` generates evaluates to.
abbrev pub backoff_of : BackoffSpec → Backoff
backoff_of none_spec = no_backoff
backoff_of (fixed_spec delay_ms) = fixed (delay_ms * 1000000)
backoff_of (exponential_spec base_ms factor max_ms jitter) =
    exponential (base_ms * 1000000) factor (max_ms * 1000000) jitter

unfoldable pub policy_of : RetrySpec → RetryPolicy
policy_of spec = record { max_attempts = spec.max_attempts; backoff = backoff_of spec.backoff }

pub record RetryRaw : Type 0 where
  pub max_attempts : Option ℕ
  pub backoff : Option String
  pub delay : Option ℕ
  pub base : Option ℕ
  pub factor : Option F64
  pub max : Option ℕ
  pub jitter : Option Bool

abbrev pub empty_raw : RetryRaw
empty_raw = record {
  max_attempts = none;
  backoff = none;
  delay = none;
  base = none;
  factor = none;
  max = none;
  jitter = none;
}

unfoldable pub reject : {A : Type 0} → Option A → (key required_kind : String) → Parse (Option A)
reject (some value) key required_kind = err (only_valid_with key required_kind)
reject none key required_kind = ok none
