-- ===== src/Macros/Attrs/Retry/Tests.antt =====
-- `retry(...)` with and without keys, over whole numbers for `f64`.
use queuey.Common.{true, ℕ, ◌≡◌, refl, String, Bool, false, List, [], ◌∷◌}
use queuey.Retry.Tests.{whole_floats}
use queuey.Macros.Attrs.{
  Value, text, integer, duplicate_key, only_valid_with, ok, err, set_once, lit_str, lit_int,
  FloatLiterals, lit_f64, exponential_spec, RetrySpec, reject,
}
use queuey.Macros.Attrs.Retry.{
  kind_of, attempts_of, finish_none, factor_of, finish_exponential, finish_kind, finish, add_key,
  add_keys, parse_retry,
}

abbrev no_white : ℕ → Bool
no_white c = false

abbrev whole_literals : FloatLiterals
whole_literals = record { of_integer = λ n. n; negated = λ x. 0 }

abbrev spec : RetrySpec
spec = record { max_attempts = 5; backoff = exponential_spec 1000 3 300000 true }

abbrev keys : List (String × Value)
keys = ("max_attempts", integer 5) ∷ ("factor", integer 3) ∷ []

parsed : parse_retry whole_floats 2 whole_literals no_white keys ≡ ok spec
unfolding parse_retry add_keys add_key lit_int lit_f64 set_once finish finish_kind kind_of
    attempts_of finish_exponential factor_of reject
parsed = refl

repeated :
    parse_retry whole_floats 2 whole_literals no_white
      (("max_attempts", integer 5) ∷ ("max_attempts", integer 3) ∷ [])
    ≡ err (duplicate_key "max_attempts")
unfolding parse_retry add_keys add_key lit_int set_once
repeated = refl

misfit :
    parse_retry whole_floats 2 whole_literals no_white
      (("backoff", text "none") ∷ ("factor", integer 3) ∷ [])
    ≡ err (only_valid_with "factor" "exponential")
unfolding parse_retry add_keys add_key lit_str lit_f64 set_once finish finish_kind kind_of
    attempts_of finish_none reject
misfit = refl
