-- ===== src/DurationLiteral/Tests.antt =====
-- Literals with ASCII white space.
use queuey.DurationLiteral.Grammar.{minutes, parse_millis-literal, IsBlank}
use queuey.Common.{◌*◌, ltb, if◌then◌else◌, ◌||◌, ◌==◌, Bool, ℕ, ◌≡◌, refl, [], ◌∷◌, arith}
use queuey.DurationLiteral.{
  out_of_range, u64_limit, value_of, factor_of, trim_end, trim_start, parse_millis, millis,
}

abbrev ascii_white : ℕ → Bool
ascii_white c = c == 32 || c == 9 || c == 10 || c == 13

-- "\t300\tms\n"
parses_tabs : parse_millis ascii_white (9 ∷ 51 ∷ 48 ∷ 48 ∷ 9 ∷ 109 ∷ 115 ∷ 10 ∷ []) ≡ millis 300
unfolding parse_millis trim_start trim_end factor_of value_of
parses_tabs = refl

ascii_white-IsBlank : IsBlank ascii_white
ascii_white-IsBlank = record {
  digit = λ c digit. ground arith;
  letter_s = refl;
  letter_m = refl;
  letter_h = refl;
  letter_d = refl;
}

-- " 25 m"
parse_millis-literal_example : parse_millis ascii_white (32 ∷ 50 ∷ 53 ∷ 32 ∷ 109 ∷ []) ≡ (
    if ltb (value_of 0 (50 ∷ 53 ∷ []) * 60000) u64_limit
    then millis (value_of 0 (50 ∷ 53 ∷ []) * 60000)
    else out_of_range)
parse_millis-literal_example =
    parse_millis-literal ascii_white ascii_white-IsBlank (32 ∷ []) (32 ∷ []) [] 50 (53 ∷ []) minutes
      (refl, tt) (refl, tt) tt (refl, (refl, tt))
