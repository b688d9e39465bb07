-- ===== src/DurationLiteral/Grammar.antt =====
-- Which literals `parse_millis` of crates/macros/src/duration.rs accepts, and what they mean.
use queuey.DurationLiteral.Trim.{trim_end-behind, trim_end-All, trim_end-append, trim_start-append}
use mathlib.Core.List.{append-nil, append_assoc}
use queuey.Common.{
  ltb, if◌then◌else◌, inr, inl, All-map, Bool-cases, sym, ℕ, ◌*◌, ◌≡◌, refl, ap, ◌∙◌, Bool, true,
  false, Option, some, List, [], ◌∷◌, ◌++◌, arith, All,
}
use queuey.DurationLiteral.{
  is_digit, u64_limit, trim_start, trim_end, split_digits, factor_of, value_of, scaled, with_unit,
  parse_millis, millis, out_of_range,
}

-- The units that a literal can have; without one it is in seconds.
pub data DurationUnit : Type 0 where
  bare seconds milliseconds minutes hours days : DurationUnit

abbrev pub text_of : DurationUnit → List ℕ
text_of bare = []
text_of seconds = 115 ∷ []
text_of milliseconds = 109 ∷ 115 ∷ []
text_of minutes = 109 ∷ []
text_of hours = 104 ∷ []
text_of days = 100 ∷ []

abbrev pub millis_in : DurationUnit → ℕ
millis_in bare = 1000
millis_in seconds = 1000
millis_in milliseconds = 1
millis_in minutes = 60 * 1000
millis_in hours = 60 * 60 * 1000
millis_in days = 24 * 60 * 60 * 1000

scaled_unit :
    (value : ℕ) (unit : DurationUnit)
    → scaled value (millis_in unit) ≡ (
        if ltb (value * millis_in unit) u64_limit
        then millis (value * millis_in unit)
        else out_of_range)
unfolding scaled
scaled_unit value bare = ground arith
scaled_unit value seconds = ground arith
scaled_unit value milliseconds = ground arith
scaled_unit value minutes = ground arith
scaled_unit value hours = ground arith
scaled_unit value days = ground arith

All-append : (P : ℕ → Type 0) (xs ys : List ℕ) → All P xs → All P ys → All P (xs ++ ys)
All-append P [] ys a b = b
All-append P (x ∷ xs) ys a b = (a.0, All-append P xs ys a.1 b)

-- No digit and no letter of a unit is white space.
pub record IsBlank (white : ℕ → Bool) : Type 0 where
  pub digit : (c : ℕ) → is_digit c ≡ true → white c ≡ false
  pub letter_s : white 115 ≡ false
  pub letter_m : white 109 ≡ false
  pub letter_h : white 104 ≡ false
  pub letter_d : white 100 ≡ false

module _ (white : ℕ → Bool) where
  -- The rest of a literal behind its digits, once it is trimmed.
  abbrev tail_of : List ℕ → DurationUnit → List ℕ
  tail_of gap bare = []
  tail_of gap seconds = gap ++ text_of seconds
  tail_of gap milliseconds = gap ++ text_of milliseconds
  tail_of gap minutes = gap ++ text_of minutes
  tail_of gap hours = gap ++ text_of hours
  tail_of gap days = gap ++ text_of days

  abbrev StartsApart : List ℕ → Type 0
  StartsApart [] = Unit {0}
  StartsApart (c ∷ cs) = is_digit c ≡ false

  split_digits-append :
      (ds tail : List ℕ)
      → All (λ c. is_digit c ≡ true) ds
      → StartsApart tail
      → split_digits (ds ++ tail) ≡ (ds, tail)
  unfolding split_digits
  split_digits-append [] [] a s = refl
  split_digits-append [] (c ∷ cs) a s = ground (arith, s)
  split_digits-append (d ∷ ds) tail a s = ground (arith, a.0, split_digits-append ds tail a.1 s)

  module _ (blank : IsBlank white) where
    white_apart : (c : ℕ) → white c ≡ true → is_digit c ≡ false
    white_apart c w = elim (Bool-cases (is_digit c)) [
      | inl digit ↦ absurd (cc (blank.digit c digit))
      | inr apart ↦ apart
    ]

    StartsApart-append :
        (gap text : List ℕ)
        → All (λ c. white c ≡ true) gap
        → StartsApart text
        → StartsApart (gap ++ text)
    StartsApart-append [] text a s = s
    StartsApart-append (w ∷ gap) text a s = white_apart w a.0

    StartsApart-tail_of :
        (gap : List ℕ) (unit : DurationUnit)
        → All (λ c. white c ≡ true) gap
        → StartsApart (tail_of gap unit)
    StartsApart-tail_of gap bare a = tt
    StartsApart-tail_of gap seconds a = StartsApart-append gap _ a refl
    StartsApart-tail_of gap milliseconds a = StartsApart-append gap _ a refl
    StartsApart-tail_of gap minutes a = StartsApart-append gap _ a refl
    StartsApart-tail_of gap hours a = StartsApart-append gap _ a refl
    StartsApart-tail_of gap days a = StartsApart-append gap _ a refl

    trim_end-literal :
        (ds gap : List ℕ) (t : ℕ) (ts after : List ℕ)
        → All (λ c. white c ≡ false) (t ∷ ts)
        → All (λ c. white c ≡ true) after
        → trim_end white (ds ++ (gap ++ ((t ∷ ts) ++ after))) ≡ ds ++ (gap ++ t ∷ ts)
    trim_end-literal ds gap t ts after a b =
        let kept = trim_end-append white (t ∷ ts) after b ∙ trim_end-All white (t ∷ ts) a in
        let behind = trim_end-behind white (ds ++ gap) ((t ∷ ts) ++ after) t ts kept in
        ap (trim_end white) (sym (append_assoc ds gap ((t ∷ ts) ++ after)))
        ∙ behind
        ∙ append_assoc ds gap (t ∷ ts)

    digits-white : (ds : List ℕ) → All (λ c. is_digit c ≡ true) ds → All (λ c. white c ≡ false) ds
    digits-white ds a = All-map _ _ (λ c digit. blank.digit c digit) ds a

    -- What trimming leaves of a literal.
    trim_end-tail_of :
        (ds gap : List ℕ) (unit : DurationUnit) (after : List ℕ)
        → All (λ c. is_digit c ≡ true) ds
        → All (λ c. white c ≡ true) gap
        → All (λ c. white c ≡ true) after
        → trim_end white (ds ++ (gap ++ (text_of unit ++ after))) ≡ ds ++ tail_of gap unit
    trim_end-tail_of ds gap bare after a b e =
        trim_end-append white ds (gap ++ after) (All-append _ gap after b e)
        ∙ trim_end-All white ds (digits-white ds a)
        ∙ sym (append-nil ds)
    trim_end-tail_of ds gap seconds after a b e =
        trim_end-literal ds gap 115 [] after (blank.letter_s, tt) e
    trim_end-tail_of ds gap milliseconds after a b e =
        trim_end-literal ds gap 109 (115 ∷ []) after (blank.letter_m, (blank.letter_s, tt)) e
    trim_end-tail_of ds gap minutes after a b e =
        trim_end-literal ds gap 109 [] after (blank.letter_m, tt) e
    trim_end-tail_of ds gap hours after a b e =
        trim_end-literal ds gap 104 [] after (blank.letter_h, tt) e
    trim_end-tail_of ds gap days after a b e =
        trim_end-literal ds gap 100 [] after (blank.letter_d, tt) e

    trim_start-kept :
        (gap : List ℕ) (t : ℕ) (ts : List ℕ)
        → All (λ c. white c ≡ true) gap
        → white t ≡ false
        → trim_start white (gap ++ t ∷ ts) ≡ t ∷ ts
    unfolding trim_start
    trim_start-kept gap t ts a kept = trim_start-append white gap (t ∷ ts) a ∙ ground (arith, kept)

    -- The unit that is found, and its factor.
    factor_of-tail_of :
        (gap : List ℕ) (unit : DurationUnit)
        → All (λ c. white c ≡ true) gap
        → factor_of (trim_start white (tail_of gap unit)) ≡ some (millis_in unit)
    unfolding factor_of trim_start
    factor_of-tail_of gap bare a = refl
    factor_of-tail_of gap seconds a = ap factor_of (trim_start-kept gap 115 [] a blank.letter_s)
    factor_of-tail_of gap milliseconds a =
        ap factor_of (trim_start-kept gap 109 (115 ∷ []) a blank.letter_m)
    factor_of-tail_of gap minutes a = ap factor_of (trim_start-kept gap 109 [] a blank.letter_m)
    factor_of-tail_of gap hours a = ap factor_of (trim_start-kept gap 104 [] a blank.letter_h)
    factor_of-tail_of gap days a = ap factor_of (trim_start-kept gap 100 [] a blank.letter_d)

    parse-steps :
        (input trimmed digits rest : List ℕ) (factor : Option ℕ)
        → trim_end white (trim_start white input) ≡ trimmed
        → split_digits trimmed ≡ (digits, rest)
        → factor_of (trim_start white rest) ≡ factor
        → parse_millis white input ≡ with_unit digits factor
    unfolding parse_millis
    parse-steps input trimmed digits rest factor e f g = rw (e, f, g) refl

    -- A literal is white space, decimal digits, white space, a unit and white space. Each such
    -- text is accepted exactly if its number of milliseconds fits in 64 bits, with that number as the
    -- value, and otherwise it is out of range.
    pub parse_millis-literal :
        (before gap after : List ℕ) (d : ℕ) (ds : List ℕ) (unit : DurationUnit)
        → All (λ c. white c ≡ true) before
        → All (λ c. white c ≡ true) gap
        → All (λ c. white c ≡ true) after
        → All (λ c. is_digit c ≡ true) (d ∷ ds)
        → let total = value_of 0 (d ∷ ds) * millis_in unit in
          parse_millis white (before ++ ((d ∷ ds) ++ (gap ++ (text_of unit ++ after))))
          ≡ (if ltb total u64_limit then millis total else out_of_range)
    unfolding with_unit scaled
    parse_millis-literal before gap after d ds unit a b e digits =
        let body = (d ∷ ds) ++ (gap ++ (text_of unit ++ after)) in
        let started : trim_start white (before ++ body) ≡ body =
          trim_start-append white before body a
          ∙ unfold trim_start in ground (arith, blank.digit d digits.0) in
        parse-steps (before ++ body) _ (d ∷ ds) (tail_of gap unit) (some (millis_in unit))
          (ap (trim_end white) started ∙ trim_end-tail_of (d ∷ ds) gap unit after digits b e)
          (split_digits-append (d ∷ ds) (tail_of gap unit) digits (StartsApart-tail_of gap unit b))
          (factor_of-tail_of gap unit b)
        ∙ scaled_unit (value_of 0 (d ∷ ds)) unit
