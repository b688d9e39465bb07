-- ===== src/DurationLiteral.antt =====
-- crates/macros/src/duration.rs: the duration literals of the attributes, parsed while a macro runs.
-- A text is the list of its code points. Whether a character is white space is `std`'s to say, and
-- so the parameter `white`.
pub mod Trim
pub mod Grammar
mod Tests
use queuey.Common.{
  ℕ, ◌+◌, ◌-◌, ◌*◌, Bool, ◌&&◌, Option, none, some, List, [], ◌∷◌, leb, ltb, ◌==◌, if◌then◌else◌,
}

-- The result of `parse_millis`: the milliseconds, or one of its two errors.
pub data Parsed : Type 0 where
  millis : ℕ → Parsed
  invalid out_of_range : Parsed

abbrev pub is_digit : ℕ → Bool
is_digit c = leb 48 c && leb c 57

-- u64::MAX + 1
abbrev pub u64_limit : ℕ
u64_limit = 18446744073709551616

pub trim_start : (ℕ → Bool) → List ℕ → List ℕ
trim_start white [] = []
trim_start white (c ∷ cs) = let rest = trim_start white cs in if white c then rest else c ∷ cs

abbrev pub drop_white : Bool → ℕ → List ℕ → List ℕ
drop_white is_white c [] = if is_white then [] else c ∷ []
drop_white is_white c (d ∷ rest) = c ∷ d ∷ rest

pub trim_end : (ℕ → Bool) → List ℕ → List ℕ
trim_end white [] = []
trim_end white (c ∷ cs) = drop_white (white c) c (trim_end white cs)

abbrev pub put_digit : ℕ → List ℕ × List ℕ → List ℕ × List ℕ
put_digit c (digits, rest) = (c ∷ digits, rest)

-- `find` of the first character that is not a digit, and `split_at` there.
pub split_digits : List ℕ → List ℕ × List ℕ
split_digits [] = ([], [])
split_digits (c ∷ cs) =
    let rest = split_digits cs in if is_digit c then put_digit c rest else ([], c ∷ cs)

-- The match on the unit: "", "s", "ms", "m", "h", "d".
pub factor_of : List ℕ → Option ℕ
factor_of [] = some 1000
factor_of (c ∷ []) =
    if c == 115
    then some 1000
    else if c == 109
    then some 60000
    else if c == 104
    then some 3600000
    else if c == 100
    then some 86400000
    else none
factor_of (c ∷ d ∷ []) = if c == 109 && d == 115 then some 1 else none
factor_of (c ∷ d ∷ e ∷ cs) = none

-- The number that decimal digits spell, after those that spell `value`.
pub value_of : ℕ → List ℕ → ℕ
value_of value [] = value
value_of value (c ∷ cs) = value_of (value * 10 + (c - 48)) cs

-- `digits.parse::<u64>()` and `checked_mul`.
pub scaled : ℕ → ℕ → Parsed
scaled value factor =
    if ltb value u64_limit && ltb (value * factor) u64_limit
    then millis (value * factor)
    else out_of_range

pub with_unit : List ℕ → Option ℕ → Parsed
unfolding scaled
with_unit [] factor = invalid
with_unit (c ∷ cs) none = invalid
with_unit (c ∷ cs) (some factor) = scaled (value_of 0 (c ∷ cs)) factor

pub parse_millis : (ℕ → Bool) → List ℕ → Parsed
unfolding split_digits with_unit
parse_millis white input =
    let (digits, rest) = split_digits (trim_end white (trim_start white input)) in
    with_unit digits (factor_of (trim_start white rest))

-- The result of `parse_lit`: as before, with an error of its own for zero.
pub data Literal : Type 0 where
  accepted : ℕ → Literal
  malformed too_large is_zero : Literal

pub nonzero : Parsed → Literal
nonzero (millis ms) = if ms == 0 then is_zero else accepted ms
nonzero invalid = malformed
nonzero out_of_range = too_large

pub parse_lit : (ℕ → Bool) → List ℕ → Literal
unfolding parse_millis nonzero
parse_lit white input = nonzero (parse_millis white input)
