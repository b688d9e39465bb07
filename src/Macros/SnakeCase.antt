-- ===== src/Macros/SnakeCase.antt =====
-- `snake_case` of crates/macros/src/queues.rs: the default name of a queue. Which characters are upper or lower
-- case, and what `to_lowercase` gives, are Unicode's to say.
pub mod Underscores
mod Tests
use Prim.Native.Char.{Char, code}
use Prim.Native.String.{◌++◌}
use queuey.Common.{
  ℕ, ◌&&◌, ◌||◌, not, String, Bool, true, false, Option, none, some, leb, ◌==◌, if◌then◌else◌,
}

pub record Unicode : Type 0 where
  pub is_uppercase : Char → Bool
  pub is_lowercase : Char → Bool
  pub to_lowercase : Char → String

abbrev pub is_underscore : Char → Bool
is_underscore c = code c == 95

-- `ends_with('_')` of a text behind a character that is an underscore or not.
abbrev pub ends_behind : Bool → String → Bool
ends_behind b String.[] = b
ends_behind b (String.◌∷◌ c s) = ends_behind (is_underscore c) s

-- `ends_with('.')`
abbrev pub ends_behind_dot : Bool → String → Bool
ends_behind_dot b String.[] = b
ends_behind_dot b (String.◌∷◌ c s) = ends_behind_dot (code c == 46) s

abbrev pub is_empty : String → Bool
is_empty String.[] = true
is_empty (String.◌∷◌ c s) = false

abbrev next_is_lower : Unicode → String → Bool
next_is_lower u String.[] = false
next_is_lower u (String.◌∷◌ c s) = u.is_lowercase c

abbrev is_ascii_digit : Char → Bool
is_ascii_digit c = leb 48 (code c) && leb (code c) 57

-- Whether a word begins at an upper case character, by the characters before and after it.
unfoldable pub boundary : Unicode → (previous : Option Char) → (rest : String) → Bool
boundary u none rest = false
boundary u (some previous) rest =
    if is_underscore previous
    then false
    else if u.is_lowercase previous || is_ascii_digit previous
    then true
    else next_is_lower u rest

abbrev pub with_underscore : Bool → String → String
with_underscore b out = if b then out ++ "_" else out

-- The body of the loop, for the characters before and after `current`.
unfoldable pub step : Unicode → Option Char → (current : Char) → (rest out : String) → String
step u previous current rest out =
    if is_underscore current
    then with_underscore (not (ends_behind false out) && not (is_empty out)) out
    else with_underscore
        (u.is_uppercase current && (boundary u previous rest && not (ends_behind false out))) out
      ++ u.to_lowercase current

unfoldable pub snake_on : Unicode → Option Char → (chars out : String) → String
snake_on u previous String.[] out = out
snake_on u previous (String.◌∷◌ c rest) out = snake_on u (some c) rest (step u previous c rest out)

unfoldable pub snake_case : Unicode → (ident : String) → String
snake_case u ident = snake_on u none ident ""
