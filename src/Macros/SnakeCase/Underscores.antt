-- ===== src/Macros/SnakeCase/Underscores.antt =====
-- The underscores of a default queue name (crates/macros/src/queues.rs).
use Prim.Native.Char.{Char}
use Prim.Native.String.{◌++◌}
use mathlib.Core.Path.{subst⁻¹}
use text.Mathlib.TextLemmas.{cons-append, nil-append}
use queuey.Common.{
  ◌≡◌, refl, ap, ◌∙◌, ◌&&◌, not, String, Bool, true, false, Option, none, some, arith, Bool-cases,
  inl, inr,
}
use queuey.Macros.SnakeCase.{
  with_underscore, is_empty, Unicode, is_underscore, ends_behind, boundary, step, snake_on,
  snake_case,
}

-- No underscore stands behind another, or first if `b`.
abbrev is_clean : (b : Bool) → String → Bool
is_clean b String.[] = true
is_clean b (String.◌∷◌ c s) = not (b && is_underscore c) && is_clean (is_underscore c) s

and_assoc : (a b c : Bool) → (a && (b && c)) ≡ ((a && b) && c)
and_assoc true b c = refl
and_assoc false b c = refl

ends_behind-append :
    (b : Bool) (s t : String) → ends_behind b (s ++ t) ≡ ends_behind (ends_behind b s) t
ends_behind-append b String.[] t = ap (ends_behind b) (nil-append t)
ends_behind-append b (String.◌∷◌ c s) t =
    ap (ends_behind b) (cons-append c s t) ∙ ends_behind-append (is_underscore c) s t

is_clean-append :
    (b : Bool) (s t : String) → is_clean b (s ++ t) ≡ (is_clean b s && is_clean (ends_behind b s) t)
is_clean-append b String.[] t = ap (is_clean b) (nil-append t)
is_clean-append b (String.◌∷◌ c s) t =
    ap (is_clean b) (cons-append c s t)
    ∙ (ap (λ r. not (b && is_underscore c) && r) (is_clean-append (is_underscore c) s t)
        ∙ and_assoc (not (b && is_underscore c)) (is_clean (is_underscore c) s)
            (is_clean (ends_behind (is_underscore c) s) t))

-- A text that may stand behind an underscore may stand anywhere.
is_clean_anywhere : (b : Bool) (s : String) → is_clean true s ≡ true → is_clean b s ≡ true
is_clean_anywhere b String.[] h = refl
is_clean_anywhere b (String.◌∷◌ c s) h = ground arith

ends_behind-empty :
    (out : String)
    → (not (ends_behind false out) && not (is_empty out)) ≡ not (ends_behind true out)
ends_behind-empty String.[] = refl
ends_behind-empty (String.◌∷◌ c s) = ground arith

-- What is taken of `to_lowercase`: a character that is no underscore becomes a text that is not
-- empty, and neither begins nor ends with an underscore, nor has two of them in a row.
record IsLowering (u : Unicode) : Type 0 where
  pub no_doubles : (c : Char) → is_underscore c ≡ false → is_clean true (u.to_lowercase c) ≡ true
  pub no_end :
      (c : Char) → is_underscore c ≡ false → (b : Bool) → ends_behind b (u.to_lowercase c) ≡ false

abbrev word_goes_on : Option Char → Bool
word_goes_on none = false
word_goes_on (some c) = not (is_underscore c)

-- What holds of `out` before a character, by the one before it.
abbrev IsFine : Option Char → String → Type 0
IsFine previous out =
    (is_clean true out ≡ true) × (word_goes_on previous ≡ true → ends_behind true out ≡ false)

with_underscore-clean :
    (b : Bool) (out : String)
    → (b ≡ true → ends_behind true out ≡ false)
    → is_clean true out ≡ true
    → is_clean true (with_underscore b out) ≡ true
with_underscore-clean false out open' clean = clean
with_underscore-clean true out open' clean =
    is_clean-append true out "_" ∙ ground (arith, open' refl)

boundary-goes_on :
    (u : Unicode) (previous : Option Char) (rest : String)
    → boundary u previous rest ≡ true
    → word_goes_on previous ≡ true
unfolding boundary
boundary-goes_on u none rest h = cc
boundary-goes_on u (some c) rest h = ground arith

joined-IsFine :
    (u : Unicode) (c : Char) (out : String)
    → IsLowering u
    → is_underscore c ≡ false
    → is_clean true out ≡ true
    → IsFine (some c) (out ++ u.to_lowercase c)
joined-IsFine u c out lowers word clean =
    let low = u.to_lowercase c in
    (
      is_clean-append true out low
          ∙ ground (arith, is_clean_anywhere (ends_behind true out) low (lowers.no_doubles c word)),
      λ _. ends_behind-append true out low ∙ lowers.no_end c word (ends_behind true out),
    )

step-IsFine :
    (u : Unicode) (previous : Option Char) (c : Char) (rest out : String)
    → IsLowering u
    → IsFine previous out
    → IsFine (some c) (step u previous c rest out)
unfolding step
step-IsFine u previous c rest out lowers (clean, goes_on) =
    let ends = ends_behind-empty out in
    let at_underscore : Bool = not (ends_behind false out) && not (is_empty out) in
    let at_word : Bool =
      u.is_uppercase c && (boundary u previous rest && not (ends_behind false out)) in
    elim (Bool-cases (is_underscore c)) [
      | inl underscore ↦
          let same : step u previous c rest out ≡ with_underscore at_underscore out = cc in
          subst⁻¹ (IsFine (some c)) same
            (with_underscore-clean at_underscore out (λ b. ground arith) clean, λ goes. absurd (cc))
      | inr word ↦
          let same : step u previous c rest out ≡ with_underscore at_word out ++ u.to_lowercase c =
            cc in
          subst⁻¹ (IsFine (some c)) same (
            joined-IsFine u c (with_underscore at_word out) lowers word (
              with_underscore-clean at_word out
                (λ b. goes_on (boundary-goes_on u previous rest (ground arith))) clean))
    ]

snake_on-clean :
    (u : Unicode) (previous : Option Char) (chars out : String)
    → IsLowering u
    → IsFine previous out
    → is_clean true (snake_on u previous chars out) ≡ true
unfolding snake_on
snake_on-clean u previous String.[] out lowers fine = fine.0
snake_on-clean u previous (String.◌∷◌ c rest) out lowers fine =
    snake_on-clean u (some c) rest (step u previous c rest out) lowers
      (step-IsFine u previous c rest out lowers fine)

-- The default name of a queue does not begin with an underscore and has no two of them in a row,
-- whatever the identifier, if `to_lowercase` makes of a character that is no underscore a text that
-- is not empty, neither begins nor ends with an underscore and has no two of them in a row.
snake_case-is_clean :
    (u : Unicode) (ident : String) → IsLowering u → is_clean true (snake_case u ident) ≡ true
unfolding snake_case
snake_case-is_clean u ident lowers =
    snake_on-clean u none ident "" lowers (refl, λ goes. absurd (cc))
