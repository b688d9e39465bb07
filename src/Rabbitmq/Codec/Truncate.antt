-- ===== src/Rabbitmq/Codec/Truncate.antt =====
-- What `truncate_at_boundary` of crates/rabbitmq/src/codec.rs cuts off.
use Prim.Native.String.{[], len, slice}
use text.Mathlib.Text.{is_char_boundary}
use text.Mathlib.TextBridge.{IsPrefix}
use text.Mathlib.TextEquality.{slice-prefix}
use text.Mathlib.TextPositions.{len-append, boundary-append, boundary-zero}
use native.Mathlib.Decide.{dec_le}
use text.Mathlib.TextLemmas.{append-nil}
use mathlib.Core.Path.{subst⁻¹}
use queuey.Common.{
  sym, ℕ, zero, suc, ◌≤◌, ◌≡◌, ap, ◌∙◌, inl, inr, String, true, Bool-cases, leb, if◌then◌else◌,
  arith,
}
use queuey.Rabbitmq.Codec.{last_boundary, truncate_at_boundary}

last_boundary-le : (value : String) (end : ℕ) → last_boundary value end ≤ end
unfolding last_boundary
last_boundary-le value zero = omega arith
last_boundary-le value (suc end) = ground (arith, last_boundary-le value end)

last_boundary-boundary :
    (value : String) (end : ℕ) → is_char_boundary value (last_boundary value end) ≡ true
unfolding last_boundary
last_boundary-boundary value zero = boundary-zero value
last_boundary-boundary value (suc end) = elim (Bool-cases (is_char_boundary value (suc end))) [
  | inl e ↦ ap (λ b. is_char_boundary value (if b then suc end else last_boundary value end)) e ∙ e
  | inr e ↦
      ap (λ b. is_char_boundary value (if b then suc end else last_boundary value end)) e
      ∙ last_boundary-boundary value end
]

last_boundary-greatest :
    (value : String) (end k : ℕ)
    → is_char_boundary value k ≡ true
    → k ≤ end
    → k ≤ last_boundary value end
unfolding last_boundary
last_boundary-greatest value zero k b h = h
last_boundary-greatest value (suc end) k b h = elim (dec_le k end) [
  | yes below ↦ ground (arith, last_boundary-greatest value end k b below)
  | no above ↦
      let same : k ≡ suc end = omega arith in
      let e : is_char_boundary value (suc end) ≡ true =
        ap (is_char_boundary value) (sym same) ∙ b in
      omega (arith, ap (λ c. if c then suc end else last_boundary value end) e)
]

-- At a boundary, the slice has as many bytes as asked for.
len-slice : (value : String) (k : ℕ) → is_char_boundary value k ≡ true → len (slice value 0 k) ≡ k
len-slice value k b = ground arith

prefix-boundary : (value p : String) → IsPrefix p value → is_char_boundary value (len p) ≡ true
prefix-boundary value p (rest, e) =
    ap (λ v. is_char_boundary v (len p)) (sym e) ∙ boundary-append p rest

prefix_refl : (value : String) → IsPrefix value value
prefix_refl value = ([], append-nil value)

len-prefix : (value p : String) → IsPrefix p value → len p ≤ len value
len-prefix value p (rest, e) = omega (arith, len-append p rest, ap len e)

abbrev Longest : String → ℕ → String → Type 0
Longest value max cut =
    IsPrefix cut value
    × (len cut ≤ max)
    × ((p : String) → IsPrefix p value → len p ≤ max → len p ≤ len cut)

-- The truncated text is the longest prefix of the text, in whole characters, that has at most `max`
-- bytes.
pub truncate_at_boundary_lem :
    (value : String) (max : ℕ)
    → IsPrefix (truncate_at_boundary value max) value
      × (len (truncate_at_boundary value max) ≤ max)
      × ((p : String)
          → IsPrefix p value
          → len p ≤ max
          → len p ≤ len (truncate_at_boundary value max))
unfolding truncate_at_boundary
truncate_at_boundary_lem value max =
    let cut = last_boundary value max in
    let l : len (slice value 0 cut) ≡ cut =
      len-slice value cut (last_boundary-boundary value max) in
    elim (Bool-cases (leb (len value) max)) [
      | inl e ↦
          subst⁻¹ (λ b. Longest value max (if b then value else slice value 0 cut)) e
            (prefix_refl value, ground arith, λ p is _. len-prefix value p is)
      | inr e ↦
          subst⁻¹ (λ b. Longest value max (if b then value else slice value 0 cut)) e
            (
              slice-prefix value cut,
              omega (arith, l, last_boundary-le value max),
              λ p is few. omega (
                arith,
                l,
                last_boundary-greatest value max (len p) (prefix-boundary value p is) few,
              ),
            )
    ]
