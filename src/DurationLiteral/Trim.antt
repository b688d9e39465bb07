-- ===== src/DurationLiteral/Trim.antt =====
-- `trim` and `trim_start` on a text in pieces (crates/macros/src/duration.rs).
use queuey.Common.{ℕ, ◌≡◌, refl, ap, Bool, true, false, List, [], ◌∷◌, ◌++◌, arith, All}
use queuey.DurationLiteral.{trim_start, trim_end, drop_white}

module _ (white : ℕ → Bool) where
  pub trim_start-append :
      (ws cs : List ℕ)
      → All (λ c. white c ≡ true) ws
      → trim_start white (ws ++ cs) ≡ trim_start white cs
  unfolding trim_start
  trim_start-append [] cs a = refl
  trim_start-append (w ∷ ws) cs a = ground (arith, a.0, trim_start-append ws cs a.1)

  pub trim_end-white : (ws : List ℕ) → All (λ c. white c ≡ true) ws → trim_end white ws ≡ []
  unfolding trim_end
  trim_end-white [] a = refl
  trim_end-white (w ∷ ws) a = ground (arith, a.0, trim_end-white ws a.1)

  pub trim_end-append :
      (cs ws : List ℕ)
      → All (λ c. white c ≡ true) ws
      → trim_end white (cs ++ ws) ≡ trim_end white cs
  unfolding trim_end
  trim_end-append [] ws a = trim_end-white ws a
  trim_end-append (c ∷ cs) ws a = ap (drop_white (white c) c) (trim_end-append cs ws a)

  -- Characters before one that stays stay.
  pub trim_end-behind :
      (cs tail : List ℕ) (d : ℕ) (ds : List ℕ)
      → trim_end white tail ≡ d ∷ ds
      → trim_end white (cs ++ tail) ≡ cs ++ d ∷ ds
  unfolding trim_end
  trim_end-behind [] tail d ds kept = kept
  trim_end-behind (c ∷ []) tail d ds kept = ground (arith, kept)
  trim_end-behind (c ∷ e ∷ cs) tail d ds kept =
      ap (drop_white (white c) c) (trim_end-behind (e ∷ cs) tail d ds kept)

  pub trim_end-All : (cs : List ℕ) → All (λ c. white c ≡ false) cs → trim_end white cs ≡ cs
  unfolding trim_end
  trim_end-All [] a = refl
  trim_end-All (c ∷ cs) a = ground (arith, a.0, trim_end-All cs a.1)
