-- ===== src/Common/Map.antt =====
-- A `HashMap` with string keys, as an association list. An entry keeps its place when it is
-- replaced, and a new one goes to the end; the program reads no order from a map.
use Prim.Native.Nat.{ℕ, ◌+◌}
use Prim.Native.String.{String}
use mathlib.Core.Path.{◌≡◌, refl}
use mathlib.Core.Option.{Option, none, some}
use mathlib.Core.List.{List, [], ◌∷◌}
use native.Mathlib.Omega.{arith}
use text.Mathlib.Text.{◌==◌ as str_eq}
use text.Mathlib.TextEquality.{eq_iff}
use queuey.Common.Tests.{if◌then◌else◌}

abbrev pub Map {ℓ} : Type ℓ → Type ℓ
Map V = List (String × V)

module _ {ℓ} {V : Type ℓ} where
  -- `map.get(key)`
  unfoldable pub get : String → Map V → Option V
  get k [] = none
  get k ((j, v) ∷ m) = if str_eq j k then some v else get k m

  -- `map.insert(key, value)`
  unfoldable pub put : String → V → Map V → Map V
  put k v [] = (k, v) ∷ []
  put k v ((j, w) ∷ m) = if str_eq j k then (j, v) ∷ m else (j, w) ∷ put k v m

  abbrev pub keys : Map V → List String
  keys [] = []
  keys ((k, v) ∷ m) = k ∷ keys m

  -- The laws that clients use; the two functions stay shut for them.
  pub get-put :
      (k j : String) (v : V) (m : Map V)
      → get j (put k v m) ≡ (if str_eq k j then some v else get j m)
  unfolding get put
  get-put k j v [] = refl
  get-put k j v ((i, w) ∷ m) = ground (arith, eq_iff i k, eq_iff i j, eq_iff k j, get-put k j v m)

  -- The sum of a weight over the entries.
  unfoldable pub total : (V → ℕ) → Map V → ℕ
  total weight [] = 0
  total weight ((k, v) ∷ m) = weight v + total weight m

  abbrev pub weight_of : (V → ℕ) → Option V → ℕ
  weight_of weight none = 0
  weight_of weight (some v) = weight v

  pub total-put :
      (weight : V → ℕ) (k : String) (v : V) (m : Map V)
      → total weight (put k v m) + weight_of weight (get k m) ≡ total weight m + weight v
  unfolding get put total
  total-put weight k v [] = omega arith
  total-put weight k v ((j, w) ∷ m) = ground (arith, total-put weight k v m)

  -- No key stands twice; every map that is built by `put` is so.
  abbrev pub DistinctKeys : Map V → Type ℓ
  DistinctKeys [] = Unit
  DistinctKeys ((k, v) ∷ m) = (get k m ≡ none) × DistinctKeys m

  pub put-DistinctKeys :
      (k : String) (v : V) (m : Map V) → DistinctKeys m → DistinctKeys (put k v m)
  unfolding put
  put-DistinctKeys k v [] d = (unfold get in refl, tt)
  put-DistinctKeys k v ((j, w) ∷ m) d =
      ground (arith, put-DistinctKeys k v m d.1, get-put k j v m, eq_iff j k, eq_iff k j)
