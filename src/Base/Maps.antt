-- ===== src/Base/Maps.antt =====
-- Go's `map[string]V` as an association list: the first entry of a key counts.
use Prim.Native.String.{String}
use mathlib.Core.Path.{◌≡◌, refl}
use mathlib.Core.List.{List, [], ◌∷◌}
use mathlib.Core.Option.{Option, none, some}
use native.Mathlib.Omega.{arith}
use text.Mathlib.Text.{◌==◌}
use text.Mathlib.TextEquality.{eq_iff}
use rca_operator.Base.Tests.{if◌then◌else◌}

abbrev pub Map {ℓ} : Type ℓ → Type ℓ
Map V = List (String × V)

module _ {ℓ} {V : Type ℓ} where
  -- m[k], with the test whether the key is there
  unfoldable pub lookup : String → Map V → Option V
  lookup k [] = none
  lookup k ((j, v) ∷ m) = let rest = lookup k m in if j == k then some v else rest

  -- delete(m, k)
  unfoldable pub delete : String → Map V → Map V
  delete k [] = []
  delete k ((j, v) ∷ m) = let rest = delete k m in if j == k then rest else (j, v) ∷ rest

  -- m[k] = v
  unfoldable pub put : String → V → Map V → Map V
  put k v [] = (k, v) ∷ []
  put k v ((j, w) ∷ m) = let rest = put k v m in if j == k then (k, v) ∷ m else (j, w) ∷ rest

  -- maps.Copy(dst, src)
  unfoldable pub copy : Map V → Map V → Map V
  copy dst [] = dst
  copy dst ((k, v) ∷ src) = put k v (copy dst src)

  abbrev pub or_else : Option V → Option V → Option V
  or_else none o = o
  or_else (some v) o = some v

  pub lookup-put :
      (k j : String) (v : V) (m : Map V)
      → lookup j (put k v m) ≡ (if k == j then some v else lookup j m)
  unfolding lookup put
  lookup-put k j v [] = refl
  lookup-put k j v ((i, w) ∷ m) =
      ground (arith, eq_iff k j, eq_iff i k, eq_iff i j, lookup-put k j v m)

  pub lookup-delete :
      (k j : String) (m : Map V) → lookup j (delete k m) ≡ (if k == j then none else lookup j m)
  unfolding lookup delete
  lookup-delete k j [] = ground arith
  lookup-delete k j ((i, w) ∷ m) =
      ground (arith, eq_iff k j, eq_iff i k, eq_iff i j, lookup-delete k j m)

  pub lookup-copy :
      (j : String) (dst src : Map V)
      → lookup j (copy dst src) ≡ or_else (lookup j src) (lookup j dst)
  unfolding lookup copy
  lookup-copy j dst [] = refl
  lookup-copy j dst ((k, v) ∷ src) =
      ground (arith, lookup-put k j v (copy dst src), lookup-copy j dst src)
