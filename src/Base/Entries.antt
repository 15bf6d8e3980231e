-- ===== src/Base/Entries.antt =====
-- A predicate of every entry of a map.
use mathlib.Core.Option.{some}
use mathlib.Core.Logic.{inl, inr}
use mathlib.Core.List.{[], ◌∷◌}
use mathlib.Core.Path.{◌≡◌, subst}
use Prim.Native.String.{String}
use native.Mathlib.Omega.{arith}
use text.Mathlib.Text.{◌==◌}
use text.Mathlib.TextEquality.{eq_iff}
use rca_operator.Base.Tests.{Bool-cases}
use rca_operator.Base.Lists.{All}
use rca_operator.Base.Maps.{Map, lookup, put}

module _ {ℓ κ} {V : Type ℓ} (P : String → V → Type κ) where
  abbrev pub Entries : Map V → Type κ
  Entries m = All (λ entry. P entry.0 entry.1) m

  pub put-Entries : (k : String) (v : V) (m : Map V) → P k v → Entries m → Entries (put k v m)
  unfolding put
  put-Entries k v [] h i = (h, tt)
  put-Entries k v ((j, w) ∷ m) h i = elim (Bool-cases (j == k)) [
    | inl e ↦ rw e (h, i.1)
    | inr e ↦ rw e (i.0, put-Entries k v m h i.1)
  ]

  pub Entries-map :
      {Q : String → V → Type κ} (m : Map V)
      → ((k : String) (v : V) → P k v → Q k v)
      → Entries m
      → All (λ entry. Q entry.0 entry.1) m
  Entries-map [] f h = tt
  Entries-map ((k, v) ∷ m) f h = (f k v h.0, Entries-map m f h.1)

  pub lookup-Entries : (k : String) (v : V) (m : Map V) → Entries m → lookup k m ≡ some v → P k v
  unfolding lookup
  lookup-Entries k v [] h e = cc
  lookup-Entries k v ((j, w) ∷ m) h e = elim (Bool-cases (j == k)) [
    | inl same ↦
        let f : w ≡ v = ground (arith, e, same) in
        subst (P k) f (subst (λ i. P i w) ((eq_iff j k).0 same) h.0)
    | inr other ↦ lookup-Entries k v m h.1 (ground (arith, e, other))
  ]
