-- ===== src/Signals/Summary/Stable.antt =====
-- The loop of stripEmptyKV ends by its test.
use Prim.Native.Char.{Char}
use Prim.Native.String.{String, [], ◌∷◌}
use mathlib.Core.Bool.{false≢true}
use rca_operator.Base.{
  ℕ, zero, suc, ◌≤◌, ◌<◌, ◌≡◌, ◌⊎◌, refl, sym, ap, ◌∙◌, some, Bool-cases, Option-cases, inl, inr,
  arith, ◌==◌, eq→path, path→eq,
}
use rca_operator.Reporter.Text.{size}
use rca_operator.Signals.Summary.{
  is_blank, at_blank, value_missing, empty_pair, behind, replace_from, remove_empty_pairs,
  repeat_removal,
}

at_blank-size : (s rest : String) → at_blank s ≡ some rest → size rest ≡ size s
at_blank-size [] rest h = let e : rest ≡ [] = cc in rw e refl
at_blank-size (c ∷ s) rest h = ground (arith, h)

value_missing_shorter : (s rest : String) → value_missing s ≡ some rest → size rest < size s
unfolding value_missing
value_missing_shorter [] rest h = cc
value_missing_shorter (c ∷ s) rest h =
    ground (arith, at_blank-size s rest, value_missing_shorter s rest, h)

empty_pair_shorter : (s rest : String) → empty_pair s ≡ some rest → suc (size rest) < size s
unfolding empty_pair
empty_pair_shorter [] rest h = cc
empty_pair_shorter (c ∷ s) rest h = ground (arith, value_missing_shorter s rest, h)

-- A text that a replacement leaves as it is, or makes shorter.
abbrev Shrinks : (String → String) → Type 0
Shrinks f = (s : String) → (f s ≡ s) ⊎ (size (f s) < size s)

Shrinks-le : (f : String → String) → Shrinks f → (s : String) → size (f s) ≤ size s
Shrinks-le f h s = elim (h s) [ inl e ↦ rw e (omega arith) | inr l ↦ omega arith ]

behind-le : (f : String → String) → Shrinks f → (s : String) → size (behind f s) ≤ size s
behind-le f h [] = omega arith
behind-le f h (d ∷ s) = omega (arith, Shrinks-le f h s)

cons-Shrinks :
    (c : Char) (r s : String)
    → (r ≡ s) ⊎ (size r < size s)
    → (c ∷ r ≡ c ∷ s) ⊎ (size (c ∷ r) < size (c ∷ s))
cons-Shrinks c r s (inl e) = inl (ap (λ z. c ∷ z) e)
cons-Shrinks c r s (inr l) = inr (omega arith)

replace_from-Shrinks : (fuel : ℕ) → Shrinks (replace_from fuel)
unfolding replace_from
replace_from-Shrinks zero s = inl refl
replace_from-Shrinks (suc fuel) [] = inl refl
replace_from-Shrinks (suc fuel) (c ∷ s) =
    let ih = replace_from-Shrinks fuel in
    let kept = cons-Shrinks c (replace_from fuel s) s (ih s) in
    elim (Bool-cases (is_blank c)) [
      | inr other ↦ rw other kept
      | inl blank ↦ elim (Option-cases (empty_pair s)) [
        | inl unmatched ↦ rw (blank, unmatched) kept
        | inr (rest, matched) ↦
            rw (blank, matched)
              (inr (
                omega (
                  arith,
                  behind-le (replace_from fuel) ih rest,
                  empty_pair_shorter s rest matched,
                )))
      ]
    ]

remove_empty_pairs-Shrinks : Shrinks remove_empty_pairs
unfolding remove_empty_pairs
remove_empty_pairs-Shrinks s =
    let ih = replace_from-Shrinks (size s) in
    elim (Option-cases (empty_pair s)) [
      | inl unmatched ↦ rw (remove_empty_pairs, unmatched) (ih s)
      | inr (rest, matched) ↦
          rw (remove_empty_pairs, matched)
            (inr (
              omega (
                arith,
                behind-le (replace_from (size s)) ih rest,
                empty_pair_shorter s rest matched,
              )))
    ]

repeat_removal_stable :
    (fuel : ℕ) (s : String)
    → size s < fuel
    → remove_empty_pairs (repeat_removal fuel s) ≡ repeat_removal fuel s
unfolding repeat_removal
repeat_removal_stable zero s h = elim h [ ]
repeat_removal_stable (suc fuel) s h = elim (Bool-cases (remove_empty_pairs s == s)) [
  | inl same ↦ rw same (eq→path (remove_empty_pairs s) s same)
  | inr other ↦ rw other (elim (remove_empty_pairs-Shrinks s) [
    | inl e ↦ absurd (false≢true (sym other ∙ path→eq (remove_empty_pairs s) s e))
    | inr l ↦ repeat_removal_stable fuel (remove_empty_pairs s) (omega arith)
  ])
]

repeat_removal-le : (fuel : ℕ) (s : String) → size (repeat_removal fuel s) ≤ size s
unfolding repeat_removal
repeat_removal-le zero s = omega arith
repeat_removal-le (suc fuel) s = ground (
  arith,
  repeat_removal-le fuel (remove_empty_pairs s),
  Shrinks-le remove_empty_pairs remove_empty_pairs-Shrinks s,
)

-- The loop of stripEmptyKV ends, on every text: with the fuel that it is given it stops at a text in
-- which no empty pair is left to remove, and which is no longer than the text it began with.
pub strip_empty_kv_ends :
    (s : String)
    → (remove_empty_pairs (repeat_removal (suc (size s)) s) ≡ repeat_removal (suc (size s)) s)
      × (size (repeat_removal (suc (size s)) s) ≤ size s)
strip_empty_kv_ends s =
    (repeat_removal_stable (suc (size s)) s (omega arith), repeat_removal-le (suc (size s)) s)
