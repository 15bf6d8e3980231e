-- ===== src/Base/Lists.antt =====
-- Lists measured by native numbers and searched by Boolean tests.
use Prim.Native.Nat.{ℕ, zero, suc, ◌+◌, ◌-◌, ◌≤◌, ◌<◌}
use mathlib.Core.Path.{◌≡◌, refl}
use mathlib.Core.Logic.{inl, inr}
use mathlib.Core.Bool.{Bool, false, ◌||◌}
use mathlib.Core.List.{List, [], ◌∷◌, ◌++◌}
use mathlib.Core.Option.{Option, none, some}
use native.Mathlib.Omega.{arith}
use rca_operator.Base.Tests.{if◌then◌else◌, leb, Bool-cases}

module _ {ℓ} {A : Type ℓ} where
  abbrev pub length : List A → ℕ
  length [] = 0
  length (x ∷ xs) = suc (length xs)

  pub length-append : (xs ys : List A) → length (xs ++ ys) ≡ length xs + length ys
  length-append [] ys = omega arith
  length-append (x ∷ xs) ys = omega (arith, length-append xs ys)

  abbrev pub take : ℕ → List A → List A
  take zero xs = []
  take (suc n) [] = []
  take (suc n) (x ∷ xs) = x ∷ take n xs

  abbrev pub drop : ℕ → List A → List A
  drop zero xs = xs
  drop (suc n) [] = []
  drop (suc n) (x ∷ xs) = drop n xs

  pub length-drop : (n : ℕ) (xs : List A) → length (drop n xs) ≡ length xs - n
  length-drop zero xs = omega arith
  length-drop (suc n) [] = omega arith
  length-drop (suc n) (x ∷ xs) = omega (arith, length-drop n xs)

  -- `if len(in) <= n { return in }; return in[len(in)-n:]`
  abbrev pub keep_last : ℕ → List A → List A
  keep_last n xs = if leb (length xs) n then xs else drop (length xs - n) xs

  pub length-keep_last : (n : ℕ) (xs : List A) → length (keep_last n xs) ≤ n
  length-keep_last n xs = ground (arith, length-drop (length xs - n) xs)

  drop-append : (n : ℕ) (xs ys : List A) → n ≤ length xs → drop n (xs ++ ys) ≡ drop n xs ++ ys
  drop-append zero xs ys h = refl
  drop-append (suc n) [] ys h = absurd (omega arith)
  drop-append (suc n) (x ∷ xs) ys h = drop-append n xs ys (omega arith)

  -- What was appended last is the last entry that is kept.
  pub keep_last-append_one :
      (n : ℕ) (xs : List A) (a : A)
      → 0 < n
      → (ys : List A) × (keep_last n (xs ++ a ∷ []) ≡ ys ++ a ∷ [])
  keep_last-append_one n xs a h = elim (Bool-cases (leb (length (xs ++ a ∷ [])) n)) [
    | inl short ↦ (xs, ground arith)
    | inr long ↦ (
      drop (length (xs ++ a ∷ []) - n) xs,
      ground
          (arith, length-append xs (a ∷ []), drop-append (length (xs ++ a ∷ []) - n) xs (a ∷ [])),
    )
  ]

  abbrev pub filter_by : (A → Bool) → List A → List A
  filter_by p [] = []
  filter_by p (x ∷ xs) = let rest = filter_by p xs in if p x then x ∷ rest else rest

  abbrev pub any_by : (A → Bool) → List A → Bool
  any_by p [] = false
  any_by p (x ∷ xs) = p x || any_by p xs

  abbrev pub find_by : (A → Bool) → List A → Option A
  find_by p [] = none
  find_by p (x ∷ xs) = let rest = find_by p xs in if p x then some x else rest

  -- A predicate of every entry, computing to a tuple.
  abbrev pub All {κ} : (A → Type κ) → List A → Type κ
  All P [] = Unit
  All P (x ∷ xs) = P x × All P xs

  pub filter_by-append :
      (p : A → Bool) (xs ys : List A) → filter_by p (xs ++ ys) ≡ filter_by p xs ++ filter_by p ys
  filter_by-append p [] ys = refl
  filter_by-append p (x ∷ xs) ys = ground (arith, filter_by-append p xs ys)

  pub any_by-append :
      (p : A → Bool) (xs ys : List A) → any_by p (xs ++ ys) ≡ (any_by p xs || any_by p ys)
  any_by-append p [] ys = refl
  any_by-append p (x ∷ xs) ys = ground (arith, any_by-append p xs ys)

  pub All-append {κ} : (P : A → Type κ) (xs ys : List A) → All P xs → All P ys → All P (xs ++ ys)
  All-append P [] ys h k = k
  All-append P (x ∷ xs) ys h k = (h.0, All-append P xs ys h.1 k)

  pub All-filter_by {κ} :
      (P : A → Type κ) (p : A → Bool) (xs : List A) → All P xs → All P (filter_by p xs)
  All-filter_by P p [] h = tt
  All-filter_by P p (x ∷ xs) h = ground (arith, All-filter_by P p xs h.1)
