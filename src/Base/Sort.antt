-- ===== src/Base/Sort.antt =====
-- sort.SliceStable: an insertion sort that keeps the order of entries of which neither is less.
use mathlib.Core.Path.{◌≡◌, subst}
use mathlib.Core.Bool.{Bool, true, false}
use mathlib.Core.List.{List, [], ◌∷◌, Perm}
use mathlib.Core.List.Perm
use mathlib.Core.Logic.{inl, inr}
use mathlib.Core.Option.{some}
use native.Mathlib.Omega.{arith}
use rca_operator.Base.Tests.{if◌then◌else◌, Bool-cases}
use rca_operator.Base.Lists.{All, find_by}

module _ {ℓ} {A : Type ℓ} (less : A → A → Bool) where
  unfoldable pub insert : A → List A → List A
  insert x [] = x ∷ []
  insert x (y ∷ ys) = let rest = y ∷ insert x ys in if less y x then rest else x ∷ y ∷ ys

  unfoldable pub sort : List A → List A
  unfolding insert
  sort [] = []
  sort (x ∷ xs) = insert x (sort xs)

  -- No entry is less than one before it.
  abbrev pub IsOrdered : List A → Type 0
  IsOrdered [] = Unit
  IsOrdered (x ∷ xs) = All (λ y. less y x ≡ false) xs × IsOrdered xs

  pub insert-All {κ} : (P : A → Type κ) (x : A) (xs : List A) → P x → All P xs → All P (insert x xs)
  unfolding insert
  insert-All P x [] h k = (h, tt)
  insert-All P x (y ∷ ys) h k = elim (Bool-cases (less y x)) [
    | inl e ↦ rw e (k.0, insert-All P x ys h k.1)
    | inr e ↦ rw e (h, k)
  ]

  pub sort-All {κ} : (P : A → Type κ) (xs : List A) → All P xs → All P (sort xs)
  unfolding sort
  sort-All P [] k = tt
  sort-All P (x ∷ xs) k = insert-All P x (sort xs) k.0 (sort-All P xs k.1)

  insert-perm : (x : A) (xs : List A) → Perm (insert x xs) (x ∷ xs)
  unfolding insert
  insert-perm x [] = Perm.refl _
  insert-perm x (y ∷ ys) = elim (Bool-cases (less y x)) [
    | inl e ↦ rw e (Perm.trans (Perm.cons y (insert-perm x ys)) (Perm.swap x y ys))
    | inr e ↦ rw e (Perm.refl _)
  ]

  pub sort-perm : (xs : List A) → Perm (sort xs) xs
  unfolding sort
  sort-perm [] = Perm.refl _
  sort-perm (x ∷ xs) = Perm.trans (insert-perm x (sort xs)) (Perm.cons x (sort-perm xs))

-- What sorting asks of `less`: the laws of a strict weak order.
pub record IsLess {ℓ} {A : Type ℓ} (less : A → A → Bool) : Type ℓ where
  pub irrefl : (a : A) → less a a ≡ false
  pub asym : (a b : A) → less a b ≡ true → less b a ≡ false
  pub weak : (a b c : A) → less b a ≡ false → less c b ≡ false → less c a ≡ false

module _ {ℓ} {A : Type ℓ} (less : A → A → Bool) (laws : IsLess less) where
  All-weak :
      (x y : A) (zs : List A)
      → less y x ≡ false
      → All (λ z. less z y ≡ false) zs
      → All (λ z. less z x ≡ false) zs
  All-weak x y [] h k = tt
  All-weak x y (z ∷ zs) h k = (laws.weak x y z h k.0, All-weak x y zs h k.1)

  insert-IsOrdered : (x : A) (xs : List A) → IsOrdered less xs → IsOrdered less (insert less x xs)
  unfolding insert
  insert-IsOrdered x [] o = (tt, tt)
  insert-IsOrdered x (y ∷ ys) o = elim (Bool-cases (less y x)) [
    | inl e ↦ rw e (
      insert-All less (λ z. less z y ≡ false) x ys (laws.asym y x e) o.0,
      insert-IsOrdered x ys o.1,
    )
    | inr e ↦ rw e ((e, All-weak x y ys e o.0), o)
  ]

  pub sort-IsOrdered : (xs : List A) → IsOrdered less (sort less xs)
  unfolding sort
  sort-IsOrdered [] = tt
  sort-IsOrdered (x ∷ xs) = insert-IsOrdered x (sort less xs) (sort-IsOrdered xs)

  All-match :
      (p : A → Bool) (x : A) (xs : List A)
      → All (λ y. less y x ≡ false) xs
      → All (λ y. p y ≡ true → less y x ≡ false) xs
  All-match p x [] k = tt
  All-match p x (y ∷ xs) k = (λ _. k.0, All-match p x xs k.1)

  -- The first match of an ordered list is a least one: no match is less.
  pub find_by-least :
      (p : A → Bool) (xs : List A) (r : A)
      → IsOrdered less xs
      → find_by p xs ≡ some r
      → All (λ y. p y ≡ true → less y r ≡ false) xs
  find_by-least p [] r o h = tt
  find_by-least p (x ∷ xs) r o h = elim (Bool-cases (p x)) [
    | inl hit ↦
        let e : x ≡ r = ground (arith, hit) in
        subst (λ z. All (λ y. p y ≡ true → less y z ≡ false) (x ∷ xs)) e
          (λ _. laws.irrefl x, All-match p x xs o.0)
    | inr miss ↦ (λ hit. cc, find_by-least p xs r o.1 (ground (arith, miss)))
  ]
