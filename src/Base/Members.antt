-- ===== src/Base/Members.antt =====
-- Membership in filtered lists, in search results and under a property of all elements.
use mathlib.Core.Path.{◌≡◌, refl, sym, subst}
use mathlib.Core.Bool.{Bool, true, false}
use mathlib.Core.Option.{none, some}
use mathlib.Core.Logic.{inl, inr}
use mathlib.Core.List.{List, [], ◌∷◌, ◌++◌, Memᴰ}
use native.Mathlib.Omega.{arith}
use rca_operator.Base.Tests.{if◌then◌else◌, Bool-cases}
use rca_operator.Base.Lists.{filter_by, find_by, All}

module _ {ℓ} {A : Type ℓ} where
  pub All-Memᴰ {κ} : (P : A → Type κ) (xs : List A) (x : A) → All P xs → Memᴰ x xs → P x
  All-Memᴰ P [] x h m = elim m [ ]
  All-Memᴰ P (y ∷ xs) x h (Memᴰ.head e) = subst P (sym e) h.0
  All-Memᴰ P (y ∷ xs) x h (Memᴰ.tail m) = All-Memᴰ P xs x h.1 m

  pub All-within {κ} : (P : A → Type κ) (xs : List A) → ((x : A) → Memᴰ x xs → P x) → All P xs
  All-within P [] h = tt
  All-within P (x ∷ xs) h = (h x (Memᴰ.head refl), All-within P xs (λ y m. h y (Memᴰ.tail m)))

  head-kept :
      (p : A → Bool) (y x : A) (xs ys : List A)
      → p y ≡ true
      → (Memᴰ x ys → Memᴰ x xs × (p x ≡ true))
      → Memᴰ x (y ∷ ys)
      → Memᴰ x (y ∷ xs) × (p x ≡ true)
  head-kept p y x xs ys hit rest (Memᴰ.head e) = (Memᴰ.head e, subst (λ z. p z ≡ true) (sym e) hit)
  head-kept p y x xs ys hit rest (Memᴰ.tail k) = let (a, b) = rest k in (Memᴰ.tail a, b)

  pub filter_by-Memᴰ :
      (p : A → Bool) (xs : List A) (x : A) → Memᴰ x (filter_by p xs) → Memᴰ x xs × (p x ≡ true)
  filter_by-Memᴰ p [] x m = elim m [ ]
  filter_by-Memᴰ p (y ∷ xs) x m =
      let kept = filter_by p xs in
      let ih : Memᴰ x kept → Memᴰ x xs × (p x ≡ true) = filter_by-Memᴰ p xs x in
      elim (Bool-cases (p y)) [
        | inl hit ↦
            head-kept p y x xs kept hit ih
              (subst (λ b. Memᴰ x (if b then y ∷ kept else kept)) hit m)
        | inr miss ↦
            let (a, b) = ih (subst (λ b. Memᴰ x (if b then y ∷ kept else kept)) miss m) in
            (Memᴰ.tail a, b)
      ]

  pub Memᴰ-filter_by :
      (p : A → Bool) (xs : List A) (x : A) → Memᴰ x xs → p x ≡ true → Memᴰ x (filter_by p xs)
  Memᴰ-filter_by p [] x m h = elim m [ ]
  Memᴰ-filter_by p (y ∷ xs) x (Memᴰ.head e) h = rw (subst (λ z. p z ≡ true) e h) (Memᴰ.head e)
  Memᴰ-filter_by p (y ∷ xs) x (Memᴰ.tail m) h = elim (Bool-cases (p y)) [
    | inl hit ↦ rw hit (Memᴰ.tail (Memᴰ-filter_by p xs x m h))
    | inr miss ↦ rw miss (Memᴰ-filter_by p xs x m h)
  ]

  pub find_by-some :
      (p : A → Bool) (xs : List A) (r : A) → find_by p xs ≡ some r → Memᴰ r xs × (p r ≡ true)
  find_by-some p [] r h = cc
  find_by-some p (x ∷ xs) r h = elim (Bool-cases (p x)) [
    | inl hit ↦
        let e : r ≡ x = ground (arith, hit) in (Memᴰ.head e, subst (λ z. p z ≡ true) (sym e) hit)
    | inr miss ↦ let (a, b) = find_by-some p xs r (ground (arith, miss)) in (Memᴰ.tail a, b)
  ]

  find_by-none_tail :
      (p : A → Bool) (y : A) (xs : List A) → find_by p (y ∷ xs) ≡ none → find_by p xs ≡ none
  find_by-none_tail p y xs h = ground arith

  find_by-none_head : (p : A → Bool) (y : A) (xs : List A) → find_by p (y ∷ xs) ≡ none → p y ≡ false
  find_by-none_head p y xs h = ground arith

  pub find_by-absent :
      (p : A → Bool) (xs : List A) (x : A) → find_by p xs ≡ none → Memᴰ x xs → p x ≡ false
  find_by-absent p [] x h m = elim m [ ]
  find_by-absent p (y ∷ xs) x h (Memᴰ.head e) =
      subst (λ z. p z ≡ false) (sym e) (find_by-none_head p y xs h)
  find_by-absent p (y ∷ xs) x h (Memᴰ.tail m) = find_by-absent p xs x (find_by-none_tail p y xs h) m

  -- where nothing is found, nothing matches
  pub find_by-none : (p : A → Bool) (xs : List A) → find_by p xs ≡ none → All (λ x. p x ≡ false) xs
  find_by-none p [] h = tt
  find_by-none p (x ∷ xs) h = elim (Bool-cases (p x)) [
    | inl hit ↦ cc (h, hit)
    | inr miss ↦ (miss, find_by-none p xs (ground (arith, miss)))
  ]

pub Memᴰ-append_left {ℓ} : {A : Type ℓ} (x : A) (xs ys : List A) → Memᴰ x xs → Memᴰ x (xs ++ ys)
Memᴰ-append_left x [] ys m = elim m [ ]
Memᴰ-append_left x (y ∷ xs) ys (Memᴰ.head e) = Memᴰ.head e
Memᴰ-append_left x (y ∷ xs) ys (Memᴰ.tail m) = Memᴰ.tail (Memᴰ-append_left x xs ys m)

pub Memᴰ-append_last {ℓ} : {A : Type ℓ} (x y : A) (xs : List A) → x ≡ y → Memᴰ x (xs ++ y ∷ [])
Memᴰ-append_last x y [] e = Memᴰ.head e
Memᴰ-append_last x y (z ∷ xs) e = Memᴰ.tail (Memᴰ-append_last x y xs e)
