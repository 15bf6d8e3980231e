-- ===== src/Base/Split.antt =====
-- strings.Split by a separator of one character, and that strings.Join undoes it.
use Prim.Native.Char.{Char}
use Prim.Native.String.{String, [], ◌∷◌, ◌++◌}
use mathlib.Core.Path.{◌≡◌, refl, sym, ap, ◌∙◌}
use mathlib.Core.Bool.{true, false}
use mathlib.Core.Logic.{inl, inr}
use mathlib.Core.List
use mathlib.Core.List.{List, append_assoc}
use native.Mathlib.Omega.{arith}
use text.Mathlib.TextLemmas.{nil-append, cons-append}
use text.Mathlib.TextEquality.{Char-path}
use rca_operator.Base.Tests.{if◌then◌else◌, Bool-cases}
use rca_operator.Base.Texts.{char_eq}
use rca_operator.Base.Join.{join, lacks}

abbrev pub cons_first : Char → List String → List String
cons_first c List.[] = List.◌∷◌ (c ∷ []) List.[]
cons_first c (List.◌∷◌ x xs) = List.◌∷◌ (c ∷ x) xs

unfoldable pub split : Char → String → List String
split sep [] = List.◌∷◌ "" List.[]
split sep (c ∷ s) =
    let rest = split sep s in if char_eq c sep then List.◌∷◌ "" rest else cons_first c rest

-- there is a first part
pub split_first :
    (sep : Char) (s : String) → (x : String) × (xs : List String) × (split sep s ≡ List.◌∷◌ x xs)
unfolding split
split_first sep [] = ("", List.[], refl)
split_first sep (c ∷ s) =
    let (x, xs, e) = split_first sep s in
    elim (Bool-cases (char_eq c sep)) [
      | inl here ↦ ("", split sep s, rw here refl)
      | inr other ↦ (c ∷ x, xs, rw (other, e) refl)
    ]

pub split-append :
    (sep : Char) (s t : String) → split sep (s ++ (sep ∷ t)) ≡ List.◌++◌ (split sep s) (split sep t)
unfolding split
split-append sep [] t = rw nil-append (ground arith)
split-append sep (c ∷ s) t =
    let (x, xs, e) = split_first sep s in
    let ih = split-append sep s t in
    rw cons-append (elim (Bool-cases (char_eq c sep)) [
      | inl here ↦ rw here (ap (List.◌∷◌ "") ih)
      | inr other ↦ rw (other, ih, e) refl
    ])

pub split-lacks : (sep : Char) (s : String) → lacks sep s ≡ true → split sep s ≡ List.◌∷◌ s List.[]
unfolding split
split-lacks sep [] h = refl
split-lacks sep (c ∷ s) h =
    let other : char_eq c sep ≡ false = ground (arith, h) in
    rw (other, split-lacks sep s (ground (arith, h))) refl

pub join-cons_first :
    (sep c : Char) (x : String) (xs : List String)
    → join sep (List.◌∷◌ (c ∷ x) xs) ≡ c ∷ join sep (List.◌∷◌ x xs)
unfolding join
join-cons_first sep c x List.[] = refl
join-cons_first sep c x (List.◌∷◌ y ys) = cons-append c x _

join-empty_first :
    (sep : Char) (x : String) (xs : List String)
    → join sep (List.◌∷◌ "" (List.◌∷◌ x xs)) ≡ sep ∷ join sep (List.◌∷◌ x xs)
unfolding join
join-empty_first sep x xs = nil-append _

-- strings.Join(strings.Split(s, sep), sep) is s.
pub join-split : (sep : Char) (s : String) → join sep (split sep s) ≡ s
unfolding split
join-split sep [] = unfold join in refl
join-split sep (c ∷ s) =
    let (x, xs, e) = split_first sep s in
    let ih : join sep (List.◌∷◌ x xs) ≡ s = ap (join sep) (sym e) ∙ join-split sep s in
    elim (Bool-cases (char_eq c sep)) [
      | inl here ↦
          rw (here, e)
            (join-empty_first sep x xs
              ∙ ap (λ z. sep ∷ z) ih
              ∙ ap (λ z. z ∷ s) (sym (Char-path c sep (ground (arith, here)))))
      | inr other ↦ rw (other, e) (join-cons_first sep c x xs ∙ ap (λ z. c ∷ z) ih)
    ]
