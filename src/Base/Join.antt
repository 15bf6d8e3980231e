-- ===== src/Base/Join.antt =====
-- strings.Join, and that its parts can be told apart where none holds the separator.
use Prim.Native.Char.{Char, code}
use Prim.Native.String.{String, [], ◌∷◌, ◌++◌}
use mathlib.Core.Path.{◌≡◌, refl, sym, ap, ap₂, ◌∙◌}
use mathlib.Core.Bool.{Bool, true, false, not, ◌&&◌, false≢true}
use mathlib.Core.List.{List}
use native.Mathlib.Omega.{arith}
use text.Mathlib.TextLemmas.{nil-append, cons-append, head-eq_of_cons-eq, tail-eq_of_cons-eq}
use rca_operator.Base.Lists.{All}
use rca_operator.Base.Texts.{char_eq}

-- strings.Join(parts, sep), for a separator of one character
unfoldable pub join : Char → List String → String
join sep List.[] = ""
join sep (List.◌∷◌ x List.[]) = x
join sep (List.◌∷◌ x (List.◌∷◌ y ys)) = x ++ (sep ∷ join sep (List.◌∷◌ y ys))

-- No character of the text is the separator.
abbrev pub lacks : Char → String → Bool
lacks sep [] = true
lacks sep (c ∷ s) = not (char_eq c sep) && lacks sep s

-- The text before the first separator, and the text behind it, are determined.
pub split_at_separator :
    (sep : Char) (x y r s : String)
    → lacks sep x ≡ true
    → lacks sep y ≡ true
    → x ++ (sep ∷ r) ≡ y ++ (sep ∷ s)
    → (x ≡ y) × (r ≡ s)
split_at_separator sep [] [] r s h k e =
    (refl, tail-eq_of_cons-eq (sym (nil-append _) ∙ e ∙ nil-append _))
split_at_separator sep [] (d ∷ y) r s h k e =
    let p = ap code (head-eq_of_cons-eq (sym (nil-append _) ∙ e ∙ cons-append d y (sep ∷ s))) in
    ground (arith, k, p)
split_at_separator sep (c ∷ x) [] r s h k e =
    let p = ap code (head-eq_of_cons-eq (sym (cons-append c x (sep ∷ r)) ∙ e ∙ nil-append _)) in
    ground (arith, h, p)
split_at_separator sep (c ∷ x) (d ∷ y) r s h k e =
    let f = sym (cons-append c x (sep ∷ r)) ∙ e ∙ cons-append d y (sep ∷ s) in
    let (p, q) =
      split_at_separator sep x y r s (ground (arith, h)) (ground (arith, k))
        (tail-eq_of_cons-eq f) in
    (ap₂ ◌∷◌ (head-eq_of_cons-eq f) p, q)

lacks-separator : (sep : Char) (x s : String) → lacks sep (x ++ (sep ∷ s)) ≡ false
lacks-separator sep [] s = rw nil-append (ground arith)
lacks-separator sep (c ∷ x) s = rw cons-append (ground (arith, lacks-separator sep x s))

-- Texts without the separator are recovered from their join, if there is at least one.
pub join-injective :
    (sep : Char) (x : String) (xs : List String) (y : String) (ys : List String)
    → All (λ s. lacks sep s ≡ true) (List.◌∷◌ x xs)
    → All (λ s. lacks sep s ≡ true) (List.◌∷◌ y ys)
    → join sep (List.◌∷◌ x xs) ≡ join sep (List.◌∷◌ y ys)
    → (x ≡ y) × (xs ≡ ys)
unfolding join
join-injective sep x List.[] y List.[] h k e = (e, refl)
join-injective sep x List.[] y (List.◌∷◌ w ys) h k e =
    absurd (false≢true (sym (lacks-separator sep y _) ∙ ap (lacks sep) (sym e) ∙ h.0))
join-injective sep x (List.◌∷◌ v xs) y List.[] h k e =
    absurd (false≢true (sym (lacks-separator sep x _) ∙ ap (lacks sep) e ∙ k.0))
join-injective sep x (List.◌∷◌ v xs) y (List.◌∷◌ w ys) h k e =
    let (p, q) = split_at_separator sep x y _ _ h.0 k.0 e in
    let (r, t) = join-injective sep v xs w ys h.1 k.1 q in (p, ap₂ List.◌∷◌ r t)
