-- ===== src/Reporter/Fingerprint/Plain.antt =====
-- A fingerprint of plain parts has no old suffix for stripLegacyOTelFingerprintType to cut.
use Prim.Native.String.{String, [], ◌∷◌, ◌++◌}
use text.Mathlib.TextLemmas.{nil-append, cons-append}
use rca_operator.Base.{
  ◌≡◌, refl, ap, ◌∙◌, Bool, true, false, not, ◌&&◌, ◌||◌, List, arith, Bool-cases, inl, inr, All,
}
use rca_operator.Base.Join.{join, lacks}
use rca_operator.Base.Texts.{has_prefix, contains}
use rca_operator.Reporter.Fingerprint.{before, strip_legacy_type}

-- The part has no `|` and does not begin with `OTel`.
abbrev pub is_plain : String → Bool
is_plain p = lacks "|" p && not (has_prefix p "OTel")

before_absent : (m s : String) → contains s m ≡ false → before m s ≡ s
unfolding contains before
before_absent m [] h = refl
before_absent m (c ∷ s) h =
    let miss : has_prefix (c ∷ s) m ≡ false = ground (arith, h) in
    rw miss (ap (λ z. c ∷ z) (before_absent m s (ground (arith, h))))

-- a prefix up to a separator, in a text up to its first separator
has_prefix_behind :
    (p r a b : String)
    → lacks "|" p ≡ true
    → lacks "|" a ≡ true
    → has_prefix (p ++ ("|" ∷ r)) (a ++ ("|" ∷ b)) ≡ true
    → has_prefix r b ≡ true
unfolding has_prefix
has_prefix_behind [] r [] b h k e =
    let f = rw (nil-append ("|" ∷ r), nil-append ("|" ∷ b)) at e in ground (arith, f)
has_prefix_behind [] r (d ∷ a) b h k e =
    let f = rw (nil-append ("|" ∷ r), cons-append d a ("|" ∷ b)) at e in ground (arith, f, k)
has_prefix_behind (c ∷ p) r [] b h k e =
    let f = rw (cons-append c p ("|" ∷ r), nil-append ("|" ∷ b)) at e in ground (arith, f, h)
has_prefix_behind (c ∷ p) r (d ∷ a) b h k e =
    let f = rw (cons-append c p ("|" ∷ r), cons-append d a ("|" ∷ b)) at e in
    has_prefix_behind p r a b (ground (arith, h)) (ground (arith, k)) (ground (arith, f))

-- a prefix without the separator, in a text up to its first separator
has_prefix_within :
    (p r b : String)
    → lacks "|" b ≡ true
    → has_prefix (p ++ ("|" ∷ r)) b ≡ true
    → has_prefix p b ≡ true
unfolding has_prefix
has_prefix_within [] r [] k e = refl
has_prefix_within [] r (d ∷ b) k e = let f = rw (nil-append ("|" ∷ r)) at e in ground (arith, f, k)
has_prefix_within (c ∷ p) r [] k e = refl
has_prefix_within (c ∷ p) r (d ∷ b) k e =
    let f = rw (cons-append c p ("|" ∷ r)) at e in
    ground (arith, f, has_prefix_within p r b (ground (arith, k)))

-- a text without the separator has no prefix with it
has_prefix-lacks : (p a b : String) → lacks "|" p ≡ true → has_prefix p (a ++ ("|" ∷ b)) ≡ false
unfolding has_prefix
has_prefix-lacks [] [] b h = rw (nil-append ("|" ∷ b)) refl
has_prefix-lacks [] (d ∷ a) b h = rw (cons-append d a ("|" ∷ b)) refl
has_prefix-lacks (c ∷ p) [] b h = rw (nil-append ("|" ∷ b)) (ground (arith, h))
has_prefix-lacks (c ∷ p) (d ∷ a) b h =
    rw (cons-append d a ("|" ∷ b)) (ground (arith, h, has_prefix-lacks p a b (ground (arith, h))))

abbrev marker : String
marker = "|type|OTel"

contains-lacks : (p : String) → lacks "|" p ≡ true → contains p marker ≡ false
unfolding contains has_prefix
contains-lacks [] h = refl
contains-lacks (c ∷ p) h = ground (arith, h, contains-lacks p (ground (arith, h)))

contains_behind :
    (p r : String)
    → lacks "|" p ≡ true
    → contains (p ++ ("|" ∷ r)) marker ≡ (has_prefix r "type|OTel" || contains r marker)
unfolding contains has_prefix
contains_behind [] r h = rw (nil-append ("|" ∷ r)) refl
contains_behind (c ∷ p) r h =
    rw (cons-append c p ("|" ∷ r)) (ground (arith, h, contains_behind p r (ground (arith, h))))

-- A fingerprint of plain parts does not begin with the type marker or with `OTel`.
join_prefix :
    (x : String) (xs : List String)
    → All (λ p. is_plain p ≡ true) (List.◌∷◌ x xs)
    → has_prefix (join "|" (List.◌∷◌ x xs)) "OTel" ≡ false
unfolding join
join_prefix x List.[] h = ground (arith, h)
join_prefix x (List.◌∷◌ y ys) h =
    elim (Bool-cases (has_prefix (x ++ ("|" ∷ join "|" (List.◌∷◌ y ys))) "OTel")) [
      | inl hit ↦
          ground (arith, h.0, has_prefix_within x (join "|" (List.◌∷◌ y ys)) "OTel" refl hit)
      | inr miss ↦ miss
    ]

join_type :
    (x : String) (xs : List String)
    → All (λ p. is_plain p ≡ true) (List.◌∷◌ x xs)
    → has_prefix (join "|" (List.◌∷◌ x xs)) "type|OTel" ≡ false
unfolding join
join_type x List.[] h = has_prefix-lacks x "type" "OTel" (ground (arith, h))
join_type x (List.◌∷◌ y ys) h =
    let rest = join "|" (List.◌∷◌ y ys) in
    elim (Bool-cases (has_prefix (x ++ ("|" ∷ rest)) "type|OTel")) [
      | inl hit ↦ ground (
        arith,
        join_prefix y ys h.1,
        has_prefix_behind x rest "type" "OTel" (ground (arith, h)) refl hit,
      )
      | inr miss ↦ miss
    ]

join-lacks_marker :
    (x : String) (xs : List String)
    → All (λ p. is_plain p ≡ true) (List.◌∷◌ x xs)
    → contains (join "|" (List.◌∷◌ x xs)) marker ≡ false
unfolding join
join-lacks_marker x List.[] h = contains-lacks x (ground (arith, h))
join-lacks_marker x (List.◌∷◌ y ys) h =
    contains_behind x (join "|" (List.◌∷◌ y ys)) (ground (arith, h))
    ∙ ground (arith, join_type y ys h.1, join-lacks_marker y ys h.1)

pub strip_legacy_type-join :
    (x : String) (xs : List String)
    → All (λ p. is_plain p ≡ true) (List.◌∷◌ x xs)
    → strip_legacy_type (join "|" (List.◌∷◌ x xs)) ≡ join "|" (List.◌∷◌ x xs)
unfolding strip_legacy_type
strip_legacy_type-join x xs h = before_absent marker _ (join-lacks_marker x xs h)
