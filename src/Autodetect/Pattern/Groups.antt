-- ===== src/Autodetect/Pattern/Groups.antt =====
-- The groups that MinePatterns of internal/autodetect/pattern.go builds, and the pairs that emitPairs
-- makes of one group.
use mathlib.Core.Bool.{false≢true}
use rca_operator.Base.{
  String, Bool, ◌≡◌, refl, sym, ap, subst, ◌∙◌, inl, inr, true, false, ◌||◌, List, [], ◌∷◌, All,
  All-append, any_by, ltb, length, arith, Bool-cases, if◌then◌else◌, ◌==◌, eq_iff,
}
use rca_operator.Base.Maps.{Map, lookup, put}
use rca_operator.Base.Sort.{insert, sort, sort-All, insert-All}
use rca_operator.Base.Texts.{str_lt, str_lt_asym, str_lt_weak, str_lt_total}
use rca_operator.Autodetect.Pattern.{
  BaseEntry, EventPair, Mined, group_or_empty, group_entries, add_type, type_set, emit_pair,
  pair_key, emit_row, emit_types, emit_pairs,
}

str_lt_trans : (r s t : String) → str_lt r s ≡ true → str_lt s t ≡ true → str_lt r t ≡ true
str_lt_trans r s t h k = elim (Bool-cases (str_lt r t)) [
  | inl e ↦ e
  | inr e ↦ absurd (false≢true (sym (str_lt_weak s t r (str_lt_asym s t k) e) ∙ h))
]

abbrev IsStrict : List String → Type 0
IsStrict [] = Unit
IsStrict (x ∷ xs) = All (λ y. str_lt x y ≡ true) xs × IsStrict xs

All-above :
    (x y : String) (zs : List String)
    → str_lt x y ≡ true
    → All (λ z. str_lt y z ≡ true) zs
    → All (λ z. str_lt x z ≡ true) zs
All-above x y [] h k = tt
All-above x y (z ∷ zs) h k = (str_lt_trans x y z h k.0, All-above x y zs h k.1)

insert-IsStrict :
    (x : String) (xs : List String)
    → any_by (λ u. u == x) xs ≡ false
    → IsStrict xs
    → IsStrict (insert str_lt x xs)
unfolding insert
insert-IsStrict x [] h k = (tt, tt)
insert-IsStrict x (y ∷ ys) h k = elim (Bool-cases (str_lt y x)) [
  | inl e ↦ rw e (
    insert-All str_lt (λ z. str_lt y z ≡ true) x ys e k.0,
    insert-IsStrict x ys (ground (arith, h)) k.1,
  )
  | inr e ↦
      let above : str_lt x y ≡ true = elim (Bool-cases (str_lt x y)) [
        | inl f ↦ f
        | inr f ↦
            let differ : (y == x) ≡ false = ground (arith, h) in
            absurd (false≢true (sym differ ∙ (eq_iff y x).1 (str_lt_total y x e f)))
      ] in
      rw e ((above, All-above x y ys above k.0), k)
]

any_by-insert :
    (p : String → Bool) (x : String) (xs : List String)
    → any_by p (insert str_lt x xs) ≡ (p x || any_by p xs)
unfolding insert
any_by-insert p x [] = refl
any_by-insert p x (y ∷ ys) = ground (arith, any_by-insert p x ys)

any_by-sort : (p : String → Bool) (xs : List String) → any_by p (sort str_lt xs) ≡ any_by p xs
unfolding sort
any_by-sort p [] = refl
any_by-sort p (x ∷ xs) = any_by-insert p x (sort str_lt xs) ∙ ap (λ b. p x || b) (any_by-sort p xs)

abbrev IsDistinct : List String → Type 0
IsDistinct [] = Unit
IsDistinct (x ∷ xs) = (any_by (λ u. u == x) xs ≡ false) × IsDistinct xs

sort-IsStrict : (xs : List String) → IsDistinct xs → IsStrict (sort str_lt xs)
unfolding sort
sort-IsStrict [] h = tt
sort-IsStrict (x ∷ xs) h =
    insert-IsStrict x (sort str_lt xs) (any_by-sort (λ u. u == x) xs ∙ h.0) (sort-IsStrict xs h.1)

type_set-IsDistinct : (es : List BaseEntry) → IsDistinct (type_set es)
unfolding type_set
type_set-IsDistinct [] = tt
type_set-IsDistinct (e ∷ es) = elim (Bool-cases (any_by (λ u. u == e.event_type) (type_set es))) [
  | inl h ↦ rw h (type_set-IsDistinct es)
  | inr h ↦ rw h (h, type_set-IsDistinct es)
]

module _ (P : String → BaseEntry → Type 0) where
  abbrev pub Groups : Map (List BaseEntry) → Type 0
  Groups groups = All (λ entry. All (P entry.0) entry.1) groups

  lookup-Groups :
      (k : String) (groups : Map (List BaseEntry))
      → Groups groups
      → All (P k) (group_or_empty (lookup k groups))
  unfolding lookup
  lookup-Groups k [] h = tt
  lookup-Groups k ((j, g) ∷ groups) h = elim (Bool-cases (j == k)) [
    | inl e ↦ rw e (subst (λ i. All (P i) g) ((eq_iff j k).0 e) h.0)
    | inr e ↦ rw e (lookup-Groups k groups h.1)
  ]

  put-Groups :
      (k : String) (g : List BaseEntry) (groups : Map (List BaseEntry))
      → All (P k) g
      → Groups groups
      → Groups (put k g groups)
  unfolding put
  put-Groups k g [] h i = (h, tt)
  put-Groups k g ((j, f) ∷ groups) h i = elim (Bool-cases (j == k)) [
    | inl e ↦ rw e (h, i.1)
    | inr e ↦ rw e (i.0, put-Groups k g groups h i.1)
  ]

  pub group_entries-Groups :
      (takes : BaseEntry → Bool) (key : BaseEntry → String) (es : List BaseEntry)
      (groups : Map (List BaseEntry))
      → All (λ e. takes e ≡ true → P (key e) e) es
      → Groups groups
      → Groups (group_entries takes key es groups)
  unfolding group_entries
  group_entries-Groups takes key [] groups h i = i
  group_entries-Groups takes key (e ∷ es) groups h i = elim (Bool-cases (takes e)) [
    | inl t ↦ rw t (
        group_entries-Groups takes key es _ h.1 (
          put-Groups (key e) _ groups
            (All-append (P (key e)) _ (e ∷ []) (lookup-Groups (key e) groups i) (h.0 t, tt)) i))
    | inr t ↦ rw t (group_entries-Groups takes key es groups h.1 i)
  ]

  -- the type of an entry of the group of a key
  abbrev pub IsType : String → String → Type 0
  IsType k t = (e : BaseEntry) × P k e × (e.event_type ≡ t)

  add_type-All :
      (k t : String) (ts : List String)
      → IsType k t
      → All (IsType k) ts
      → All (IsType k) (add_type t ts)
  add_type-All k t ts h i = elim (Bool-cases (any_by (λ u. u == t) ts)) [
    | inl e ↦ rw e i
    | inr e ↦ rw e (h, i)
  ]

  type_set-All :
      (k : String) (group : List BaseEntry) → All (P k) group → All (IsType k) (type_set group)
  unfolding type_set
  type_set-All k [] h = tt
  type_set-All k (e ∷ es) h = add_type-All k e.event_type _ (e, h.0, refl) (type_set-All k es h.1)

  module _ (scope : String) (Q : EventPair → Type 0) where
    abbrev Emits : Type 0
    Emits =
        (k s t : String)
        → IsType k s
        → IsType k t
        → str_lt s t ≡ true
        → Q (record { trigger_type = s; condition_type = t; scope = scope })

    emit_pair-All :
        (s t : String) (m : Mined)
        → Q (record { trigger_type = s; condition_type = t; scope = scope })
        → All Q m.pairs
        → All Q (emit_pair scope s t m).pairs
    unfolding emit_pair
    emit_pair-All s t m h i =
        elim (Bool-cases (
          any_by
            (λ k. k == pair_key (record { trigger_type = s; condition_type = t; scope = scope }))
            m.seen)) [ inl e ↦ rw e i | inr e ↦ rw e (All-append Q m.pairs (_ ∷ []) i (h, tt)) ]

    emit_row-All :
        (k s : String) (ts : List String) (m : Mined)
        → Emits
        → IsType k s
        → All (IsType k) ts
        → All (λ t. str_lt s t ≡ true) ts
        → All Q m.pairs
        → All Q (emit_row scope s ts m).pairs
    unfolding emit_row
    emit_row-All k s [] m q h i j a = a
    emit_row-All k s (t ∷ ts) m q h i j a =
        emit_row-All k s ts (emit_pair scope s t m) q h i.1 j.1
          (emit_pair-All s t m (q k s t h i.0 j.0) a)

    emit_types-All :
        (k : String) (ts : List String) (m : Mined)
        → Emits
        → All (IsType k) ts
        → IsStrict ts
        → All Q m.pairs
        → All Q (emit_types scope ts m).pairs
    unfolding emit_types
    emit_types-All k [] m q h i a = a
    emit_types-All k (t ∷ ts) m q h i a =
        emit_types-All k ts (emit_row scope t ts m) q h.1 i.1
          (emit_row-All k t ts m q h.0 h.1 i.0 a)

    All-choice :
        (b : Bool) (m n : Mined) → All Q m.pairs → All Q n.pairs → All Q (if b then m else n).pairs
    All-choice true m n h i = h
    All-choice false m n h i = i

    pub emit_pairs-All :
        (groups : Map (List BaseEntry)) (m : Mined)
        → Emits
        → Groups groups
        → All Q m.pairs
        → All Q (emit_pairs scope groups m).pairs
    unfolding emit_pairs
    emit_pairs-All [] m q h a = a
    emit_pairs-All ((k, group) ∷ groups) m q h a = emit_pairs-All groups _ q h.1 (
        All-choice (ltb (length (type_set group)) 2) m _ a (
          emit_types-All k (sort str_lt (type_set group)) m q
            (sort-All str_lt (IsType k) (type_set group) (type_set-All k group h.0))
            (sort-IsStrict (type_set group) (type_set-IsDistinct group)) a))
