-- ===== src/Signals/Guess/Names.antt =====
-- The name that a Deployment gives to its pods is read back.
use Prim.Native.String.{String, [], ◌∷◌, ◌++◌}
use mathlib.Core.List
use mathlib.Core.List.{reverse, reverse-append, reverse-reverse}
use rca_operator.Base.{◌≡◌, refl, ap, ◌∙◌, true, List, arith}
use rca_operator.Base.Join.{join, lacks}
use rca_operator.Base.Split.{split, split-append, split-lacks, split_first, join-split}
use rca_operator.Base.Texts.{trim_space}
use rca_operator.Reporter.Text.{size}
use rca_operator.Signals.Guess.{
  hash_chars, looks_like_replica_set_hash, guess_from, guess_deployment_name_from_pod,
}

hash_chars-lacks : (s : String) → hash_chars s ≡ true → lacks "-" s ≡ true
hash_chars-lacks [] h = refl
hash_chars-lacks (c ∷ s) h = ground (arith, h, hash_chars-lacks s)

hash-lacks : (s : String) → looks_like_replica_set_hash s ≡ true → lacks "-" s ≡ true
unfolding looks_like_replica_set_hash
hash-lacks s h = hash_chars-lacks s (ground (arith, h))

-- <deployment>-<hash>-<suffix>, as the ReplicaSet of a Deployment names its pods
abbrev pub pod_name_of : String → String → String → String
pod_name_of deployment hash suffix = deployment ++ ("-" ∷ (hash ++ ("-" ∷ suffix)))

split-pod_name :
    (d h x : String)
    → lacks "-" h ≡ true
    → lacks "-" x ≡ true
    → split "-" (pod_name_of d h x) ≡ List.◌++◌ (split "-" d) (List.◌∷◌ h (List.◌∷◌ x List.[]))
split-pod_name d h x lh lx =
    split-append "-" d (h ++ ("-" ∷ x))
    ∙ ap (λ z. List.◌++◌ (split "-" d) z)
        (split-append "-" h x ∙ rw (split-lacks "-" h lh, split-lacks "-" x lx) refl)

-- a list is not empty, read backwards
reverse_first :
    (y : String) (ys : List String)
    → (z : String) × (zs : List String) × (reverse (List.◌∷◌ y ys) ≡ List.◌∷◌ z zs)
reverse_first y ys =
    let (z, zs, e) = snoc_first (reverse ys) in (z, zs, reverse-append (List.◌∷◌ y List.[]) ys ∙ e)
  where
    snoc_first :
        (l : List String)
        → (z : String) × (zs : List String) × (List.◌++◌ l (List.◌∷◌ y List.[]) ≡ List.◌∷◌ z zs)
    snoc_first List.[] = (y, List.[], refl)
    snoc_first (List.◌∷◌ z zs) = (z, List.◌++◌ zs (List.◌∷◌ y List.[]), refl)

guess_from-hash :
    (last token z : String) (front zs : List String)
    → front ≡ List.◌∷◌ z zs
    → size last ≡ 5
    → looks_like_replica_set_hash token ≡ true
    → guess_from (List.◌∷◌ last (List.◌∷◌ token front)) ≡ join "-" (reverse front)
unfolding guess_from
guess_from-hash last token z front zs e five h = rw (five, e, h) refl

-- The name of a Deployment is recovered from the name of its pod, if the hash has 8 to 10 lower case
-- letters and digits, the suffix has 5 characters other than `-`, and no white space stands at an end.
pub guess_deployment_name_from_pod-pod_name :
    (deployment hash suffix : String)
    → looks_like_replica_set_hash hash ≡ true
    → size suffix ≡ 5
    → lacks "-" suffix ≡ true
    → trim_space (pod_name_of deployment hash suffix) ≡ pod_name_of deployment hash suffix
    → guess_deployment_name_from_pod (pod_name_of deployment hash suffix) ≡ deployment
unfolding guess_deployment_name_from_pod
guess_deployment_name_from_pod-pod_name deployment hash suffix h five l trimmed =
    let parts = split "-" deployment in
    let (y, ys, first) = split_first "-" deployment in
    let (z, zs, backwards) = reverse_first y ys in
    ap (λ t. guess_from (reverse (split "-" t))) trimmed
    ∙ ap (λ t. guess_from (reverse t)) (split-pod_name deployment hash suffix (hash-lacks hash h) l)
    ∙ ap guess_from (reverse-append parts (List.◌∷◌ hash (List.◌∷◌ suffix List.[])))
    ∙ guess_from-hash suffix hash z (reverse parts) zs (ap reverse first ∙ backwards) five h
    ∙ ap (join "-") (reverse-reverse parts)
    ∙ join-split "-" deployment
