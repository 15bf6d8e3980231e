-- ===== src/Incident/Resources.antt =====
-- mergeAffectedResources, which internal/reporter, internal/correlator and internal/signals each
-- have, and appendIfMissing of internal/incident/resolver.go.
use mathlib.Core.List.{append-nil, append_assoc}
use rca_operator.Base.{
  ◌≡◌, refl, ap, sym, ◌∙◌, Bool, true, false, not, ◌&&◌, ◌||◌, List, [], ◌∷◌, ◌++◌, any_by,
  if◌then◌else◌, ◌==◌, eq_iff, eq_refl, arith, Bool-cases, inl, inr,
}
use rca_operator.Incident.Report.{AffectedResource}

-- Two entries name one object: the API version and the UID are not compared.
abbrev pub same_resource : AffectedResource → AffectedResource → Bool
same_resource a b = (a.kind == b.kind) && ((a.namespace == b.namespace) && (a.name == b.name))

-- the inner loop: is the candidate among `out`?
unfoldable pub has_resource : AffectedResource → List AffectedResource → Bool
has_resource candidate out = any_by (λ current. same_resource current candidate) out

unfoldable pub append_if_missing : List AffectedResource → AffectedResource → List AffectedResource
append_if_missing out candidate = if has_resource candidate out then out else out ++ candidate ∷ []

unfoldable pub merge_affected_resources :
    List AffectedResource → List AffectedResource → List AffectedResource
merge_affected_resources out [] = out
merge_affected_resources out (c ∷ incoming) =
    merge_affected_resources (append_if_missing out c) incoming

-- No object is named twice.
abbrev pub IsDistinct : List AffectedResource → Type 0
IsDistinct [] = Unit
IsDistinct (r ∷ rs) = (has_resource r rs ≡ false) × IsDistinct rs

same_resource_refl : (a : AffectedResource) → same_resource a a ≡ true
same_resource_refl a = ground (arith, eq_refl a.kind, eq_refl a.namespace, eq_refl a.name)

same_resource_sym : (a b : AffectedResource) → same_resource a b ≡ same_resource b a
same_resource_sym a b = ground (
  arith,
  eq_iff a.kind b.kind,
  eq_iff b.kind a.kind,
  eq_iff a.namespace b.namespace,
  eq_iff b.namespace a.namespace,
  eq_iff a.name b.name,
  eq_iff b.name a.name,
)

has_resource-snoc :
    (r c : AffectedResource) (out : List AffectedResource)
    → has_resource r (out ++ c ∷ []) ≡ (has_resource r out || same_resource c r)
unfolding has_resource
has_resource-snoc r c [] = ground arith
has_resource-snoc r c (x ∷ out) = ground (arith, has_resource-snoc r c out)

-- After the step the candidate is there, and what was there still is.
pub has_resource-append_if_missing :
    (r c : AffectedResource) (out : List AffectedResource)
    → has_resource r (append_if_missing out c)
      ≡ (has_resource r out || (not (has_resource c out) && same_resource c r))
unfolding append_if_missing
has_resource-append_if_missing r c out = ground (arith, has_resource-snoc r c out)

snoc-IsDistinct :
    (c : AffectedResource) (out : List AffectedResource)
    → has_resource c out ≡ false
    → IsDistinct out
    → IsDistinct (out ++ c ∷ [])
unfolding has_resource
snoc-IsDistinct c [] h d = (refl, tt)
snoc-IsDistinct c (x ∷ out) h d = (
  ground (arith, has_resource-snoc x c out, same_resource_sym c x),
  snoc-IsDistinct c out (ground arith) d.1,
)

append_if_missing-IsDistinct :
    (c : AffectedResource) (out : List AffectedResource)
    → IsDistinct out
    → IsDistinct (append_if_missing out c)
unfolding append_if_missing
append_if_missing-IsDistinct c out d = elim (Bool-cases (has_resource c out)) [
  | inl there ↦ rw there d
  | inr missing ↦ rw missing (snoc-IsDistinct c out missing d)
]

-- Merging names no object twice, if the list to which it adds does not.
pub merge_affected_resources-IsDistinct :
    (out incoming : List AffectedResource)
    → IsDistinct out
    → IsDistinct (merge_affected_resources out incoming)
unfolding merge_affected_resources
merge_affected_resources-IsDistinct out [] d = d
merge_affected_resources-IsDistinct out (c ∷ incoming) d =
    merge_affected_resources-IsDistinct (append_if_missing out c) incoming
      (append_if_missing-IsDistinct c out d)

has_resource_same :
    (r c : AffectedResource) (out : List AffectedResource)
    → same_resource c r ≡ true
    → has_resource r out ≡ has_resource c out
unfolding has_resource
has_resource_same r c [] h = refl
has_resource_same r c (x ∷ out) h = ground (
  arith,
  has_resource_same r c out h,
  eq_iff c.kind r.kind,
  eq_iff c.namespace r.namespace,
  eq_iff c.name r.name,
  eq_iff x.kind r.kind,
  eq_iff x.kind c.kind,
  eq_iff x.namespace r.namespace,
  eq_iff x.namespace c.namespace,
  eq_iff x.name r.name,
  eq_iff x.name c.name,
)

has_resource-cons :
    (r c : AffectedResource) (out : List AffectedResource)
    → has_resource r (c ∷ out) ≡ (same_resource c r || has_resource r out)
unfolding has_resource
has_resource-cons r c out = refl

has_resource-nil : (r : AffectedResource) → has_resource r [] ≡ false
unfolding has_resource
has_resource-nil r = refl

-- An object is named by the merged list exactly when one of the two lists names it.
pub has_resource-merge :
    (r : AffectedResource) (out incoming : List AffectedResource)
    → has_resource r (merge_affected_resources out incoming)
      ≡ (has_resource r out || has_resource r incoming)
unfolding merge_affected_resources
has_resource-merge r out [] = ground (arith, has_resource-nil r)
has_resource-merge r out (c ∷ incoming) = ground (
  arith,
  has_resource-merge r (append_if_missing out c) incoming,
  has_resource-append_if_missing r c out,
  has_resource_same r c out,
  has_resource-cons r c incoming,
)

append_if_missing_extends :
    (c : AffectedResource) (out : List AffectedResource)
    → (added : List AffectedResource) × (append_if_missing out c ≡ out ++ added)
unfolding append_if_missing
append_if_missing_extends c out = elim (Bool-cases (has_resource c out)) [
  | inl there ↦ ([], rw there (sym (append-nil out)))
  | inr missing ↦ (c ∷ [], rw missing)
]

-- The entries that were there come first, unchanged.
pub merge_affected_resources_extends :
    (out incoming : List AffectedResource)
    → (added : List AffectedResource) × (merge_affected_resources out incoming ≡ out ++ added)
unfolding merge_affected_resources
merge_affected_resources_extends out [] = ([], sym (append-nil out))
merge_affected_resources_extends out (c ∷ incoming) =
    let (here, e) = append_if_missing_extends c out in
    let (later, f) = merge_affected_resources_extends (append_if_missing out c) incoming in
    (here ++ later, f ∙ ap (λ xs. xs ++ later) e ∙ append_assoc out here later)
