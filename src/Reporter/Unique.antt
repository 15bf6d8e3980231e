-- ===== src/Reporter/Unique.antt =====
-- One open report for each namespace and fingerprint: the invariant of the collection of reports,
-- and its preservation by a rewriting of one object and by an appended object.
pub mod Writes
pub mod Lookup
pub mod Ensure
use Prim.Native.String.{String}
use mathlib.Core.List.{Memᴰ}
use mathlib.Core.List.Memᴰ
use mathlib.Core.Bool.{false≢true}
use rca_operator.Base.{
  ◌≡◌, ◌≢◌, refl, sym, ap, subst, ◌∙◌, Bool, true, false, ◌&&◌, List, [], ◌∷◌, ◌++◌, map,
  Bool-cases, inl, inr, ◌==◌, arith, eq_iff, All, if◌then◌else◌, ne→eq, not, eq_refl,
}
use rca_operator.Incident.Report.{IncidentReport}
use rca_operator.Reporter.Api.{same_object, with_meta, with_status}
use rca_operator.Reporter.Find.{is_resolved}
use rca_operator.Reporter.Fingerprint.{strip_legacy_type, report_fingerprint}

-- A report as the current version of the operator writes it: it has a fingerprint, without the
-- suffix of older versions, and the label with its hash.
pub record IsCurrent (hash : String → String) (r : IncidentReport) : Type 0 where
  pub has_fingerprint : r.spec.fingerprint ≢ ""
  pub has_no_suffix : strip_legacy_type r.spec.fingerprint ≡ r.spec.fingerprint
  pub has_hash : r.labels.fingerprint_hash ≡ hash r.spec.fingerprint

pub report_fingerprint-IsCurrent :
    (hash : String → String) (r : IncidentReport)
    → IsCurrent hash r
    → report_fingerprint r ≡ r.spec.fingerprint
unfolding report_fingerprint
report_fingerprint-IsCurrent hash r h =
    rw (ne→eq r.spec.fingerprint "" h.has_fingerprint) (ground (arith, h.has_no_suffix))

pub same_object_refl : (x : IncidentReport) → same_object x x ≡ true
same_object_refl x = ground (arith, eq_refl x.namespace, eq_refl x.name)

pub same_object_meet :
    (x y z : IncidentReport)
    → same_object x z ≡ true
    → same_object y z ≡ true
    → same_object x y ≡ true
same_object_meet x y z h k = ground (
  arith,
  eq_iff x.namespace z.namespace,
  eq_iff y.namespace z.namespace,
  eq_iff x.name z.name,
  eq_iff y.name z.name,
  eq_iff x.namespace y.namespace,
  eq_iff x.name y.name,
)

pub same_object-namespace :
    (x y : IncidentReport) → same_object x y ≡ true → x.namespace ≡ y.namespace
same_object-namespace x y h = ground (arith, eq_iff x.namespace y.namespace)

pub same_object_sym : (x y : IncidentReport) → same_object x y ≡ true → same_object y x ≡ true
same_object_sym x y h = same_object_meet y x y (same_object_refl y) h

-- An open report of a namespace with a fingerprint.
pub record IsOpenAs (namespace fp : String) (y : IncidentReport) : Type 0 where
  pub unresolved : is_resolved y ≡ false
  pub place : y.namespace ≡ namespace
  pub identity : y.spec.fingerprint ≡ fp

module _ (hash : String → String) where
  -- Two open reports of one namespace with one fingerprint are one object.
  pub record IsSound (l : List IncidentReport) : Type 0 where
    pub current : (x : IncidentReport) → Memᴰ x l → IsCurrent hash x
    pub unique :
        (x y : IncidentReport)
        → Memᴰ x l
        → Memᴰ y l
        → is_resolved x ≡ false
        → IsOpenAs x.namespace x.spec.fingerprint y
        → same_object x y ≡ true

  -- No open report but the object of `m` has the fingerprint in the namespace of `m`.
  abbrev pub Takes : String → IncidentReport → List IncidentReport → Type 0
  Takes fp m l =
      (y : IncidentReport) → Memᴰ y l → IsOpenAs m.namespace fp y → same_object y m ≡ true

  abbrev pub Settled : String → IncidentReport → List IncidentReport → Type 0
  Settled fp m l =
      (x : IncidentReport) → Memᴰ x l → same_object x m ≡ true → x.spec.fingerprint ≡ fp

  -- A function that changes only the object of `m`, which then has the fingerprint.
  pub record IsRewriting (fp : String) (m : IncidentReport) (f : IncidentReport → IncidentReport)
      (l : List IncidentReport) : Type 0 where
    pub keeps : (x : IncidentReport) → ((f x).namespace ≡ x.namespace) × ((f x).name ≡ x.name)
    pub others : (x : IncidentReport) → same_object x m ≡ false → f x ≡ x
    pub target :
        (x : IncidentReport)
        → Memᴰ x l
        → same_object x m ≡ true
        → ((f x).spec.fingerprint ≡ fp) × IsCurrent hash (f x)

  module _ (fp : String) (m : IncidentReport) (f : IncidentReport → IncidentReport)
      (l : List IncidentReport) (rewriting : IsRewriting fp m f l) (sound : IsSound l)
      (takes : Takes fp m l) where
    same-kept : (x : IncidentReport) → same_object x m ≡ true → same_object (f x) m ≡ true
    same-kept x h = let (p, q) = rewriting.keeps x in rw (p, q) h

    Takes-image :
        (y : IncidentReport) → Memᴰ y l → IsOpenAs m.namespace fp (f y) → same_object (f y) m ≡ true
    Takes-image y mem h = elim (Bool-cases (same_object y m)) [
      | inl same ↦ same-kept y same
      | inr other ↦
          let e = rewriting.others y other in
          subst (λ z. same_object z m ≡ true) (sym e)
            (takes y mem (subst (IsOpenAs m.namespace fp) e h))
    ]

    IsCurrent-image : (x : IncidentReport) → Memᴰ x l → IsCurrent hash (f x)
    IsCurrent-image x mem = elim (Bool-cases (same_object x m)) [
      | inl same ↦ (rewriting.target x mem same).1
      | inr other ↦ subst (IsCurrent hash) (sym (rewriting.others x other)) (sound.current x mem)
    ]

    -- the object of `m` against another open report
    unique-target :
        (x y : IncidentReport)
        → Memᴰ x l
        → Memᴰ y l
        → same_object x m ≡ true
        → IsOpenAs (f x).namespace (f x).spec.fingerprint (f y)
        → same_object (f x) (f y) ≡ true
    unique-target x y mx my same h =
        let kept = same-kept x same in
        same_object_meet (f x) (f y) m kept (
          Takes-image y my (record {
            unresolved = h.unresolved;
            place = h.place ∙ same_object-namespace (f x) m kept;
            identity = h.identity ∙ (rewriting.target x mx same).0;
          }))

    unique-image :
        (x y : IncidentReport)
        → Memᴰ x l
        → Memᴰ y l
        → is_resolved (f x) ≡ false
        → IsOpenAs (f x).namespace (f x).spec.fingerprint (f y)
        → same_object (f x) (f y) ≡ true
    unique-image x y mx my open_x h = elim (Bool-cases (same_object x m)) [
      | inl same ↦ unique-target x y mx my same h
      | inr other ↦ elim (Bool-cases (same_object y m)) [
        | inl same ↦ same_object_sym (f y) (f x) (
            unique-target y x my mx same
              (record { unresolved = open_x; place = sym h.place; identity = sym h.identity }))
        | inr other' ↦
            unchanged (f x) (f y) (rewriting.others x other) (rewriting.others y other') open_x h
      ]
    ]
      where
        unchanged :
            (u v : IncidentReport)
            → u ≡ x
            → v ≡ y
            → is_resolved u ≡ false
            → IsOpenAs u.namespace u.spec.fingerprint v
            → same_object u v ≡ true
        unchanged u v e k o i = sound.unique u v (Memᴰ.cast e mx) (Memᴰ.cast k my) o i

    pub IsSound-map : IsSound (map f l)
    IsSound-map = record {
      current = λ x' mem.
          let (x, mx, e) = Memᴰ.of_map f l mem in subst (IsCurrent hash) e (IsCurrent-image x mx);
      unique = λ x' y' mem mem'.
          let (x, mx, e) = Memᴰ.of_map f l mem in
          let (y, my, k) = Memᴰ.of_map f l mem' in
          subst
            (λ u.
              is_resolved u ≡ false
              → IsOpenAs u.namespace u.spec.fingerprint y'
              → same_object u y' ≡ true)
            e
            (subst
              (λ v.
                is_resolved (f x) ≡ false
                → IsOpenAs (f x).namespace (f x).spec.fingerprint v
                → same_object (f x) v ≡ true)
              k (unique-image x y mx my));
    }

    pub Takes-map : Takes fp m (map f l)
    Takes-map y' mem h =
        let (y, my, e) = Memᴰ.of_map f l mem in
        subst (λ v. same_object v m ≡ true) e
          (Takes-image y my (subst (IsOpenAs m.namespace fp) (sym e) h))

    pub Settled-map : Settled fp m (map f l)
    Settled-map x' mem h =
        let (x, mx, e) = Memᴰ.of_map f l mem in
        let (p, q) = rewriting.keeps x in
        let image : same_object (f x) m ≡ true = subst (λ v. same_object v m ≡ true) (sym e) h in
        let same : same_object x m ≡ true = rw (sym p, sym q) image in
        ap (λ v. v.spec.fingerprint) (sym e) ∙ (rewriting.target x mx same).0
