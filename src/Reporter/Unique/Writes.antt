-- ===== src/Reporter/Unique/Writes.antt =====
-- The calls of the API server keep the invariant of Reporter/Unique.antt: a metadata patch, a
-- status patch and a creation.
use mathlib.Core.List.{Memᴰ}
use mathlib.Core.List.Memᴰ.{append_cases, eq_of_singleton}
use mathlib.Core.Bool.{false≢true}
use rca_operator.Base.{
  String, ◌≡◌, sym, ap, subst, ◌∙◌, true, false, List, [], ◌∷◌, ◌++◌, map, Bool-cases, inl, inr,
  All, arith,
}
use rca_operator.Base.Members.{All-Memᴰ}
use rca_operator.Incident.Report.{IncidentReport}
use rca_operator.Reporter.Api.{same_object, with_meta, with_status}
use rca_operator.Reporter.Find.{is_resolved}
use rca_operator.Reporter.Unique.{
  IsCurrent, IsSound, IsOpenAs, IsRewriting, Takes, Settled, IsSound-map, Takes-map, Settled-map,
  same_object_refl,
}

-- the facts with which the status patch that follows is safe
pub record IsReady (hash : String → String) (fp : String) (m : IncidentReport)
    (l : List IncidentReport) : Type 0 where
  pub sound : IsSound hash l
  pub takes : Takes hash fp m l
  pub settled : Settled hash fp m l

module _ (hash : String → String) (fp : String) (m : IncidentReport) where
  with_meta-keeps :
      (x : IncidentReport)
      → ((with_meta m x).namespace ≡ x.namespace) × ((with_meta m x).name ≡ x.name)
  with_meta-keeps x = (ground arith, ground arith)

  with_status-keeps :
      (x : IncidentReport)
      → ((with_status m x).namespace ≡ x.namespace) × ((with_status m x).name ≡ x.name)
  with_status-keeps x = (ground arith, ground arith)

  meta-IsCurrent :
      (x : IncidentReport)
      → IsCurrent hash m
      → same_object x m ≡ true
      → IsCurrent hash (with_meta m x)
  meta-IsCurrent x h same = rw same (record {
    has_fingerprint = h.has_fingerprint;
    has_no_suffix = h.has_no_suffix;
    has_hash = h.has_hash;
  })

  status-IsCurrent : (x : IncidentReport) → IsCurrent hash x → IsCurrent hash (with_status m x)
  status-IsCurrent x h = elim (Bool-cases (same_object x m)) [
    | inl same ↦ rw same (record {
      has_fingerprint = h.has_fingerprint;
      has_no_suffix = h.has_no_suffix;
      has_hash = h.has_hash;
    })
    | inr other ↦ rw other h
  ]

  pub IsReady-patch :
      (l : List IncidentReport)
      → m.spec.fingerprint ≡ fp
      → IsCurrent hash m
      → IsSound hash l
      → Takes hash fp m l
      → IsReady hash fp m (map (with_meta m) l)
  IsReady-patch l e current sound takes =
      let rewriting : IsRewriting hash fp m (with_meta m) l = record {
        keeps = with_meta-keeps;
        others = λ x other. ground (arith, other);
        target = λ x mem same. (rw same e, meta-IsCurrent x current same);
      } in
      record {
        sound = IsSound-map hash fp m (with_meta m) l rewriting sound takes;
        takes = Takes-map hash fp m (with_meta m) l rewriting sound takes;
        settled = Settled-map hash fp m (with_meta m) l rewriting sound takes;
      }

  pub IsSound-patch_status :
      (l : List IncidentReport) → IsReady hash fp m l → IsSound hash (map (with_status m) l)
  IsSound-patch_status l h = IsSound-map hash fp m (with_status m) l rewriting h.sound h.takes
    where
      rewriting : IsRewriting hash fp m (with_status m) l
      rewriting = record {
        keeps = with_status-keeps;
        others = λ x other. ground (arith, other);
        target = λ x mem same.
            (rw same (h.settled x mem same), status-IsCurrent x (h.sound.current x mem));
      }

  module _ (l : List IncidentReport) (sound : IsSound hash l)
      (free : (y : IncidentReport) → Memᴰ y l → ¬ IsOpenAs m.namespace fp y)
      (e : m.spec.fingerprint ≡ fp) (current : IsCurrent hash m)
      (fresh : All (λ x. same_object x m ≡ false) l) where
    no_older :
        (x y : IncidentReport) → Memᴰ x l → y ≡ m → ¬ IsOpenAs y.namespace y.spec.fingerprint x
    no_older x y a k h = free x a (record {
      unresolved = h.unresolved;
      place = h.place ∙ ap (λ z. z.namespace) k;
      identity = h.identity ∙ ap (λ z. z.spec.fingerprint) k ∙ e;
    })

    created_unique :
        (x y : IncidentReport)
        → Memᴰ x (l ++ m ∷ [])
        → Memᴰ y (l ++ m ∷ [])
        → is_resolved x ≡ false
        → IsOpenAs x.namespace x.spec.fingerprint y
        → same_object x y ≡ true
    created_unique x y mx my open_x h = elim (append_cases l mx) [
      | inl a ↦ elim (append_cases l my) [
        | inl b ↦ sound.unique x y a b open_x h
        | inr b ↦ absurd (
            no_older x y a (eq_of_singleton b)
              (record { unresolved = open_x; place = sym h.place; identity = sym h.identity }))
      ]
      | inr a ↦ elim (append_cases l my) [
        | inl b ↦ absurd (no_older y x b (eq_of_singleton a) h)
        | inr b ↦
            subst (λ z. same_object x z ≡ true) (eq_of_singleton a ∙ sym (eq_of_singleton b))
              (same_object_refl x)
      ]
    ]

    pub IsReady-create : IsReady hash fp m (l ++ m ∷ [])
    IsReady-create = record {
      sound = record {
        current = λ x mem. elim (append_cases l mem) [
          | inl a ↦ sound.current x a
          | inr a ↦ subst (IsCurrent hash) (sym (eq_of_singleton a)) current
        ];
        unique = created_unique;
      };
      takes = λ y mem h. elim (append_cases l mem) [
        | inl a ↦ absurd (free y a h)
        | inr a ↦ subst (λ z. same_object z m ≡ true) (sym (eq_of_singleton a)) (same_object_refl m)
      ];
      settled = λ x mem same. elim (append_cases l mem) [
        | inl a ↦
            absurd (false≢true (sym (All-Memᴰ (λ x. same_object x m ≡ false) l x fresh a) ∙ same))
        | inr a ↦ ap (λ z. z.spec.fingerprint) (eq_of_singleton a) ∙ e
      ];
    }
