-- ===== src/Reporter/Evolution/Patches.antt =====
-- A patch of one stored report is an evolution, and an evolution keeps the invariant of
-- Reporter/Unique.antt.
use Prim.Native.String.{String}
use mathlib.Core.List.{Memᴰ}
use mathlib.Core.List.Memᴰ.{of_map}
use mathlib.Core.Bool.{false≢true}
use rca_operator.Base.{
  ◌≡◌, refl, sym, ap, subst, ◌∙◌, true, false, List, map, Bool-cases, inl, inr, eq→path, path→eq,
}
use rca_operator.Incident.Report.{IncidentReport}
use rca_operator.Incident.Status.{phase_resolved}
use rca_operator.Reporter.Api.{same_object, with_meta, with_status}
use rca_operator.Reporter.Find.{is_resolved}
use rca_operator.Reporter.Evolution.{
  Moves, stays, resolves, Moves-resolved, IsStep, Evolves, Evolves-map, Evolves-origin, IsDistinct,
  IsDistinct-one, step_same,
}
use rca_operator.Reporter.Unique.{IsCurrent, IsSound, same_object_meet}

unchanged : (x : IncidentReport) → IsStep x x
unchanged x = record { place = refl; title = refl; spec = refl; labels = refl; moves = stays refl }

module _ (l : List IncidentReport) (report m : IncidentReport) (distinct : IsDistinct l)
    (member : Memᴰ report l) (own : same_object report m ≡ true) where
  stored_once : (x : IncidentReport) → Memᴰ x l → same_object x m ≡ true → x ≡ report
  stored_once x k h =
      IsDistinct-one l x report distinct k member (same_object_meet x report m h own)

  -- a metadata patch that keeps the spec and the labels
  pub patch-Evolves :
      m.spec ≡ report.spec → m.labels ≡ report.labels → Evolves l (map (with_meta m) l)
  patch-Evolves spec labels = Evolves-map (with_meta m) l step
    where
      step : (x : IncidentReport) → Memᴰ x l → IsStep x (with_meta m x)
      step x k = elim (Bool-cases (same_object x m)) [
        | inl same ↦
            let e = stored_once x k same in
            rw same (record {
              place = refl;
              title = refl;
              spec = spec ∙ ap (λ z. z.spec) (sym e);
              labels = labels ∙ ap (λ z. z.labels) (sym e);
              moves = stays refl;
            })
        | inr other ↦ rw other (unchanged x)
      ]

  -- a status patch that moves the report forward
  pub patch_status-Evolves :
      Moves report.status.phase m.status.phase → Evolves l (map (with_status m) l)
  patch_status-Evolves moves = Evolves-map (with_status m) l step
    where
      step : (x : IncidentReport) → Memᴰ x l → IsStep x (with_status m x)
      step x k = elim (Bool-cases (same_object x m)) [
        | inl same ↦
            let e = stored_once x k same in
            rw same (record {
              place = refl;
              title = refl;
              spec = refl;
              labels = refl;
              moves = subst (λ z. Moves z.status.phase m.status.phase) (sym e) moves;
            })
        | inr other ↦ rw other (unchanged x)
      ]

  -- the report that is read after a status patch is the patched one
  pub patched_report :
      (r : IncidentReport)
      → Memᴰ r (map (with_status m) l)
      → same_object r m ≡ true
      → r.status ≡ m.status
  patched_report r k h =
      let (x, kx, e) = of_map (with_status m) l k in
      elim (Bool-cases (same_object x m)) [
        | inl same ↦ ap (λ z. z.status) (sym e) ∙ rw same refl
        | inr other ↦
            let f : x ≡ r = sym (rw other refl) ∙ e in
            absurd (false≢true (sym other ∙ ap (λ z. same_object z m) f ∙ h))
      ]

-- A status patch that resolves is an evolution, whatever was stored.
pub resolving-Evolves :
    (l : List IncidentReport) (m : IncidentReport)
    → m.status.phase ≡ phase_resolved
    → Evolves l (map (with_status m) l)
resolving-Evolves l m h = Evolves-map (with_status m) l step
  where
    step : (x : IncidentReport) → Memᴰ x l → IsStep x (with_status m x)
    step x k = elim (Bool-cases (same_object x m)) [
      | inl same ↦
          rw same
            (record { place = refl; title = refl; spec = refl; labels = refl; moves = resolves h })
      | inr other ↦ rw other (unchanged x)
    ]

step-IsCurrent :
    (hash : String → String) (x x' : IncidentReport)
    → IsStep x x'
    → IsCurrent hash x
    → IsCurrent hash x'
step-IsCurrent hash x x' s c =
    let e = ap (λ z. z.fingerprint) s.spec in
    record {
      has_fingerprint = λ k. c.has_fingerprint (sym e ∙ k);
      has_no_suffix = rw s.spec c.has_no_suffix;
      has_hash = rw (s.spec, s.labels) c.has_hash;
    }

step_open : (x x' : IncidentReport) → IsStep x x' → is_resolved x' ≡ false → is_resolved x ≡ false
step_open x x' s h = elim (Bool-cases (is_resolved x)) [
  | inl closed ↦
      let e = Moves-resolved _ _ s.moves (eq→path x.status.phase phase_resolved closed) in
      absurd (false≢true (sym h ∙ path→eq x'.status.phase phase_resolved e))
  | inr opened ↦ opened
]

-- An evolution keeps one open report for each namespace and fingerprint.
pub evolution-IsSound :
    (hash : String → String) (l l' : List IncidentReport)
    → Evolves l l'
    → IsSound hash l
    → IsSound hash l'
evolution-IsSound hash l l' h sound = record {
  current = λ x' k.
      let (x, kx, s) = Evolves-origin l l' x' h k in
      step-IsCurrent hash x x' s (sound.current x kx);
  unique = λ x' y' k k' open_x i.
      let (x, kx, s) = Evolves-origin l l' x' h k in
      let (y, ky, t) = Evolves-origin l l' y' h k' in
      step_same x x' y y' s t
      ∙ sound.unique x y kx ky (step_open x x' s open_x) (record {
        unresolved = step_open y y' t i.unresolved;
        place = sym t.place ∙ i.place ∙ s.place;
        identity =
            ap (λ z. z.fingerprint) (sym t.spec) ∙ i.identity ∙ ap (λ z. z.fingerprint) s.spec;
      });
}
