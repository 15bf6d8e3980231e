-- ===== src/Reporter/Unique/Ensure.antt =====
-- EnsureSignal keeps the invariant of Reporter/Unique.antt, also where one of its calls fails.
use mathlib.Core.List.{Memᴰ}
use rca_operator.Base.{
  ℕ, String, ◌==◌, not, ◌≡◌, ◌≢◌, refl, sym, ap, subst, ◌∙◌, true, false, List, [], ◌∷◌, ◌++◌, map,
  Bool-cases, Option-cases, inl, inr, arith, eq→path, and-right, All,
}
use rca_operator.Incident.Report.{IncidentReport, IncidentReportStatus, empty_status}
use rca_operator.Incident.Input.{Input, fingerprint}
use rca_operator.Reporter.Api.{Api, ApiLaws, with_meta, same_object}
use rca_operator.Reporter.Ensure.{
  with_defaults, patch_status_then, patch_both, create_incident, update_active_incident,
  reopen_incident, ensure_by_workload, ensure_not_open, ensure_found, ensure_signal,
}
use rca_operator.Reporter.Find.{is_resolved, is_open_for, find_open_incident}
use rca_operator.Reporter.Fingerprint.{strip_legacy_type, report_fingerprint}
use rca_operator.Reporter.State.{Found, broken, absent, present, State, set_world}
use rca_operator.Reporter.Unique.{
  IsCurrent, IsSound, IsOpenAs, Takes, same_object_sym, report_fingerprint-IsCurrent,
}
use rca_operator.Reporter.Unique.Lookup.{
  find_open_incident-world, find_open_incident-present, find_open_incident-absent,
  find_resolvable_incident-present, find_existing-present,
}
use rca_operator.Reporter.Unique.Writes.{
  IsReady, IsReady-patch, IsReady-create, IsSound-patch_status,
}
use rca_operator.Reporter.Write.{Platform, initial_report, initial_status, update_meta, reopen_meta}

module _ (api : Api) (laws : ApiLaws api) (platform : Platform) where
  -- the invariant at the state's world
  abbrev pub IsSoundState : State api → Type 0
  IsSoundState s = IsSound platform.fingerprint_hash (laws.reports s.world)

  -- no open report of the namespace has the fingerprint
  abbrev pub IsFree : String → String → List IncidentReport → Type 0
  IsFree ns fp l = (y : IncidentReport) → Memᴰ y l → ¬ IsOpenAs ns fp y

  module _ (fp : String) where
    patch_status_then-IsSound :
        (m : IncidentReport) (k : State api → State api) (s : State api)
        → ((t : State api) → (k t).world ≡ t.world)
        → IsReady platform.fingerprint_hash fp m (laws.reports s.world)
        → IsSoundState (patch_status_then api platform m k s).0
    unfolding patch_status_then
    patch_status_then-IsSound m k s h ready = elim (Option-cases (api.patch_status m s.world)) [
      | inl refused ↦ rw (patch_status_then, refused) ready.sound
      | inr (w, sent) ↦
          let e : (k (set_world api w s)).world ≡ w = h (set_world api w s) in
          rw (patch_status_then, sent, e, laws.patch_status_law m s.world w sent)
            (IsSound-patch_status platform.fingerprint_hash fp m (laws.reports s.world) ready)
    ]

    patch_both-IsSound :
        (m : IncidentReport) (status : IncidentReportStatus) (k : State api → State api)
        (s : State api)
        → ((t : State api) → (k t).world ≡ t.world)
        → m.spec.fingerprint ≡ fp
        → IsCurrent platform.fingerprint_hash m
        → IsSoundState s
        → Takes platform.fingerprint_hash fp m (laws.reports s.world)
        → IsSoundState (patch_both api platform m (record m { status = status }) k s).0
    unfolding patch_both
    patch_both-IsSound m status k s h e current sound takes =
        elim (Option-cases (api.patch m s.world)) [
          | inl refused ↦ rw (patch_both, refused) sound
          | inr (w, sent) ↦
              rw (patch_both, sent)
                (patch_status_then-IsSound (record m { status = status }) k (set_world api w s) h
                  (ready w (laws.patch_law m s.world w sent)))
        ]
      where
        ready :
            (w : api.World)
            → laws.reports w ≡ map (with_meta m) (laws.reports s.world)
            → IsReady platform.fingerprint_hash fp (record m { status = status }) (laws.reports w)
        ready w written =
            let r =
              IsReady-patch platform.fingerprint_hash fp m (laws.reports s.world) e current sound
                takes in
            rw written (record { sound = r.sound; takes = r.takes; settled = r.settled })

    module _ (named : fp ≢ "") (bare : strip_legacy_type fp ≡ fp) (input : Input) where
      written-IsCurrent :
          (m : IncidentReport)
          → m.spec.fingerprint ≡ fp
          → m.labels.fingerprint_hash ≡ platform.fingerprint_hash fp
          → IsCurrent platform.fingerprint_hash m
      written-IsCurrent m e h = record {
        has_fingerprint = λ k. named (sym e ∙ k);
        has_no_suffix = ap strip_legacy_type e ∙ bare ∙ sym e;
        has_hash = h ∙ ap platform.fingerprint_hash (sym e);
      }

      update_active_incident-IsSound :
          (r : IncidentReport) (s : State api)
          → IsSoundState s
          → Takes platform.fingerprint_hash fp r (laws.reports s.world)
          → IsSoundState
              (update_active_incident api platform r input fp (platform.fingerprint_hash fp) s).0
      unfolding update_active_incident update_meta
      update_active_incident-IsSound r s sound takes =
          patch_both-IsSound (update_meta platform r input fp (platform.fingerprint_hash fp)) _ _ _
            (λ t. refl) refl
            (written-IsCurrent (update_meta platform r input fp (platform.fingerprint_hash fp)) refl
              refl)
            sound takes

      reopen_incident-IsSound :
          (r : IncidentReport) (s : State api)
          → IsSoundState s
          → Takes platform.fingerprint_hash fp r (laws.reports s.world)
          → IsSoundState
              (reopen_incident api platform r input fp (platform.fingerprint_hash fp) s).0
      unfolding reopen_incident reopen_meta
      reopen_incident-IsSound r s sound takes =
          patch_both-IsSound (reopen_meta platform r input fp (platform.fingerprint_hash fp)) _ _ _
            (λ t. ground arith) refl
            (written-IsCurrent (reopen_meta platform r input fp (platform.fingerprint_hash fp)) refl
              refl)
            sound takes

      create_incident-IsSound :
          (s : State api)
          → IsSoundState s
          → IsFree input.namespace fp (laws.reports s.world)
          → IsSoundState (create_incident api platform input fp (platform.fingerprint_hash fp) s).0
      unfolding create_incident initial_report
      create_incident-IsSound s sound free =
          let draft = initial_report platform input fp (platform.fingerprint_hash fp) in
          elim (Option-cases (api.create draft s.world)) [
            | inl refused ↦ rw (create_incident, refused) sound
            | inr ((r, w), sent) ↦
                rw (create_incident, sent)
                  (patch_status_then-IsSound (record r { status = initial_status input }) _
                    (set_world api w s) (λ t. ground arith)
                    (created r w (laws.create_law draft r s.world w sent)))
          ]
        where
          created :
              (r : IncidentReport) (w : api.World)
              → (laws.reports w ≡ laws.reports s.world ++ r ∷ [])
                × (r.namespace ≡ input.namespace)
                × (r.labels
                    ≡ (initial_report platform input fp (platform.fingerprint_hash fp)).labels)
                × (r.spec ≡ (initial_report platform input fp (platform.fingerprint_hash fp)).spec)
                × (r.status ≡ empty_status)
                × All (λ x. same_object x r ≡ false) (laws.reports s.world)
              → IsReady platform.fingerprint_hash fp
                  (record r { status = initial_status input })
                  (laws.reports w)
          created r w (appended, placed, labels, spec, blank, fresh) =
              let e : r.spec.fingerprint ≡ fp = ap (λ z. z.fingerprint) spec in
              let ready : IsReady platform.fingerprint_hash fp r (laws.reports s.world ++ r ∷ []) =
                IsReady-create platform.fingerprint_hash fp r (laws.reports s.world) sound
                  (λ y m. subst (λ ns. ¬ IsOpenAs ns fp y) (sym placed) (free y m)) e
                  (written-IsCurrent r e (ap (λ z. z.fingerprint_hash) labels)) fresh in
              rw appended
                (record { sound = ready.sound; takes = ready.takes; settled = ready.settled })

      -- a report of the namespace, where no open one has the fingerprint
      IsFree-Takes :
          (r : IncidentReport) (l : List IncidentReport)
          → r.namespace ≡ input.namespace
          → IsFree input.namespace fp l
          → Takes platform.fingerprint_hash fp r l
      IsFree-Takes r l e free y m opened =
          absurd (free y m (subst (λ ns. IsOpenAs ns fp y) e opened))

      ensure_by_workload-IsSound :
          (f : Found) (s : State api)
          → ((r : IncidentReport) → f ≡ present r → r.namespace ≡ input.namespace)
          → IsSoundState s
          → IsFree input.namespace fp (laws.reports s.world)
          → IsSoundState
              (ensure_by_workload api platform f input fp (platform.fingerprint_hash fp) s).0
      unfolding ensure_by_workload
      ensure_by_workload-IsSound broken s h sound free = sound
      ensure_by_workload-IsSound absent s h sound free = create_incident-IsSound s sound free
      ensure_by_workload-IsSound (present r) s h sound free =
          let takes = IsFree-Takes r (laws.reports s.world) (h r refl) free in
          elim (Bool-cases (is_resolved r)) [
            | inl closed ↦ rw closed (reopen_incident-IsSound r s sound takes)
            | inr opened ↦ rw opened (update_active_incident-IsSound r s sound takes)
          ]

      ensure_not_open-IsSound :
          (f : Found) (s : State api)
          → ((r : IncidentReport) → f ≡ present r → r.namespace ≡ input.namespace)
          → IsSoundState s
          → IsFree input.namespace fp (laws.reports s.world)
          → IsSoundState
              (ensure_not_open api platform f input fp (platform.fingerprint_hash fp) s).0
      unfolding ensure_not_open
      ensure_not_open-IsSound broken s h sound free = sound
      ensure_not_open-IsSound absent s h sound free =
          ensure_by_workload-IsSound _ s
            (λ r e.
              (find_existing-present api laws platform.fingerprint_hash fp s input.namespace
                input.incident_type input.scope.workload_ref r e).1)
            sound free
      ensure_not_open-IsSound (present r) s h sound free =
          reopen_incident-IsSound r s sound (IsFree-Takes r (laws.reports s.world) (h r refl) free)

      ensure_found-IsSound :
          (now : ℕ) (s : State api) (f : Found)
          → IsSoundState s
          → ((r : IncidentReport)
              → f ≡ present r
              → Takes platform.fingerprint_hash fp r (laws.reports s.world))
          → (f ≡ absent → IsFree input.namespace fp (laws.reports s.world))
          → IsSoundState
              (ensure_found api platform now input fp (platform.fingerprint_hash fp) (s, f)).0
      unfolding ensure_found
      ensure_found-IsSound now s broken sound takes free = sound
      ensure_found-IsSound now s (present r) sound takes free =
          update_active_incident-IsSound r s sound (takes r refl)
      ensure_found-IsSound now s absent sound takes free =
          ensure_not_open-IsSound _ s
            (λ r e.
              (find_resolvable_incident-present api laws platform.fingerprint_hash fp s now
                input.namespace (platform.fingerprint_hash fp) r e).1)
            sound (free refl)

  -- the object that findOpenIncident returns is the only open one with its fingerprint
  found-Takes :
      (fp : String) (r : IncidentReport) (l : List IncidentReport)
      → IsSound platform.fingerprint_hash l
      → Memᴰ r l × (is_open_for fp r ≡ true)
      → Takes platform.fingerprint_hash fp r l
  unfolding is_open_for
  found-Takes fp r l sound (m, fits) y my opened =
      let named : report_fingerprint r ≡ fp =
        eq→path (report_fingerprint r) fp
          (and-right (not (is_resolved r)) (report_fingerprint r == fp) fits) in
      let own : r.spec.fingerprint ≡ fp =
        sym (report_fingerprint-IsCurrent platform.fingerprint_hash r (sound.current r m))
        ∙ named in
      let unresolved : is_resolved r ≡ false = ground (arith, fits) in
      same_object_sym r y (
        sound.unique r y m my unresolved (record {
          unresolved = opened.unresolved;
          place = opened.place;
          identity = opened.identity ∙ sym own;
        }))

  after_lookup :
      (now : ℕ) (input : Input) (fp : String) (s : State api) (p : State api × Found)
      → fp ≢ ""
      → strip_legacy_type fp ≡ fp
      → p.0.world ≡ s.world
      → IsSoundState s
      → ((r : IncidentReport)
          → p.1 ≡ present r
          → Takes platform.fingerprint_hash fp r (laws.reports s.world))
      → (p.1 ≡ absent → IsFree input.namespace fp (laws.reports s.world))
      → IsSoundState (ensure_found api platform now input fp (platform.fingerprint_hash fp) p).0
  after_lookup now input fp s (t, f) named bare e sound takes free =
      ensure_found-IsSound fp named bare input now t f
        (subst (λ w. IsSound platform.fingerprint_hash (laws.reports w)) (sym e) sound)
        (λ r k.
          subst (λ w. Takes platform.fingerprint_hash fp r (laws.reports w)) (sym e) (takes r k))
        (λ k. subst (λ w. IsFree input.namespace fp (laws.reports w)) (sym e) (free k))

  -- EnsureSignal keeps the invariant.
  pub ensure_signal-IsSound :
      (now : ℕ) (input : Input) (s : State api)
      → IsSoundState s
      → fingerprint input ≢ ""
      → strip_legacy_type (fingerprint input) ≡ fingerprint input
      → IsSoundState (ensure_signal api platform now input s).0
  unfolding ensure_signal with_defaults fingerprint
  ensure_signal-IsSound now input s sound named bare =
      let fp = fingerprint input in
      let hash = platform.fingerprint_hash in
      after_lookup now (with_defaults now input) fp s
        (find_open_incident api input.namespace fp (hash fp) s) named bare
        (find_open_incident-world api laws hash fp s input.namespace (hash fp)) sound
        (λ r e.
          found-Takes fp r (laws.reports s.world) sound
            (find_open_incident-present api laws hash fp s input.namespace (hash fp) r e))
        (λ e y m.
          find_open_incident-absent api laws hash fp s input.namespace y e m (sound.current y m))
