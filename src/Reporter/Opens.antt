-- ===== src/Reporter/Opens.antt =====
-- Where EnsureSignal returns no error, there is an open report with the fingerprint of the signal.
use mathlib.Core.List.{Memᴰ}
use mathlib.Core.List.Memᴰ.{append_right}
use rca_operator.Base.{
  ℕ, String, ◌≡◌, refl, sym, ap, subst, true, false, List, Bool-cases, Option-cases, inl, inr,
  arith,
}
use rca_operator.Incident.Report.{IncidentReport, IncidentReportStatus}
use rca_operator.Incident.Input.{Input, fingerprint}
use rca_operator.Reporter.Api.{Api, ApiLaws, same_object, with_meta, with_status}
use rca_operator.Reporter.Ensure.{
  with_defaults, patch_status_then, patch_both, create_incident, update_active_incident,
  reopen_incident, ensure_by_workload, ensure_not_open, ensure_found, ensure_signal,
}
use rca_operator.Reporter.Evolution.Pods.{map_member}
use rca_operator.Reporter.Find.{is_resolved, is_open_for, find_open_incident}
use rca_operator.Reporter.State.{
  Reply, done, failed, Found, broken, absent, present, State, set_world,
}
use rca_operator.Reporter.Unique.{same_object_refl}
use rca_operator.Reporter.Unique.Lookup.{
  find_open_incident-world, find_open_incident-present, find_resolvable_incident-present,
  find_existing-present,
}
use rca_operator.Reporter.Write.{
  Platform, initial_report, initial_status, update_meta, update_status, reopen_meta, reopen_status,
}

failed_not_done : ¬ (failed ≡ done)
failed_not_done h = ground (arith, h)

-- An open report with the fingerprint is stored.
abbrev pub HasOpen : String → List IncidentReport → Type 0
HasOpen fp l = (r : IncidentReport) × Memᴰ r l × (is_resolved r ≡ false) × (r.spec.fingerprint ≡ fp)

module _ (api : Api) (laws : ApiLaws api) (platform : Platform) where
  -- what an operation promises: an error, or an open report
  abbrev pub Opens : String → State api × Reply → Type 0
  Opens fp p = p.1 ≡ done → HasOpen fp (laws.reports p.0.world)

  patch_status_then-Opens :
      (fp : String) (x m : IncidentReport) (k : State api → State api) (s : State api)
      → ((t : State api) → (k t).world ≡ t.world)
      → Memᴰ x (laws.reports s.world)
      → same_object x m ≡ true
      → x.spec.fingerprint ≡ fp
      → is_resolved m ≡ false
      → Opens fp (patch_status_then api platform m k s)
  unfolding patch_status_then
  patch_status_then-Opens fp x m k s world member same named opened ok =
      elim (Option-cases (api.patch_status m s.world)) [
        | inl refused ↦ absurd (failed_not_done (ground (arith, refused, ok)))
        | inr (w, sent) ↦
            rw
              (
                patch_status_then,
                sent,
                world (set_world api w s),
                laws.patch_status_law m s.world w sent,
              )
              (with_status m x, map_member (with_status m) member, rw same opened, rw same named)
      ]

  patch_both-Opens :
      (fp : String) (x m : IncidentReport) (status : IncidentReportStatus)
      (k : State api → State api) (s : State api)
      → ((t : State api) → (k t).world ≡ t.world)
      → Memᴰ x (laws.reports s.world)
      → same_object x m ≡ true
      → m.spec.fingerprint ≡ fp
      → is_resolved (record m { status = status }) ≡ false
      → Opens fp (patch_both api platform m (record m { status = status }) k s)
  unfolding patch_both
  patch_both-Opens fp x m status k s world member same named opened ok =
      elim (Option-cases (api.patch m s.world)) [
        | inl refused ↦ absurd (failed_not_done (ground (arith, refused, ok)))
        | inr (w, sent) ↦
            rw (patch_both, sent)
              (patch_status_then-Opens fp (with_meta m x) (record m { status = status }) k
                (set_world api w s) world
                (subst (λ l. Memᴰ (with_meta m x) l) (sym (laws.patch_law m s.world w sent))
                  (map_member (with_meta m) member))
                (rw same same) (rw same named) opened (ground (arith, sent, ok)))
      ]

  update_active_incident-Opens :
      (x : IncidentReport) (input : Input) (fp hash : String) (s : State api)
      → Memᴰ x (laws.reports s.world)
      → is_resolved x ≡ false
      → Opens fp (update_active_incident api platform x input fp hash s)
  unfolding update_active_incident update_meta update_status
  update_active_incident-Opens x input fp hash s member opened =
      patch_both-Opens fp x (update_meta platform x input fp hash) _ _ _ (λ t. refl) member
        (same_object_refl x) refl opened

  reopen_incident-Opens :
      (x : IncidentReport) (input : Input) (fp hash : String) (s : State api)
      → Memᴰ x (laws.reports s.world)
      → Opens fp (reopen_incident api platform x input fp hash s)
  unfolding reopen_incident reopen_meta reopen_status
  reopen_incident-Opens x input fp hash s member =
      patch_both-Opens fp x (reopen_meta platform x input fp hash) _ _ _ (λ t. ground arith) member
        (same_object_refl x) refl refl

  create_incident-Opens :
      (input : Input) (fp hash : String) (s : State api)
      → Opens fp (create_incident api platform input fp hash s)
  unfolding create_incident initial_report initial_status
  create_incident-Opens input fp hash s ok =
      elim (Option-cases (api.create (initial_report platform input fp hash) s.world)) [
        | inl refused ↦ absurd (failed_not_done (ground (arith, refused, ok)))
        | inr ((x, w), sent) ↦
            let (appended, placed, labels, spec, blank, fresh) =
              laws.create_law (initial_report platform input fp hash) x s.world w sent in
            rw (create_incident, sent)
              (patch_status_then-Opens fp x (record x { status = initial_status input }) _
                (set_world api w s) (λ t. ground arith)
                (subst (λ l. Memᴰ x l) (sym appended)
                  (append_right (laws.reports s.world) (Memᴰ.head refl)))
                (same_object_refl x) (ap (λ z. z.fingerprint) spec) refl (ground (arith, sent, ok)))
      ]

  ensure_by_workload-Opens :
      (f : Found) (input : Input) (fp hash : String) (s : State api)
      → ((x : IncidentReport) → f ≡ present x → Memᴰ x (laws.reports s.world))
      → Opens fp (ensure_by_workload api platform f input fp hash s)
  unfolding ensure_by_workload
  ensure_by_workload-Opens broken input fp hash s h = λ ok. absurd (failed_not_done ok)
  ensure_by_workload-Opens absent input fp hash s h = create_incident-Opens input fp hash s
  ensure_by_workload-Opens (present x) input fp hash s h = elim (Bool-cases (is_resolved x)) [
    | inl closed ↦ rw closed (reopen_incident-Opens x input fp hash s (h x refl))
    | inr opened ↦ rw opened (update_active_incident-Opens x input fp hash s (h x refl) opened)
  ]

  ensure_not_open-Opens :
      (f : Found) (input : Input) (fp : String) (s : State api)
      → ((x : IncidentReport) → f ≡ present x → Memᴰ x (laws.reports s.world))
      → Opens fp (ensure_not_open api platform f input fp (platform.fingerprint_hash fp) s)
  unfolding ensure_not_open
  ensure_not_open-Opens broken input fp s h = λ ok. absurd (failed_not_done ok)
  ensure_not_open-Opens absent input fp s h =
      ensure_by_workload-Opens _ input fp (platform.fingerprint_hash fp) s (λ x e.
        (find_existing-present api laws platform.fingerprint_hash fp s input.namespace
          input.incident_type input.scope.workload_ref x e).0)
  ensure_not_open-Opens (present x) input fp s h =
      reopen_incident-Opens x input fp (platform.fingerprint_hash fp) s (h x refl)

  ensure_found-Opens :
      (now : ℕ) (input : Input) (fp : String) (s : State api) (p : State api × Found)
      → p.0.world ≡ s.world
      → ((x : IncidentReport)
          → p.1 ≡ present x
          → Memᴰ x (laws.reports s.world) × (is_open_for fp x ≡ true))
      → Opens fp (ensure_found api platform now input fp (platform.fingerprint_hash fp) p)
  unfolding ensure_found is_open_for
  ensure_found-Opens now input fp s (t, broken) e h = λ ok. absurd (failed_not_done ok)
  ensure_found-Opens now input fp s (t, present x) e h =
      let (member, fits) = h x refl in
      update_active_incident-Opens x input fp (platform.fingerprint_hash fp) t
        (subst (λ w. Memᴰ x (laws.reports w)) (sym e) member) (ground (arith, fits))
  ensure_found-Opens now input fp s (t, absent) e h = ensure_not_open-Opens _ input fp t (λ x k.
      (find_resolvable_incident-present api laws platform.fingerprint_hash fp t now input.namespace
        (platform.fingerprint_hash fp) x k).0)

  -- Where EnsureSignal returns no error, an open report with the fingerprint of the signal is stored.
  pub ensure_signal_opens :
      (now : ℕ) (input : Input) (s : State api)
      → (ensure_signal api platform now input s).1 ≡ done
      → HasOpen (fingerprint input) (laws.reports (ensure_signal api platform now input s).0.world)
  unfolding ensure_signal with_defaults fingerprint
  ensure_signal_opens now input s ok =
      let fp = fingerprint input in
      let hash = platform.fingerprint_hash in
      ensure_found-Opens now (with_defaults now input) fp s
        (find_open_incident api input.namespace fp (hash fp) s)
        (find_open_incident-world api laws hash fp s input.namespace (hash fp))
        (find_open_incident-present api laws hash fp s input.namespace (hash fp)) ok
