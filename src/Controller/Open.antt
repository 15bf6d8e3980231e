-- ===== src/Controller/Open.antt =====
-- What leaves an incident open in internal/controller/incidentreport_controller.go, and what alone
-- resolves it.
use mathlib.Core.List.{Memᴰ, List}
use mathlib.Core.Option.{some_inj}
use rca_operator.Base.{
  test_fails, ℕ, ◌+◌, ◌≤◌, ◌≡◌, ◌≢◌, ◌⊎◌, refl, sym, ap, subst, ◌∙◌, Bool, true, false, Option,
  some, none, ltb→ge, if◌then◌else◌, inl, inr, String,
}
use rca_operator.Controller.Cluster.{incident_still_present}
use rca_operator.Controller.Lifecycle.{
  IsStored, patched-IsStored, send_all-world, with_graph_object,
}
use rca_operator.Controller.Paths.{Facts, IsLike}
use rca_operator.Controller.State.{Result, Reconciler, State, set_world}
use rca_operator.Controller.Transitions.{
  healthy_resolve_window, send_all, patch_status_to, transition_to_active, transition_to_resolved,
  unless_present, within, with_graph,
}
use rca_operator.Incident.Report.{IncidentReport, IncidentReportStatus}
use rca_operator.Incident.Status.{Metric, mark_active, phase_detecting, phase_active}
use rca_operator.Reporter.Api.{Api, ApiLaws, same_object, with_status}
use rca_operator.Reporter.Evolution.{IsDistinct, IsDistinct-one, activates}
use rca_operator.Reporter.Unique.{same_object_refl}
use rca_operator.Controller.Silence.{IsSeen, SeenCase}

module _ (api : Api) (laws : ApiLaws api) (r : Reconciler api) where
  -- the object of x is stored as resolved
  pub record IsResolvedIn (x : IncidentReport) (w : api.World) : Type 0 where
    pub report : IncidentReport
    pub member : Memᴰ report (laws.reports w)
    pub one : same_object report x ≡ true
    pub resolved : report.status.phase ≡ "Resolved"

  pub stays_open :
      (phase : String) (x y : IncidentReport) (s : State api)
      → phase ≢ "Resolved"
      → IsStored api laws r phase y s
      → y.namespace ≡ x.namespace
      → y.name ≡ x.name
      → ¬ IsResolvedIn x s.world
  stays_open phase x y s opened h ns name k =
      let same : same_object k.report y ≡ true = rw (ns, name) k.one in
      let e = IsDistinct-one (laws.reports s.world) k.report y h.distinct k.member h.member same in
      opened (sym h.in_phase ∙ ap (λ z. z.status.phase) (sym e) ∙ k.resolved)

  pub unless_present_closes :
      (now : ℕ) (x y : IncidentReport) (reason : String) (present : State api → State api × Result)
      (s : State api)
      → ¬ IsResolvedIn x s.world
      → ¬ IsResolvedIn x (present s).0.world
      → IsResolvedIn x (unless_present api r now y reason present s).0.world
      → incident_still_present r.cluster y ≡ some false
  unfolding unless_present
  unless_present_closes now x y reason present s before after h =
      decided (incident_still_present r.cluster y) refl h
    where
      decided :
          (o : Option Bool)
          → incident_still_present r.cluster y ≡ o
          → IsResolvedIn x
              (elim o as (λ x'. State api × Result) [
                | none ↦ (s, Result.failed)
                | some b ↦ elim b as (λ x''. State api × Result) [
                  | false ↦ transition_to_resolved api r now y reason s
                  | true ↦ present s
                ]
              ]).0.world
          → incident_still_present r.cluster y ≡ some false
      decided none e k = absurd (before k)
      decided (some true) e k = absurd (after k)
      decided (some false) e k = e

  pub resolved_if :
      (x : IncidentReport) (b : Bool) (p q : State api × Result)
      → IsResolvedIn x (if b then p else q).0.world
      → ((b ≡ true) × IsResolvedIn x p.0.world) ⊎ ((b ≡ false) × IsResolvedIn x q.0.world)
  resolved_if x true p q h = inl (refl, h)
  resolved_if x false p q h = inr (refl, h)

  pub like-open :
      (phase : String) (x y : IncidentReport) (s : State api)
      → phase ≢ "Resolved"
      → IsLike api laws r phase x y s
      → ¬ IsResolvedIn x s.world
  like-open phase x y s opened h =
      stays_open phase x y s opened h.stored (ap (λ f. f.namespace) h.alike)
        (ap (λ f. f.name) h.alike)

  pub active_open : phase_active ≢ "Resolved"
  active_open = test_fails "Active" "Resolved" refl

  pub detecting_open : phase_detecting ≢ "Resolved"
  detecting_open = test_fails "Detecting" "Resolved" refl

  with_graph-kept :
      (o : Option String) (x : IncidentReport) (status : IncidentReportStatus)
      → let m : IncidentReport = record x { status = status } in
        with_status (with_graph o m) x ≡ with_graph o m
  with_graph-kept none x status = rw (same_object_refl x) refl
  with_graph-kept (some raw) x status = rw (same_object_refl x) refl

  pub transition_to_active_open :
      (now : ℕ) (x y : IncidentReport) (s : State api)
      → IsLike api laws r phase_detecting x y s
      → ¬ IsResolvedIn x (transition_to_active api r now y s).0.world
  unfolding transition_to_active patch_status_to mark_active
  transition_to_active_open now x y s like = by_answer (api.patch_status m t.world) refl
    where
      marked : IncidentReport × List Metric
      marked = mark_active y now "Incident confirmed active after stabilisation period"

      m : IncidentReport
      m = with_graph (r.build_graph marked.0) marked.0

      t : State api
      t = send_all api r marked.1 s

      at_t : IsLike api laws r phase_detecting x y t
      at_t =
          let e = send_all-world api laws r marked.1 s in
          let h = like.stored in
          record {
            stored = record {
              member = subst (λ w. Memᴰ y (laws.reports w)) (sym e) h.member;
              distinct = subst (λ w. IsDistinct (laws.reports w)) (sym e) h.distinct;
              in_phase = h.in_phase;
            };
            alike = like.alike;
          }

      by_answer :
          (o : Option api.World)
          → api.patch_status m t.world ≡ o
          → ¬ IsResolvedIn x
              (elim o as (λ x'. State api × Result) [
                | none ↦ (t, Result.failed)
                | some w ↦ (set_world api w t, Result.requeue healthy_resolve_window)
              ]).0.world
      by_answer none e k = like-open phase_detecting x y t detecting_open at_t k
      by_answer (some w) e k =
          let (ns, name, phase) = with_graph_object api laws r (r.build_graph marked.0) marked.0 in
          let stored =
            (patched-IsStored api laws r phase_detecting y m t w at_t.stored
              (rw (ns, name) (same_object_refl y))
              (with_graph-kept (r.build_graph marked.0) y marked.0.status)
              (activates at_t.stored.in_phase phase) e).1 in
          stays_open m.status.phase x m (set_world api w t) (λ q. active_open (sym phase ∙ q))
            stored (ns ∙ ap (λ f. f.namespace) like.alike) (name ∙ ap (λ f. f.name) like.alike) k

  pub unseen_since :
      (f : Facts) (o : Option ℕ) (window now : ℕ)
      → SeenCase api r f o
      → within window now o ≡ false
      → (t : ℕ) → IsSeen r.parse_rfc3339 f t
      → t + window ≤ now
  unseen_since f none window now never h t k = absurd (never t k)
  unseen_since f (some u) window now (given, e) h t (_, k) =
      let one : u ≡ t = some_inj.0 (sym e ∙ k) in subst (λ v. v + window ≤ now) one (ltb→ge _ _ h)
