-- ===== src/Controller/Phases.antt =====
-- Reconcile in each phase: the stored reports only move forward in their lifecycle.
use Prim.Native.String.{String}
use mathlib.Core.List.{Memᴰ}
use rca_operator.Base.{
  ℕ, ◌+◌, ◌≡◌, true, Option, some, none, Bool-cases, ltb, inl, inr, ◌==◌, eq→path,
}
use rca_operator.Controller.Lifecycle.{FetchLaw, Lives, IsStored, transition_to_active-Lives}
use rca_operator.Controller.Reconcile.{
  detecting_since, reconcile_detecting, reconcile_active, reconcile_resolved, reconcile_report,
  reconcile,
}
use rca_operator.Controller.Transitions.{
  transition_to_active, last_seen, within, stabilization_window,
}
use rca_operator.Controller.State.{Reconciler, State}
use rca_operator.Incident.Report.{IncidentReport}
use rca_operator.Incident.Status.{
  effective_start_time, phase_detecting, phase_active, phase_resolved,
}
use rca_operator.Reporter.Api.{Api, ApiLaws}
use rca_operator.Reporter.Evolution.{Evolves, IsDistinct}
use rca_operator.Reporter.Evolution.Patches.{evolution-IsSound}
use rca_operator.Reporter.Unique.{IsSound}
use rca_operator.Controller.Steps.{
  same, ensure_incident_graph-Lives, unless_present-Lives, Lookup-cases,
}
use rca_operator.Controller.Announcing.{active_announced-Lives}
use rca_operator.Controller.Resolved.{record_resolved_metric-Lives}

module _ (api : Api) (laws : ApiLaws api) (r : Reconciler api) (law : FetchLaw api laws r) where
  detecting_since-Lives :
      (now : ℕ) (x : IncidentReport) (o : Option ℕ) (s : State api)
      → IsStored api laws r phase_detecting x s
      → Lives api laws r s (detecting_since api r now x o s)
  unfolding detecting_since
  detecting_since-Lives now x none s h = transition_to_active-Lives api laws r now x s h
  detecting_since-Lives now x (some first) s h =
      elim (Bool-cases (ltb now (first + stabilization_window x))) [
        | inl early ↦ rw early (same api laws r law s)
        | inr due ↦ elim (Bool-cases (within (stabilization_window x) now (last_seen api r x))) [
          | inl seen ↦ rw (due, seen) (transition_to_active-Lives api laws r now x s h)
          | inr unseen ↦
              rw (due, unseen)
                (unless_present-Lives api laws r law now x _ (transition_to_active api r now x) s
                  (transition_to_active-Lives api laws r now x s h))
        ]
      ]

  reconcile_report-Lives :
      (now : ℕ) (x : IncidentReport) (s : State api)
      → Memᴰ x (laws.reports s.world)
      → IsDistinct (laws.reports s.world)
      → Lives api laws r s (reconcile_report api r now x s)
  unfolding reconcile_report reconcile_detecting reconcile_active reconcile_resolved
  reconcile_report-Lives now x s m d =
      let in_phase : (phase : String)
          → (x.status.phase == phase) ≡ true
          → IsStored api laws r phase x s =
        λ phase e. record { member = m; distinct = d; in_phase = eq→path x.status.phase phase e } in
      elim (Bool-cases (x.status.phase == phase_detecting)) [
        | inl detecting ↦ rw detecting (
            ensure_incident_graph-Lives api laws r law phase_detecting x _ s
              (in_phase phase_detecting detecting)
              (λ y t k. detecting_since-Lives now y (effective_start_time y.status) t k))
        | inr undetecting ↦ elim (Bool-cases (x.status.phase == phase_active)) [
          | inl active ↦
              rw (undetecting, active)
                (ensure_incident_graph-Lives api laws r law phase_active x _ s
                  (in_phase phase_active active) (active_announced-Lives api laws r law now))
          | inr inactive ↦ elim (Bool-cases (x.status.phase == phase_resolved)) [
            | inl resolved ↦
                rw (undetecting, inactive, resolved)
                  (ensure_incident_graph-Lives api laws r law phase_resolved x _ s
                    (in_phase phase_resolved resolved)
                    (record_resolved_metric-Lives api laws r law))
            | inr unknown ↦ rw (undetecting, inactive, unknown) (same api laws r law s)
          ]
        ]
      ]

  -- A reconciliation of distinct reports loses, creates and renames none, and each phase stays, goes
  -- from Detecting to Active, or to Resolved: whichever way it goes, also where a call fails.
  pub reconcile-Evolves :
      (now : ℕ) (ns name : String) (s : State api)
      → IsDistinct (laws.reports s.world)
      → Evolves (laws.reports s.world) (laws.reports (reconcile api r now ns name s).0.world)
  unfolding reconcile
  reconcile-Evolves now ns name s d = elim (Lookup-cases (r.fetch ns name s.world)) [
    | inl e ↦ rw (reconcile, e) (same api laws r law s)
    | inr rest ↦ elim rest [
      | inl e ↦ rw (reconcile, e) (same api laws r law s)
      | inr (x, e) ↦
          rw (reconcile, e) (reconcile_report-Lives now x s (law ns name s.world x e).0 d)
    ]
  ]

  -- A reconciliation keeps one open report for each namespace and fingerprint.
  pub reconcile-IsSound :
      (hash : String → String) (now : ℕ) (ns name : String) (s : State api)
      → IsDistinct (laws.reports s.world)
      → IsSound hash (laws.reports s.world)
      → IsSound hash (laws.reports (reconcile api r now ns name s).0.world)
  reconcile-IsSound hash now ns name s d sound =
      evolution-IsSound hash (laws.reports s.world) _ (reconcile-Evolves now ns name s d) sound
