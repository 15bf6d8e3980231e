-- ===== src/Controller/Transitions.antt =====
-- The transitions, the reads and the graph step of internal/controller/incidentreport_controller.go,
-- which the phases of Reconcile share.
use rca_operator.Base.{
  ℕ, ◌+◌, ◌*◌, String, Bool, true, false, Option, none, some, List, [], ◌∷◌, ltb, if◌then◌else◌,
  ◌==◌,
}
use rca_operator.Incident.Report.{IncidentReport}
use rca_operator.Incident.Status.{Metric, mark_active, mark_resolved}
use rca_operator.Controller.Cluster.{unavailable, missing, got, incident_still_present}
use rca_operator.Controller.State.{
  Result, failed, done, requeue, transition, Reconciler, State, set_world, send,
}
use rca_operator.Reporter.Api.{Api}

-- healthyResolveWindow: 5 minutes
abbrev pub healthy_resolve_window : ℕ
healthy_resolve_window = 300000000000

-- the window of the report in nanoseconds, or 30 seconds
unfoldable pub stabilization_window : IncidentReport → ℕ
stabilization_window report =
    if ltb 0 report.status.stabilization_window_seconds
    then report.status.stabilization_window_seconds * 1000000000
    else 30000000000

abbrev pub is_empty_graph : Option String → Bool
is_empty_graph none = true
is_empty_graph (some raw) = raw == ""

abbrev pub with_graph : Option String → IncidentReport → IncidentReport
with_graph none report = report
with_graph (some raw) report = record report {
  status = record report.status { incident_graph = some raw };
}

-- an instant with less than `window` between it and now
abbrev pub within : ℕ → ℕ → Option ℕ → Bool
within window now none = false
within window now (some t) = ltb now (t + window)

module _ (api : Api) (r : Reconciler api) where
  -- the instant of the annotation, where it is set and parses
  unfoldable pub last_seen : IncidentReport → Option ℕ
  last_seen report =
      if report.annotations.last_seen == ""
      then none
      else r.parse_rfc3339 report.annotations.last_seen

  abbrev pub send_all : List Metric → State api → State api
  send_all [] s = s
  send_all (m ∷ ms) s = send_all ms (send api (transition m) s)

  -- a status patch; what it returns is decided by `ok`
  unfoldable pub patch_status_to : IncidentReport → Result → State api → State api × Result
  patch_status_to report ok s = elim (api.patch_status report s.world) [
    | none ↦ (s, failed)
    | some w ↦ (set_world api w s, ok)
  ]

  -- transitionToActive
  unfoldable pub transition_to_active : ℕ → IncidentReport → State api → State api × Result
  transition_to_active now report s =
      let (active, metrics) =
        mark_active report now "Incident confirmed active after stabilisation period" in
      patch_status_to (with_graph (r.build_graph active) active) (requeue healthy_resolve_window)
        (send_all metrics s)

  -- transitionToResolved
  unfoldable pub transition_to_resolved :
      ℕ → IncidentReport → String → State api → State api × Result
  transition_to_resolved now report reason s =
      let (resolved, metrics) = mark_resolved report now reason in
      patch_status_to resolved done (send_all metrics s)

  -- the read after a patch, which ends the reconciliation where the report is gone; the read of
  -- sendOpenNotifications returns NotFound as an error too
  unfoldable pub reread :
      Result
      → IncidentReport
      → (IncidentReport → State api → State api × Result)
      → State api
      → State api × Result
  reread absence report k s = elim (r.fetch report.namespace report.name s.world) [
    | unavailable ↦ (s, failed)
    | missing ↦ (s, absence)
    | got report' ↦ k report' s
  ]

  -- ensureIncidentGraph, and the read that follows where it has changed the report
  unfoldable pub ensure_incident_graph :
      IncidentReport
      → (IncidentReport → State api → State api × Result)
      → State api
      → State api × Result
  ensure_incident_graph report k s =
      let built : State api × Result = elim (r.build_graph report) [
        | none ↦ k report s
        | some raw ↦ elim (api.patch_status (with_graph (some raw) report) s.world) [
          | none ↦ (s, failed)
          | some w ↦ reread done report k (set_world api w s)
        ]
      ] in
      let kept = k report s in if is_empty_graph report.status.incident_graph then built else kept

  -- what reconcileDetecting and reconcileActive do with the result of incidentStillPresent
  unfoldable pub unless_present :
      ℕ
      → IncidentReport
      → String
      → (State api → State api × Result)
      → State api
      → State api × Result
  unless_present now report reason present s = elim (incident_still_present r.cluster report) [
    | none ↦ (s, failed)
    | some true ↦ present s
    | some false ↦ transition_to_resolved now report reason s
  ]
