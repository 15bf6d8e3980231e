-- ===== src/Controller/Reconcile.antt =====
-- Reconcile of internal/controller/incidentreport_controller.go. The clock is an argument: it stands
-- still during one reconciliation.
use rca_operator.Base.{ℕ, ◌+◌, ◌-◌, String, true, Option, none, some, ltb, if◌then◌else◌, ◌==◌}
use rca_operator.Incident.Report.{IncidentReport}
use rca_operator.Incident.Status.{
  effective_start_time, first_some, phase_detecting, phase_active, phase_resolved,
}
use rca_operator.Controller.Cluster.{unavailable, missing, got}
use rca_operator.Controller.State.{
  Result, failed, done, requeue, notification, Reconciler, State, set_world, send,
}
use rca_operator.Reporter.Api.{Api}
use rca_operator.Controller.Transitions.{
  healthy_resolve_window, stabilization_window, within, last_seen, transition_to_active, reread,
  ensure_incident_graph, unless_present,
}

module _ (api : Api) (r : Reconciler api) where
  -- reconcileDetecting from the first instant on
  unfoldable pub detecting_since : ℕ → IncidentReport → Option ℕ → State api → State api × Result
  detecting_since now report none s = transition_to_active api r now report s
  detecting_since now report (some first) s =
      let window = stabilization_window report in
      let checked =
        unless_present api r now report "Incident cleared before activation"
          (transition_to_active api r now report) s in
      if ltb now (first + window)
      then (s, requeue (first + window - now))
      else if within window now (last_seen api r report)
      then transition_to_active api r now report s
      else checked

  unfoldable pub reconcile_detecting : ℕ → IncidentReport → State api → State api × Result
  reconcile_detecting now report s =
      ensure_incident_graph api r report
        (λ report'. detecting_since now report' (effective_start_time report'.status)) s

  -- the instant from which reconcileActive measures the silence
  unfoldable pub last_confirmed : ℕ → IncidentReport → ℕ
  last_confirmed now report = elim report.status.last_observed_at [
    | some t ↦ t
    | none ↦ elim (first_some (last_seen api r report) (effective_start_time report.status)) [
      | some t ↦ t
      | none ↦ now
    ]
  ]

  -- reconcileActive after the notification
  unfoldable pub active_idle : ℕ → IncidentReport → State api → State api × Result
  active_idle now report s =
      let last = last_confirmed now report in
      let checked =
        unless_present api r now report
          "No confirming signals for 5 minutes and issue state cleared"
          (λ t. (t, requeue healthy_resolve_window)) s in
      if ltb now (last + healthy_resolve_window)
      then (s, requeue (last + healthy_resolve_window - now))
      else checked

  -- sendOpenNotifications after the notification is sent
  unfoldable pub mark_notified :
      IncidentReport
      → (IncidentReport → State api → State api × Result)
      → State api
      → State api × Result
  mark_notified report k s =
      let marked : IncidentReport = record report {
        annotations = record report.annotations { open_sent = "true" };
      } in
      elim (api.patch marked s.world) [
        | none ↦ (s, failed)
        | some w ↦
            reread api r failed report
              (λ report' t.
                let notified : IncidentReport = record report' {
                  status = record report'.status { notified = true };
                } in
                elim (api.patch_status notified t.world) [
                  | none ↦ (t, failed)
                  | some v ↦ k notified (set_world api v t)
                ])
              (set_world api w s)
      ]

  unfoldable pub send_open_notifications :
      IncidentReport
      → (IncidentReport → State api → State api × Result)
      → State api
      → State api × Result
  send_open_notifications report k s = elim r.notifier [
    | none ↦ k report s
    | some notify ↦
        if notify "trigger" report
        then mark_notified report k (send api (notification "trigger" report) s)
        else (s, failed)
  ]

  unfoldable pub active_announced : ℕ → IncidentReport → State api → State api × Result
  active_announced now report s =
      let announced = send_open_notifications report (active_idle now) s in
      let idle = active_idle now report s in if report.status.notified then idle else announced

  unfoldable pub reconcile_active : ℕ → IncidentReport → State api → State api × Result
  reconcile_active now report s = ensure_incident_graph api r report (active_announced now) s

  unfoldable pub send_resolved_notifications : IncidentReport → State api → State api × Result
  send_resolved_notifications report s =
      let marked : IncidentReport = record report {
        annotations = record report.annotations { resolved_sent = "true" };
      } in
      let sent : State api × Result = elim r.notifier [
        | none ↦ (s, done)
        | some notify ↦
            let t = send api (notification "resolve" report) s in
            let patched : State api × Result = elim (api.patch marked t.world) [
              | none ↦ (t, failed)
              | some w ↦ (set_world api w t, done)
            ] in
            if notify "resolve" report then patched else (s, failed)
      ] in
      if report.annotations.resolved_sent == "true" then (s, done) else sent

  -- reconcileResolved after the metric
  unfoldable pub resolved_counted : IncidentReport → State api → State api × Result
  resolved_counted report s =
      let announced = reread api r done report send_resolved_notifications s in
      if report.status.notified then announced else (s, done)

  -- recordResolvedMetric, then the rest of reconcileResolved
  unfoldable pub record_resolved_metric : IncidentReport → State api → State api × Result
  record_resolved_metric report s =
      let marked : IncidentReport = record report {
        annotations = record report.annotations { resolved_metric = "true" };
      } in
      let patched : State api × Result = elim (api.patch marked s.world) [
        | none ↦ (s, failed)
        | some w ↦ resolved_counted marked (set_world api w s)
      ] in
      let counted = resolved_counted report s in
      if report.annotations.resolved_metric == "true" then counted else patched

  unfoldable pub reconcile_resolved : IncidentReport → State api → State api × Result
  reconcile_resolved report s = ensure_incident_graph api r report record_resolved_metric s

  -- the switch over the phase
  unfoldable pub reconcile_report : ℕ → IncidentReport → State api → State api × Result
  reconcile_report now report s =
      let detecting = reconcile_detecting now report s in
      let active = reconcile_active now report s in
      let resolved = reconcile_resolved report s in
      if report.status.phase == phase_detecting
      then detecting
      else if report.status.phase == phase_active
      then active
      else if report.status.phase == phase_resolved
      then resolved
      else (s, done)

  unfoldable pub reconcile : ℕ → String → String → State api → State api × Result
  reconcile now namespace name s = elim (r.fetch namespace name s.world) [
    | unavailable ↦ (s, failed)
    | missing ↦ (s, done)
    | got report ↦ reconcile_report now report s
  ]
