-- ===== src/Controller/Resolved.antt =====
-- reconcileResolved: the stored reports only move forward.
use rca_operator.Base.{refl, Option-cases, inl, inr, ◌==◌}
use rca_operator.Controller.Lifecycle.{FetchLaw, Continues, fetched-IsStored, marked-IsStored}
use rca_operator.Controller.Reconcile.{
  send_resolved_notifications, resolved_counted, record_resolved_metric,
}
use rca_operator.Controller.State.{done, Reconciler, set_world}
use rca_operator.Incident.Report.{IncidentReport}
use rca_operator.Incident.Status.{phase_resolved}
use rca_operator.Reporter.Api.{Api, ApiLaws}
use rca_operator.Reporter.Evolution.{Evolves-trans}
use rca_operator.Reporter.Unique.{same_object_refl}
use rca_operator.Controller.Steps.{same, either, reread-Lives}

module _ (api : Api) (laws : ApiLaws api) (r : Reconciler api) (law : FetchLaw api laws r) where
  send_resolved_notifications-Lives :
      Continues api laws r phase_resolved (send_resolved_notifications api r)
  unfolding send_resolved_notifications
  send_resolved_notifications-Lives x s h =
      let m : IncidentReport = record x {
        annotations = record x.annotations { resolved_sent = "true" };
      } in
      either api laws r law s (x.annotations.resolved_sent == "true") _ _ (same api laws r law s)
        (elim (Option-cases r.notifier) [
          | inl absent ↦ rw absent (same api laws r law s)
          | inr (notify, given) ↦ rw given (
              either api laws r law s (notify "resolve" x) _ _
                (elim (Option-cases (api.patch m s.world)) [
                  | inl refused ↦ rw refused (same api laws r law s)
                  | inr (w, sent) ↦ rw sent (
                      (marked-IsStored api laws r phase_resolved x m s w h (same_object_refl x)
                        (rw (same_object_refl x) refl) refl refl refl sent).0)
                ])
                (same api laws r law s))
        ])

  resolved_counted-Lives : Continues api laws r phase_resolved (resolved_counted api r)
  unfolding resolved_counted
  resolved_counted-Lives x s h =
      either api laws r law s x.status.notified _ _
        (reread-Lives api laws r law phase_resolved done x (send_resolved_notifications api r) s
          (λ y e. fetched-IsStored api laws r phase_resolved x y s law h e)
          send_resolved_notifications-Lives)
        (same api laws r law s)

  pub record_resolved_metric-Lives :
      Continues api laws r phase_resolved (record_resolved_metric api r)
  unfolding record_resolved_metric
  record_resolved_metric-Lives x s h =
      let m : IncidentReport = record x {
        annotations = record x.annotations { resolved_metric = "true" };
      } in
      either api laws r law s (x.annotations.resolved_metric == "true") _ _
        (resolved_counted-Lives x s h)
        (elim (Option-cases (api.patch m s.world)) [
          | inl refused ↦ rw refused (same api laws r law s)
          | inr (w, sent) ↦
              let (evolves, stored) =
                marked-IsStored api laws r phase_resolved x m s w h (same_object_refl x)
                  (rw (same_object_refl x) refl) refl refl refl sent in
              rw sent (
                Evolves-trans (laws.reports s.world) (laws.reports w) _ evolves
                  (resolved_counted-Lives m (set_world api w s) stored))
        ])
