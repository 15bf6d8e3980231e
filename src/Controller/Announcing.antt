-- ===== src/Controller/Announcing.antt =====
-- reconcileActive: what it announces and when it ends an incident; the stored reports only move
-- forward.
use rca_operator.Base.{ℕ, ◌+◌, refl, true, some, none, Bool-cases, Option-cases, ltb, inl, inr}
use rca_operator.Controller.Lifecycle.{
  FetchLaw, Continues, fetched-IsStored, patched-IsStored, marked-IsStored,
}
use rca_operator.Controller.Reconcile.{
  last_confirmed, active_idle, mark_notified, send_open_notifications, active_announced,
}
use rca_operator.Controller.Transitions.{healthy_resolve_window}
use rca_operator.Controller.State.{Result, failed, notification, Reconciler, State, set_world, send}
use rca_operator.Incident.Report.{IncidentReport}
use rca_operator.Incident.Status.{phase_active}
use rca_operator.Reporter.Api.{Api, ApiLaws}
use rca_operator.Reporter.Evolution.{stays, Evolves-trans}
use rca_operator.Reporter.Unique.{same_object_refl}
use rca_operator.Controller.Steps.{same, either, reread-Lives, unless_present-Lives}

module _ (api : Api) (laws : ApiLaws api) (r : Reconciler api) (law : FetchLaw api laws r) where
  pub active_idle-Lives : (now : ℕ) → Continues api laws r phase_active (active_idle api r now)
  unfolding active_idle
  active_idle-Lives now x s h =
      elim (Bool-cases (ltb now (last_confirmed api r now x + healthy_resolve_window))) [
        | inl early ↦ rw early (same api laws r law s)
        | inr due ↦ rw due (unless_present-Lives api laws r law now x _ _ s (same api laws r law s))
      ]

  -- the status patch of sendOpenNotifications
  notified-Continues :
      (k : IncidentReport → State api → State api × Result)
      → Continues api laws r phase_active k
      → Continues api laws r phase_active (λ x t.
        let notified : IncidentReport = record x { status = record x.status { notified = true } } in
        elim (api.patch_status notified t.world) [
          | none ↦ (t, failed)
          | some v ↦ k notified (set_world api v t)
        ])
  notified-Continues k c x t h =
      let m : IncidentReport = record x { status = record x.status { notified = true } } in
      elim (Option-cases (api.patch_status m t.world)) [
        | inl refused ↦ rw refused (same api laws r law t)
        | inr (w, sent) ↦
            let (evolves, stored) =
              patched-IsStored api laws r phase_active x m t w h (same_object_refl x)
                (rw (same_object_refl x) refl) (stays refl) sent in
            rw sent (
              Evolves-trans (laws.reports t.world) (laws.reports w) _ evolves (
                c m (set_world api w t) (record {
                  member = stored.member;
                  distinct = stored.distinct;
                  in_phase = h.in_phase;
                })))
      ]

  mark_notified-Lives :
      (k : IncidentReport → State api → State api × Result)
      → Continues api laws r phase_active k
      → Continues api laws r phase_active (λ x s. mark_notified api r x k s)
  unfolding mark_notified
  mark_notified-Lives k c x s h =
      let m : IncidentReport = record x {
        annotations = record x.annotations { open_sent = "true" };
      } in
      elim (Option-cases (api.patch m s.world)) [
        | inl refused ↦ rw (mark_notified, refused) (same api laws r law s)
        | inr (w, sent) ↦
            let (evolves, stored) =
              marked-IsStored api laws r phase_active x m s w h (same_object_refl x)
                (rw (same_object_refl x) refl) refl refl refl sent in
            rw (mark_notified, sent)
              (Evolves-trans (laws.reports s.world) (laws.reports w) _ evolves (
                reread-Lives api laws r law phase_active failed x _ (set_world api w s)
                  (λ y e.
                    fetched-IsStored api laws r phase_active m y (set_world api w s) law stored e)
                  (notified-Continues k c)))
      ]

  send_open_notifications-Lives :
      (k : IncidentReport → State api → State api × Result)
      → Continues api laws r phase_active k
      → Continues api laws r phase_active (λ x s. send_open_notifications api r x k s)
  unfolding send_open_notifications
  send_open_notifications-Lives k c x s h = elim (Option-cases r.notifier) [
    | inl absent ↦ rw (send_open_notifications, absent) (c x s h)
    | inr (notify, given) ↦ elim (Bool-cases (notify "trigger" x)) [
      | inr refused ↦ rw (send_open_notifications, given, refused) (same api laws r law s)
      | inl accepted ↦
          rw (send_open_notifications, given, accepted)
            (mark_notified-Lives k c x (send api (notification "trigger" x) s)
              (record { member = h.member; distinct = h.distinct; in_phase = h.in_phase }))
    ]
  ]

  pub active_announced-Lives :
      (now : ℕ) → Continues api laws r phase_active (active_announced api r now)
  unfolding active_announced
  active_announced-Lives now x s h =
      either api laws r law s x.status.notified _ _ (active_idle-Lives now x s h)
        (send_open_notifications-Lives (active_idle api r now) (active_idle-Lives now) x s h)
