-- ===== src/Controller/Paths.antt =====
-- The ways that Reconcile of internal/controller/incidentreport_controller.go takes to the last step
-- of a phase.
use rca_operator.Base.{
  ℕ, String, ◌≡◌, ◌⊎◌, refl, ◌∙◌, Bool, true, false, if◌then◌else◌, Option, some, none, Bool-cases,
  Option-cases, inl, inr,
}
use rca_operator.Controller.Cluster.{Cluster, incident_still_present}
use rca_operator.Controller.Lifecycle.{FetchLaw, IsStored, patched-IsStored, marked-IsStored}
use rca_operator.Controller.Reconcile.{
  active_idle, mark_notified, send_open_notifications, active_announced,
}
use rca_operator.Controller.State.{
  Result, failed, done, notification, Reconciler, State, set_world, send,
}
use rca_operator.Controller.Steps.{Lookup-cases}
use rca_operator.Controller.Transitions.{with_graph, is_empty_graph, reread, ensure_incident_graph}
use rca_operator.Incident.Report.{IncidentReport}
use rca_operator.Incident.Status.{phase_active}
use rca_operator.Reporter.Api.{Api, ApiLaws}
use rca_operator.Reporter.Evolution.{stays, IsDistinct-one}
use rca_operator.Reporter.Unique.{same_object_refl}

-- What a report says that decides about its end: its object, its instants and windows, and whether
-- the cluster shows the problem (none: that is not known).
pub record Facts : Type 0 where
  pub namespace : String
  pub name : String
  pub phase : String
  pub first_observed_at : Option ℕ
  pub start_time : Option ℕ
  pub last_observed_at : Option ℕ
  pub last_seen : String
  pub stabilization_window_seconds : ℕ
  pub present : Option Bool

abbrev pub facts : Cluster → IncidentReport → Facts
facts cluster x = record {
  namespace = x.namespace;
  name = x.name;
  phase = x.status.phase;
  first_observed_at = x.status.first_observed_at;
  start_time = x.status.start_time;
  last_observed_at = x.status.last_observed_at;
  last_seen = x.annotations.last_seen;
  stabilization_window_seconds = x.status.stabilization_window_seconds;
  present = incident_still_present cluster x;
}

module _ (api : Api) (laws : ApiLaws api) (r : Reconciler api) where
  -- a stored report in the phase that says the same as x
  pub record IsLike (phase : String) (x y : IncidentReport) (s : State api) : Type 0 where
    pub stored : IsStored api laws r phase y s
    pub alike : facts r.cluster y ≡ facts r.cluster x

  -- The work ended before its last step, or it is the last step at a report that says the same.
  abbrev pub Outcome :
      String
      → IncidentReport
      → (IncidentReport → State api → State api × Result)
      → State api × Result
      → Type 0
  Outcome phase x k p =
      ((y : IncidentReport) × IsLike phase x y p.0)
      ⊎ ((y : IncidentReport) × ((t : State api) × (IsLike phase x y t × (p ≡ k y t))))

  IsLike-trans :
      (phase : String) (x y z : IncidentReport) (s : State api)
      → facts r.cluster y ≡ facts r.cluster x
      → IsLike phase y z s
      → IsLike phase x z s
  IsLike-trans phase x y z s e h = record { stored = h.stored; alike = h.alike ∙ e }

  Outcome-from :
      (phase : String) (x y : IncidentReport) (k : IncidentReport → State api → State api × Result)
      (p : State api × Result)
      → facts r.cluster y ≡ facts r.cluster x
      → Outcome phase y k p
      → Outcome phase x k p
  Outcome-from phase x y k p e (inl (z, h)) = inl (z, IsLike-trans phase x y z p.0 e h)
  Outcome-from phase x y k p e (inr (z, (t, (h, q)))) =
      inr (z, (t, (IsLike-trans phase x y z t e h, q)))

  -- one work after the other
  Outcome-then :
      (phase : String) (x : IncidentReport) (j k : IncidentReport → State api → State api × Result)
      (p : State api × Result)
      → Outcome phase x j p
      → ((y : IncidentReport) (t : State api) → IsLike phase x y t → Outcome phase x k (j y t))
      → Outcome phase x k p
  Outcome-then phase x j k p (inl ended) h = inl ended
  Outcome-then phase x j k p (inr (y, (t, (like, e)))) h = rw e (h y t like)

  either_Outcome :
      (phase : String) (x : IncidentReport) (k : IncidentReport → State api → State api × Result)
      (b : Bool) (p q : State api × Result)
      → Outcome phase x k p
      → Outcome phase x k q
      → Outcome phase x k (if b then p else q)
  either_Outcome phase x k true p q h j = h
  either_Outcome phase x k false p q h j = j

  module _ (law : FetchLaw api laws r) where
    reread-Outcome :
        (phase : String) (absence : Result) (x : IncidentReport)
        (k : IncidentReport → State api → State api × Result) (s : State api)
        → IsStored api laws r phase x s
        → Outcome phase x k (reread api r absence x k s)
    unfolding reread
    reread-Outcome phase absence x k s h =
        elim (Lookup-cases (r.fetch x.namespace x.name s.world)) [
          | inl e ↦ rw (reread, e) (inl (x, record { stored = h; alike = refl }))
          | inr rest ↦ elim rest [
            | inl e ↦ rw (reread, e) (inl (x, record { stored = h; alike = refl }))
            | inr (y, e) ↦
                let (m, ns, name) = law x.namespace x.name s.world y e in
                let one : y ≡ x =
                  IsDistinct-one (laws.reports s.world) y x h.distinct m h.member
                    (rw (ns, name) (same_object_refl x)) in
                rw (reread, e, one) (inr (x, (s, (record { stored = h; alike = refl }, refl))))
          ]
        ]

    pub ensure_incident_graph-Outcome :
        (phase : String) (x : IncidentReport) (k : IncidentReport → State api → State api × Result)
        (s : State api)
        → IsStored api laws r phase x s
        → Outcome phase x k (ensure_incident_graph api r x k s)
    unfolding ensure_incident_graph reread incident_still_present
    ensure_incident_graph-Outcome phase x k s h =
        let here : IsLike phase x x s = record { stored = h; alike = refl } in
        elim (Bool-cases (is_empty_graph x.status.incident_graph)) [
          | inr has_graph ↦ rw (ensure_incident_graph, has_graph) (inr (x, (s, (here, refl))))
          | inl no_graph ↦ elim (Option-cases (r.build_graph x)) [
            | inl unbuilt ↦
                rw (ensure_incident_graph, no_graph, unbuilt) (inr (x, (s, (here, refl))))
            | inr (raw, built) ↦
                let m = with_graph (some raw) x in
                elim (Option-cases (api.patch_status m s.world)) [
                  | inl refused ↦
                      rw (ensure_incident_graph, no_graph, built, refused) (inl (x, here))
                  | inr (w, sent) ↦
                      let stored =
                        (patched-IsStored api laws r phase x m s w h (same_object_refl x)
                          (rw (same_object_refl x) refl) (stays refl) sent).1 in
                      rw (ensure_incident_graph, no_graph, built, sent)
                        (Outcome-from phase x m k _ refl (
                          reread-Outcome phase done m k (set_world api w s) (record {
                            member = stored.member;
                            distinct = stored.distinct;
                            in_phase = h.in_phase;
                          })))
                ]
          ]
        ]

    -- the status patch of sendOpenNotifications
    notified-Outcome :
        (x : IncidentReport) (k : IncidentReport → State api → State api × Result) (t : State api)
        → IsStored api laws r phase_active x t
        → let m : IncidentReport = record x { status = record x.status { notified = true } } in
          Outcome phase_active x k (elim (api.patch_status m t.world) [
            | none ↦ (t, failed)
            | some v ↦ k m (set_world api v t)
          ])
    unfolding incident_still_present
    notified-Outcome x k t h =
        let m : IncidentReport = record x { status = record x.status { notified = true } } in
        elim (Option-cases (api.patch_status m t.world)) [
          | inl refused ↦ rw refused (inl (x, record { stored = h; alike = refl }))
          | inr (w, sent) ↦
              let stored =
                (patched-IsStored api laws r phase_active x m t w h (same_object_refl x)
                  (rw (same_object_refl x) refl) (stays refl) sent).1 in
              rw sent (
                inr (
                  m,
                  (
                    set_world api w t,
                    (
                      record {
                        stored = record {
                          member = stored.member;
                          distinct = stored.distinct;
                          in_phase = h.in_phase;
                        };
                        alike = refl;
                      },
                      refl,
                    ),
                  ),
                ))
        ]

    mark_notified-Outcome :
        (x : IncidentReport) (k : IncidentReport → State api → State api × Result) (s : State api)
        → IsStored api laws r phase_active x s
        → Outcome phase_active x k (mark_notified api r x k s)
    unfolding mark_notified reread incident_still_present
    mark_notified-Outcome x k s h =
        let m : IncidentReport = record x {
          annotations = record x.annotations { open_sent = "true" };
        } in
        elim (Option-cases (api.patch m s.world)) [
          | inl refused ↦ rw (mark_notified, refused) (inl (x, record { stored = h; alike = refl }))
          | inr (w, sent) ↦
              let stored =
                (marked-IsStored api laws r phase_active x m s w h (same_object_refl x)
                  (rw (same_object_refl x) refl) refl refl refl sent).1 in
              rw (mark_notified, sent)
                (Outcome-from phase_active x m k _ refl (
                  Outcome-then phase_active m _ k _
                    (reread-Outcome phase_active failed m _ (set_world api w s) stored)
                    (λ y t like.
                      Outcome-from phase_active m y k _ like.alike
                        (notified-Outcome y k t like.stored))))
        ]

    send_open_notifications-Outcome :
        (now : ℕ) (x : IncidentReport) (s : State api)
        → IsStored api laws r phase_active x s
        → Outcome phase_active x
            (active_idle api r now)
            (send_open_notifications api r x (active_idle api r now) s)
    unfolding send_open_notifications
    send_open_notifications-Outcome now x s h = by_notifier r.notifier
      where
        here : IsLike phase_active x x s
        here = record { stored = h; alike = refl }

        by_notifier :
            (o : Option (String → IncidentReport → Bool))
            → Outcome phase_active x (active_idle api r now) (elim o [
              | none ↦ active_idle api r now x s
              | some notify ↦
                  if notify "trigger" x
                  then mark_notified api r x
                      (active_idle api r now)
                      (send api (notification "trigger" x) s)
                  else (s, failed)
            ])
        by_notifier none = inr (x, (s, (here, refl)))
        by_notifier (some notify) =
            either_Outcome phase_active x (active_idle api r now) (notify "trigger" x) _ _
              (mark_notified-Outcome x (active_idle api r now)
                (send api (notification "trigger" x) s)
                (record { member = h.member; distinct = h.distinct; in_phase = h.in_phase }))
              (inl (x, here))

    active_announced-Outcome :
        (now : ℕ) (x : IncidentReport) (s : State api)
        → IsStored api laws r phase_active x s
        → Outcome phase_active x (active_idle api r now) (active_announced api r now x s)
    unfolding active_announced
    active_announced-Outcome now x s h =
        either_Outcome phase_active x (active_idle api r now) x.status.notified _ _
          (inr (x, (s, (record { stored = h; alike = refl }, refl))))
          (send_open_notifications-Outcome now x s h)

    -- what is announced comes after the graph
    pub reconcile_active-Outcome :
        (now : ℕ) (x : IncidentReport) (s : State api)
        → IsStored api laws r phase_active x s
        → Outcome phase_active x
            (active_idle api r now)
            (ensure_incident_graph api r x (active_announced api r now) s)
    reconcile_active-Outcome now x s h =
        Outcome-then phase_active x (active_announced api r now) (active_idle api r now) _
          (ensure_incident_graph-Outcome phase_active x (active_announced api r now) s h)
          (λ y t like.
            Outcome-from phase_active x y (active_idle api r now) _ like.alike
              (active_announced-Outcome now y t like.stored))
