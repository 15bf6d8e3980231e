-- ===== src/Controller/Closing.antt =====
-- When Reconcile of internal/controller/incidentreport_controller.go resolves an incident.
use mathlib.Core.List.{Memᴰ}
use rca_operator.Base.{
  ℕ, ◌+◌, ◌≡◌, ◌≢◌, refl, subst, Option, some, none, ltb, ltb→ge, inl, inr, arith, ◌==◌, eq→path,
}
use rca_operator.Controller.Cluster.{Lookup, unavailable, missing, got}
use rca_operator.Controller.Lifecycle.{FetchLaw}
use rca_operator.Controller.Paths.{
  facts, IsLike, ensure_incident_graph-Outcome, reconcile_active-Outcome,
}
use rca_operator.Controller.Reconcile.{
  detecting_since, last_confirmed, active_idle, reconcile_detecting, reconcile_active,
  reconcile_report, reconcile,
}
use rca_operator.Controller.State.{Result, Reconciler, State}
use rca_operator.Controller.Transitions.{
  healthy_resolve_window, transition_to_active, last_seen, within, stabilization_window,
}
use rca_operator.Incident.Report.{IncidentReport}
use rca_operator.Incident.Status.{
  effective_start_time, phase_detecting, phase_active, phase_resolved,
}
use rca_operator.Reporter.Api.{Api, ApiLaws}
use rca_operator.Reporter.Evolution.{IsDistinct, IsDistinct-one}
use rca_operator.Reporter.Unique.{same_object_refl}
use rca_operator.Controller.Silence.{
  MayClose, StartCase, seen, started, stabilization_window-IsWindow, last_confirmed-cases,
}
use rca_operator.Controller.Open.{
  IsResolvedIn, unless_present_closes, resolved_if, like-open, active_open, detecting_open,
  transition_to_active_open, unseen_since, stays_open,
}

module _ (api : Api) (laws : ApiLaws api) (r : Reconciler api) where
  active_idle_closes :
      (now : ℕ) (x y : IncidentReport) (s : State api)
      → IsLike api laws r phase_active x y s
      → IsResolvedIn api laws r x (active_idle api r now y s).0.world
      → MayClose r.parse_rfc3339 now (facts r.cluster y)
  unfolding active_idle
  active_idle_closes now x y s like h =
      let open_before = like-open api laws r phase_active x y s (active_open api laws r) like in
      elim (resolved_if api laws r x (ltb now (last_confirmed api r now y + healthy_resolve_window))
        _ _ h) [
          | inl (early, k) ↦ absurd (open_before k)
          | inr (due, k) ↦ (
            unless_present_closes api laws r now x y _ _ s open_before open_before k,
            inr (elim (last_confirmed-cases api r now y) [
              | inl confirmed ↦ record {
                active = like.stored.in_phase;
                last = last_confirmed api r now y;
                confirmed = confirmed;
                idle = ltb→ge _ _ due;
              }
              | inr at_once ↦ absurd (ground (arith, due, at_once))
            ]),
          )
        ]

  detecting_since_closes :
      (now : ℕ) (x y : IncidentReport) (o : Option ℕ) (s : State api)
      → StartCase api r (facts r.cluster y) o
      → IsLike api laws r phase_detecting x y s
      → IsResolvedIn api laws r x (detecting_since api r now y o s).0.world
      → MayClose r.parse_rfc3339 now (facts r.cluster y)
  unfolding detecting_since
  detecting_since_closes now x y none s start like h =
      absurd (transition_to_active_open api laws r now x y s like h)
  detecting_since_closes now x y (some first) s start like h =
      let open_before =
        like-open api laws r phase_detecting x y s (detecting_open api laws r) like in
      let open_after = transition_to_active_open api laws r now x y s like in
      let window = stabilization_window y in
      elim (resolved_if api laws r x (ltb now (first + window)) _ _ h) [
        | inl (early, k) ↦ absurd (open_before k)
        | inr (due, k) ↦
            elim (resolved_if api laws r x (within window now (last_seen api r y)) _ _ k) [
              | inl (signalled, j) ↦ absurd (open_after j)
              | inr (unseen, j) ↦ (
                unless_present_closes api laws r now x y _ (transition_to_active api r now y) s
                    open_before open_after j,
                inl (record {
                  detecting = like.stored.in_phase;
                  first = first;
                  window = window;
                  started = start;
                  windowed = stabilization_window-IsWindow api r y;
                  over = ltb→ge _ _ due;
                  unseen =
                      unseen_since api laws r (facts r.cluster y) (last_seen api r y) window now
                        (seen api r y) unseen;
                }),
              )
            ]
      ]

  module _ (law : FetchLaw api laws r) where
    reconcile_report_closes :
        (now : ℕ) (x : IncidentReport) (s : State api)
        → IsDistinct (laws.reports s.world)
        → Memᴰ x (laws.reports s.world)
        → x.status.phase ≢ "Resolved"
        → IsResolvedIn api laws r x (reconcile_report api r now x s).0.world
        → MayClose r.parse_rfc3339 now (facts r.cluster x)
    unfolding reconcile_report reconcile_detecting reconcile_active
    reconcile_report_closes now x s d m opened h =
        elim (resolved_if api laws r x (x.status.phase == phase_detecting) _ _ h) [
          | inl (e, k) ↦
              elim (ensure_incident_graph-Outcome api laws r law phase_detecting x
                (λ y. detecting_since api r now y (effective_start_time y.status)) s
                (record { member = m; distinct = d; in_phase = eq→path _ _ e })) [
                  | inl (y, like) ↦ absurd (
                      like-open api laws r phase_detecting x y _ (detecting_open api laws r) like k)
                  | inr (y, (t, (like, q))) ↦ subst (MayClose r.parse_rfc3339 now) like.alike (
                      detecting_since_closes now x y (effective_start_time y.status) t
                        (started api r y) like
                        (subst (λ p. IsResolvedIn api laws r x p.0.world) q k))
                ]
          | inr (_, k) ↦ elim (resolved_if api laws r x (x.status.phase == phase_active) _ _ k) [
            | inl (e, j) ↦
                elim (reconcile_active-Outcome api laws r law now x s
                  (record { member = m; distinct = d; in_phase = eq→path _ _ e })) [
                    | inl (y, like) ↦
                        absurd
                          (like-open api laws r phase_active x y _ (active_open api laws r) like j)
                    | inr (y, (t, (like, q))) ↦ subst (MayClose r.parse_rfc3339 now) like.alike (
                        active_idle_closes now x y t like
                          (subst (λ p. IsResolvedIn api laws r x p.0.world) q j))
                  ]
            | inr (_, j) ↦
                elim (resolved_if api laws r x (x.status.phase == phase_resolved) _ _ j) [
                  | inl (e, i) ↦ absurd (opened (eq→path _ _ e))
                  | inr (_, i) ↦ absurd (
                      stays_open api laws r x.status.phase x x s opened
                        (record { member = m; distinct = d; in_phase = refl }) refl refl i)
                ]
          ]
        ]

    -- Where the stored reports are distinct objects and Get returns a stored report of the name that
    -- is asked for, a reconciliation resolves an open report only in silence and where the cluster
    -- does not show its problem: a Detecting one only once its window is over, with no signal seen
    -- within the window, and an Active one only five minutes after the last instant that confirmed
    -- it. That instant is the last observation, or else the last signal seen, or else the start.
    pub reconcile_closes :
        (now : ℕ) (x : IncidentReport) (s : State api)
        → IsDistinct (laws.reports s.world)
        → Memᴰ x (laws.reports s.world)
        → x.status.phase ≢ "Resolved"
        → IsResolvedIn api laws r x (reconcile api r now x.namespace x.name s).0.world
        → MayClose r.parse_rfc3339 now (facts r.cluster x)
    unfolding reconcile
    reconcile_closes now x s d m opened h = by_fetch (r.fetch x.namespace x.name s.world) refl h
      where
        unchanged : ¬ IsResolvedIn api laws r x s.world
        unchanged =
            stays_open api laws r x.status.phase x x s opened
              (record { member = m; distinct = d; in_phase = refl }) refl refl

        by_fetch :
            (o : Lookup IncidentReport)
            → r.fetch x.namespace x.name s.world ≡ o
            → IsResolvedIn api laws r x
                (elim o as (λ x'. State api × Result) [
                  | unavailable ↦ (s, Result.failed)
                  | missing ↦ (s, Result.done)
                  | got y ↦ reconcile_report api r now y s
                ]).0.world
            → MayClose r.parse_rfc3339 now (facts r.cluster x)
        by_fetch unavailable e k = absurd (unchanged k)
        by_fetch missing e k = absurd (unchanged k)
        by_fetch (got y) e k =
            let (n, ns, name) = law x.namespace x.name s.world y e in
            let one : y ≡ x =
              IsDistinct-one (laws.reports s.world) y x d n m
                (rw (ns, name) (same_object_refl x)) in
            reconcile_report_closes now x s d m opened (
              subst (λ z. IsResolvedIn api laws r x (reconcile_report api r now z s).0.world) one k)
