-- ===== src/Controller/Lifecycle.antt =====
-- The lifecycle of the stored reports under Reconcile: one step after the other, each call of the
-- API server is an evolution of Reporter/Evolution.antt.
use Prim.Native.String.{String}
use mathlib.Core.List.{Memᴰ}
use rca_operator.Base.{
  ℕ, ◌≡◌, refl, sym, ap, subst, ◌∙◌, true, Option, some, none, List, [], ◌∷◌, map, Option-cases,
  inl, inr,
}
use rca_operator.Controller.Cluster.{got}
use rca_operator.Controller.Transitions.{
  with_graph, send_all, patch_status_to, transition_to_active, transition_to_resolved,
}
use rca_operator.Controller.State.{Result, done, Reconciler, State, set_world}
use rca_operator.Incident.Report.{IncidentReport}
use rca_operator.Incident.Status.{Metric, mark_active, mark_resolved, phase_detecting}
use rca_operator.Reporter.Api.{Api, ApiLaws, same_object, with_meta, with_status}
use rca_operator.Reporter.Evolution.{
  Moves, activates, Evolves, Evolves-refl, IsDistinct, IsDistinct-Evolves, IsDistinct-one,
}
use rca_operator.Reporter.Evolution.Patches.{patch-Evolves, patch_status-Evolves, resolving-Evolves}
use rca_operator.Reporter.Evolution.Pods.{map_member}
use rca_operator.Reporter.Unique.{same_object_refl}

module _ (api : Api) (laws : ApiLaws api) (r : Reconciler api) where
  -- Get returns a stored report of the name that is asked for.
  abbrev pub FetchLaw : Type 0
  FetchLaw =
      (ns name : String) (w : api.World) (x : IncidentReport)
      → r.fetch ns name w ≡ got x
      → Memᴰ x (laws.reports w) × (x.namespace ≡ ns) × (x.name ≡ name)

  -- The stored reports before and after.
  abbrev pub Lives : State api → State api × Result → Type 0
  Lives s p = Evolves (laws.reports s.world) (laws.reports p.0.world)

  -- A report as it is stored, and reports that are distinct objects.
  pub record IsStored (phase : String) (x : IncidentReport) (s : State api) : Type 0 where
    pub member : Memᴰ x (laws.reports s.world)
    pub distinct : IsDistinct (laws.reports s.world)
    pub in_phase : x.status.phase ≡ phase

  -- What follows a step keeps the lifecycle for a stored report of the phase.
  abbrev pub Continues : String → (IncidentReport → State api → State api × Result) → Type 0
  Continues phase k = (x : IncidentReport) (s : State api) → IsStored phase x s → Lives s (k x s)

  pub send_all-world : (ms : List Metric) (s : State api) → (send_all api r ms s).world ≡ s.world
  send_all-world [] s = refl
  send_all-world (m ∷ ms) s = send_all-world ms _

  -- a stored report is what Get returns for its name
  pub fetched-IsStored :
      (phase : String) (x y : IncidentReport) (s : State api)
      → FetchLaw
      → IsStored phase x s
      → r.fetch x.namespace x.name s.world ≡ got y
      → IsStored phase y s
  fetched-IsStored phase x y s law h e =
      let (m, ns, name) = law x.namespace x.name s.world y e in
      let same : same_object y x ≡ true = rw (ns, name) (same_object_refl x) in
      let k = IsDistinct-one (laws.reports s.world) y x h.distinct m h.member same in
      subst (λ z. IsStored phase z s) (sym k) h

  -- a status patch of a stored report
  pub patched-IsStored :
      (phase : String) (x m : IncidentReport) (s : State api) (w : api.World)
      → IsStored phase x s
      → same_object x m ≡ true
      → with_status m x ≡ m
      → Moves x.status.phase m.status.phase
      → api.patch_status m s.world ≡ some w
      → Evolves (laws.reports s.world) (laws.reports w)
        × IsStored m.status.phase m (set_world api w s)
  patched-IsStored phase x m s w h same e moves sent =
      let l = laws.reports s.world in
      let k = laws.patch_status_law m s.world w sent in
      let evolves : Evolves l (laws.reports w) =
        rw k (patch_status-Evolves l x m h.distinct h.member same moves) in
      (
        evolves,
        record {
          member =
              rw k (
                subst (λ z. Memᴰ z (map (with_status m) l)) e
                  (map_member (with_status m) h.member));
          distinct = IsDistinct-Evolves l (laws.reports w) evolves h.distinct;
          in_phase = refl;
        },
      )

  -- a patch of the annotations of a stored report
  pub marked-IsStored :
      (phase : String) (x m : IncidentReport) (s : State api) (w : api.World)
      → IsStored phase x s
      → same_object x m ≡ true
      → with_meta m x ≡ m
      → m.spec ≡ x.spec
      → m.labels ≡ x.labels
      → m.status ≡ x.status
      → api.patch m s.world ≡ some w
      → Evolves (laws.reports s.world) (laws.reports w) × IsStored phase m (set_world api w s)
  marked-IsStored phase x m s w h same e spec labels status sent =
      let l = laws.reports s.world in
      let k = laws.patch_law m s.world w sent in
      let evolves : Evolves l (laws.reports w) =
        rw k (patch-Evolves l x m h.distinct h.member same spec labels) in
      (
        evolves,
        record {
          member =
              rw k
                (subst (λ z. Memᴰ z (map (with_meta m) l)) e (map_member (with_meta m) h.member));
          distinct = IsDistinct-Evolves l (laws.reports w) evolves h.distinct;
          in_phase = ap (λ z. z.phase) status ∙ h.in_phase;
        },
      )

  patch_status_to-Lives :
      (m : IncidentReport) (ok : Result) (s : State api)
      → Evolves (laws.reports s.world) (map (with_status m) (laws.reports s.world))
      → Lives s (patch_status_to api r m ok s)
  unfolding patch_status_to
  patch_status_to-Lives m ok s h = elim (Option-cases (api.patch_status m s.world)) [
    | inl refused ↦ rw (patch_status_to, refused) (Evolves-refl (laws.reports s.world))
    | inr (w, sent) ↦ rw (patch_status_to, sent, laws.patch_status_law m s.world w sent) h
  ]

  -- a state with the same world
  Lives-at : (s t : State api) (p : State api × Result) → t.world ≡ s.world → Lives t p → Lives s p
  Lives-at s t p e h = subst (λ w. Evolves (laws.reports w) (laws.reports p.0.world)) e h

  pub transition_to_resolved-Lives :
      (now : ℕ) (x : IncidentReport) (reason : String) (s : State api)
      → Lives s (transition_to_resolved api r now x reason s)
  unfolding transition_to_resolved mark_resolved
  transition_to_resolved-Lives now x reason s =
      let t = send_all api r (mark_resolved x now reason).1 s in
      Lives-at s t (transition_to_resolved api r now x reason s)
        (send_all-world (mark_resolved x now reason).1 s)
        (patch_status_to-Lives (mark_resolved x now reason).0 done t
          (resolving-Evolves (laws.reports t.world) (mark_resolved x now reason).0 refl))

  pub with_graph_object :
      (o : Option String) (m : IncidentReport)
      → ((with_graph o m).namespace ≡ m.namespace)
        × ((with_graph o m).name ≡ m.name)
        × ((with_graph o m).status.phase ≡ m.status.phase)
  with_graph_object none m = (refl, refl, refl)
  with_graph_object (some raw) m = (refl, refl, refl)

  pub transition_to_active-Lives :
      (now : ℕ) → Continues phase_detecting (transition_to_active api r now)
  unfolding transition_to_active mark_active
  transition_to_active-Lives now x s h =
      let reason : String = "Incident confirmed active after stabilisation period" in
      let marked = mark_active x now reason in
      let m = with_graph (r.build_graph marked.0) marked.0 in
      let t = send_all api r marked.1 s in
      let e = send_all-world marked.1 s in
      let (ns, name, phase) = with_graph_object (r.build_graph marked.0) marked.0 in
      Lives-at s t (transition_to_active api r now x s) e (
        patch_status_to-Lives m _ t (
          subst (λ w. Evolves (laws.reports w) (map (with_status m) (laws.reports w))) (sym e)
            (patch_status-Evolves (laws.reports s.world) x m h.distinct h.member
              (rw (ns, name) (same_object_refl x)) (activates h.in_phase phase))))
