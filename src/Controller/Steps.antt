-- ===== src/Controller/Steps.antt =====
-- The parts of Reconcile that its phases share: the stored reports only move forward over them.
use Prim.Native.String.{String}
use rca_operator.Base.{
  ℕ, ◌≡◌, ◌⊎◌, refl, Bool, true, false, Option, some, none, Bool-cases, Option-cases, inl, inr,
  if◌then◌else◌,
}
use rca_operator.Controller.Cluster.{Lookup, unavailable, missing, got, incident_still_present}
use rca_operator.Controller.Lifecycle.{
  FetchLaw, Lives, IsStored, Continues, fetched-IsStored, patched-IsStored,
  transition_to_resolved-Lives,
}
use rca_operator.Controller.Transitions.{
  with_graph, is_empty_graph, reread, ensure_incident_graph, unless_present,
}
use rca_operator.Controller.State.{Result, done, Reconciler, State, set_world}
use rca_operator.Incident.Report.{IncidentReport}
use rca_operator.Reporter.Api.{Api, ApiLaws}
use rca_operator.Reporter.Evolution.{stays, Evolves, Evolves-refl, Evolves-trans}
use rca_operator.Reporter.Unique.{same_object_refl}

pub Lookup-cases {ℓ} :
    {A : Type ℓ} (o : Lookup A) → (o ≡ unavailable) ⊎ ((o ≡ missing) ⊎ ((a : A) × (o ≡ got a)))
Lookup-cases unavailable = inl refl
Lookup-cases missing = inr (inl refl)
Lookup-cases (got a) = inr (inr (a, refl))

module _ (api : Api) (laws : ApiLaws api) (r : Reconciler api) (law : FetchLaw api laws r) where
  pub same : (s : State api) → Evolves (laws.reports s.world) (laws.reports s.world)
  same s = Evolves-refl (laws.reports s.world)

  pub either :
      (s : State api) (b : Bool) (p q : State api × Result)
      → Lives api laws r s p
      → Lives api laws r s q
      → Lives api laws r s (if b then p else q)
  either s true p q h k = h
  either s false p q h k = k

  pub reread-Lives :
      (phase : String) (absence : Result) (x : IncidentReport)
      (k : IncidentReport → State api → State api × Result) (s : State api)
      → ((y : IncidentReport)
          → r.fetch x.namespace x.name s.world ≡ got y
          → IsStored api laws r phase y s)
      → Continues api laws r phase k
      → Lives api laws r s (reread api r absence x k s)
  unfolding reread
  reread-Lives phase absence x k s h c = elim (Lookup-cases (r.fetch x.namespace x.name s.world)) [
    | inl e ↦ rw (reread, e) (same s)
    | inr rest ↦ elim rest [
      | inl e ↦ rw (reread, e) (same s)
      | inr (y, e) ↦ rw (reread, e) (c y s (h y e))
    ]
  ]

  pub ensure_incident_graph-Lives :
      (phase : String) (x : IncidentReport) (k : IncidentReport → State api → State api × Result)
      (s : State api)
      → IsStored api laws r phase x s
      → Continues api laws r phase k
      → Lives api laws r s (ensure_incident_graph api r x k s)
  unfolding ensure_incident_graph
  ensure_incident_graph-Lives phase x k s h c =
      elim (Bool-cases (is_empty_graph x.status.incident_graph)) [
        | inr has_graph ↦ rw (ensure_incident_graph, has_graph) (c x s h)
        | inl no_graph ↦ elim (Option-cases (r.build_graph x)) [
          | inl unbuilt ↦ rw (ensure_incident_graph, no_graph, unbuilt) (c x s h)
          | inr (raw, built) ↦
              elim (Option-cases (api.patch_status (with_graph (some raw) x) s.world)) [
                | inl refused ↦ rw (ensure_incident_graph, no_graph, built, refused) (same s)
                | inr (w, sent) ↦
                    let (evolves, stored) = stored_graph raw w sent in
                    rw (ensure_incident_graph, no_graph, built, sent)
                      (Evolves-trans (laws.reports s.world) (laws.reports w) _ evolves (
                        reread-Lives phase done x k (set_world api w s)
                          (λ y e.
                            fetched-IsStored api laws r phase (with_graph (some raw) x) y _ law
                              stored e)
                          c))
              ]
        ]
      ]
    where
      stored_graph :
          (raw : String) (w : api.World)
          → api.patch_status (with_graph (some raw) x) s.world ≡ some w
          → Evolves (laws.reports s.world) (laws.reports w)
            × IsStored api laws r phase (with_graph (some raw) x) (set_world api w s)
      stored_graph raw w sent =
          let (evolves, stored) =
            patched-IsStored api laws r phase x (with_graph (some raw) x) s w h (same_object_refl x)
              (rw (same_object_refl x) refl) (stays refl) sent in
          (
            evolves,
            record { member = stored.member; distinct = stored.distinct; in_phase = h.in_phase },
          )

  pub unless_present-Lives :
      (now : ℕ) (x : IncidentReport) (reason : String) (present : State api → State api × Result)
      (s : State api)
      → Lives api laws r s (present s)
      → Lives api laws r s (unless_present api r now x reason present s)
  unfolding unless_present
  unless_present-Lives now x reason present s h = decided (incident_still_present r.cluster x) refl
    where
      decided :
          (o : Option Bool)
          → incident_still_present r.cluster x ≡ o
          → Lives api laws r s (unless_present api r now x reason present s)
      decided none e = rw (unless_present, e) (same s)
      decided (some true) e = rw (unless_present, e) h
      decided (some false) e =
          rw (unless_present, e) (transition_to_resolved-Lives api laws r now x reason s)
