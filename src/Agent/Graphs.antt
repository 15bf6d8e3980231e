-- ===== src/Agent/Graphs.antt =====
-- What pruneStaleIncidentGraphs of internal/controller/rcaagent_controller.go does to the stored
-- reports.
use mathlib.Core.List.{Memᴰ}
use mathlib.Core.List.Memᴰ.{of_map}
use rca_operator.Base.{
  ℕ, ◌≡◌, refl, sym, ap, subst, ◌∙◌, Bool, true, false, ◌&&◌, inl, inr, Option, none, some, List,
  [], ◌∷◌, map, nat_eq, Bool-cases, ◌==◌,
}
use rca_operator.Base.Members.{All-within, filter_by-Memᴰ}
use rca_operator.Incident.Report.{IncidentReport}
use rca_operator.Reporter.Api.{Api, ApiLaws, same_object, with_status}
use rca_operator.Reporter.Evolution.{
  stays, IsStep, Evolves, Evolves-refl, Evolves-trans, Evolves-map, IsDistinct, IsDistinct-one,
  step_same,
}
use rca_operator.Retention.{parse_incident_retention}
use rca_operator.Agent.{
  Agent, AgentCalls, Progress, begun, after_write, belongs_to_agent, loses_graph, graph_ttl,
  prune_graph, prune_with, retention_namespaces, prune_stale_incident_graphs,
}
use rca_operator.Agent.Loops.{over_known-keeps}

-- a report that was stored, in the phase that it had
record WasStored (l : List IncidentReport) (x' : IncidentReport) : Type 0 where
  origin : IncidentReport
  member : Memᴰ origin l
  step : IsStep origin x'
  phase : x'.status.phase ≡ origin.status.phase

record IsStill (l l' : List IncidentReport) : Type 0 where
  evolves : Evolves l l'
  stored : (x' : IncidentReport) → Memᴰ x' l' → WasStored l x'

module _ (l : List IncidentReport) (distinct : IsDistinct l) (r m : IncidentReport)
    (listed : WasStored l r) (place : m.namespace ≡ r.namespace) (title : m.name ≡ r.name)
    (same_phase : m.status.phase ≡ r.status.phase) where
  -- a stored object that is patched has the phase of the patch
  phase_kept :
      (x : IncidentReport)
      → WasStored l x
      → same_object x m ≡ true
      → m.status.phase ≡ x.status.phase
  phase_kept x s same =
      let own : same_object x r ≡ true = rw (sym place, sym title) same in
      let one : s.origin ≡ listed.origin =
        IsDistinct-one l s.origin listed.origin distinct s.member listed.member
          (sym (step_same s.origin x listed.origin r s.step listed.step) ∙ own) in
      same_phase ∙ listed.phase ∙ ap (λ z. z.status.phase) (sym one) ∙ sym s.phase

  patched_step :
      (x : IncidentReport)
      → WasStored l x
      → IsStep x (with_status m x) × ((with_status m x).status.phase ≡ x.status.phase)
  patched_step x s = elim (Bool-cases (same_object x m)) [
    | inl same ↦
        let e = phase_kept x s same in
        rw same (
          record { place = refl; title = refl; spec = refl; labels = refl; moves = stays (sym e) },
          e,
        )
    | inr other ↦ rw other (
      record { place = refl; title = refl; spec = refl; labels = refl; moves = stays refl },
      refl,
    )
  ]

  patch-IsStill : (l' : List IncidentReport) → IsStill l l' → IsStill l (map (with_status m) l')
  patch-IsStill l' h = record {
    evolves =
        Evolves-trans l l' (map (with_status m) l') h.evolves
          (Evolves-map (with_status m) l' (λ x k. (patched_step x (h.stored x k)).0));
    stored = λ x' k. image x' (of_map (with_status m) l' k);
  }
    where
      image :
          (x' : IncidentReport)
          → (x : IncidentReport) × Memᴰ x l' × (with_status m x ≡ x')
          → WasStored l x'
      image x' (x, k, e) =
          let s = h.stored x k in
          let (step, phase) = patched_step x s in
          subst (WasStored l) e (record {
            origin = s.origin;
            member = s.member;
            step =
                (Evolves-trans (s.origin ∷ []) (x ∷ []) (with_status m x ∷ []) (s.step, tt)
                  (step, tt)).0;
            phase = phase ∙ s.phase;
          })

module _ (api : Api) (laws : ApiLaws api) (calls : AgentCalls api) (agent : Agent) (now : ℕ) where
  after_write-IsStill :
      (l : List IncidentReport) (r m : IncidentReport) (o : Option api.World) (gone : Bool)
      (p : Progress api)
      → api.patch_status m p.world ≡ o
      → IsDistinct l
      → WasStored l r
      → m.namespace ≡ r.namespace
      → m.name ≡ r.name
      → m.status.phase ≡ r.status.phase
      → IsStill l (laws.reports p.world)
      → IsStill l (laws.reports (after_write api o gone p).world)
  unfolding after_write
  after_write-IsStill l r m none true p e d s place title phase h = h
  after_write-IsStill l r m none false p e d s place title phase h = h
  after_write-IsStill l r m (some w) gone p e d s place title phase h =
      subst (IsStill l) (sym (laws.patch_status_law m p.world w e))
        (patch-IsStill l d r m s place title phase (laws.reports p.world) h)

  prune_graph-IsStill :
      (ttl : ℕ) (l : List IncidentReport) (r : IncidentReport) (p : Progress api)
      → IsDistinct l
      → WasStored l r
      → IsStill l (laws.reports p.world)
      → IsStill l (laws.reports (prune_graph api calls agent now ttl r p).world)
  unfolding prune_graph
  prune_graph-IsStill ttl l r p d s h =
      elim (Bool-cases (belongs_to_agent r agent.name && loses_graph now ttl r)) [
        | inl e ↦ rw e (after_write-IsStill l r _ _ _ p refl d s refl refl refl h)
        | inr e ↦ rw e h
      ]

  begun-IsStill : (w : api.World) → IsStill (laws.reports w) (laws.reports w)
  begun-IsStill w = record {
    evolves = Evolves-refl (laws.reports w);
    stored =
        λ x m. record { origin = x; member = m; step = (Evolves-refl (x ∷ [])).0; phase = refl };
  }

  prune_with-IsStill :
      (o : Option ℕ) (w : api.World)
      → IsDistinct (laws.reports w)
      → IsStill (laws.reports w) (laws.reports (prune_with api calls agent now o w).world)
  unfolding prune_with
  prune_with-IsStill none w d = begun-IsStill w
  prune_with-IsStill (some retention) w d = elim (Bool-cases (nat_eq (graph_ttl retention) 0)) [
    | inl e ↦ rw e (begun-IsStill w)
    | inr e ↦
        let l = laws.reports w in
        rw e (
          over_known-keeps api (λ v. IsStill l (laws.reports v)) (WasStored l)
            (prune_graph api calls agent now (graph_ttl retention))
            (λ ns v found h q. All-within (WasStored l) found (λ r m.
              h.stored r
                (filter_by-Memᴰ (λ x. x.namespace == ns) (laws.reports v) r
                  (subst (Memᴰ r) (laws.list_law ns v found q) m)).0))
            (λ r p s h. prune_graph-IsStill (graph_ttl retention) l r p d s h)
            (retention_namespaces api calls agent now w) (begun api w) (begun-IsStill w))
  ]

  -- Where the stored reports are distinct objects, the pruning of graphs keeps all of them with their
  -- names, specs and labels, whatever calls fail.
  pub prune_stale_incident_graphs-Evolves :
      (w : api.World)
      → IsDistinct (laws.reports w)
      → Evolves
          (laws.reports w)
          (laws.reports (prune_stale_incident_graphs api calls agent now w).world)
  unfolding prune_stale_incident_graphs
  prune_stale_incident_graphs-Evolves w d =
      (prune_with-IsStill
        (parse_incident_retention agent.incident_retention agent.incident_retention_days) w
        d).evolves
