-- ===== src/Agent/Orphans.antt =====
-- What resolveOrphanedIncidents of internal/controller/rcaagent_controller.go does to the stored
-- reports.
use rca_operator.Base.{
  ℕ, ◌≡◌, refl, sym, subst, Bool, true, false, inl, inr, Option, none, some, List, Bool-cases,
}
use rca_operator.Base.Members.{All-within}
use rca_operator.Incident.Report.{IncidentReport}
use rca_operator.Incident.Status.{phase_resolved, mark_resolved}
use rca_operator.Reporter.Api.{Api, ApiLaws}
use rca_operator.Reporter.Evolution.{Evolves, Evolves-refl, Evolves-trans}
use rca_operator.Reporter.Evolution.Patches.{resolving-Evolves}
use rca_operator.Agent.{
  Agent, AgentCalls, Progress, begun, after_write, is_orphaned, resolve_orphan,
  retention_namespaces, resolve_orphaned_incidents,
}
use rca_operator.Agent.Loops.{over_known-keeps}

module _ (api : Api) (laws : ApiLaws api) where
  after_write-Evolves :
      (l : List IncidentReport) (m : IncidentReport) (o : Option api.World) (gone : Bool)
      (p : Progress api) (w : api.World)
      → api.patch_status m w ≡ o
      → p.world ≡ w
      → m.status.phase ≡ phase_resolved
      → Evolves l (laws.reports w)
      → Evolves l (laws.reports (after_write api o gone p).world)
  unfolding after_write
  after_write-Evolves l m none true p w e f closed h = rw f h
  after_write-Evolves l m none false p w e f closed h = rw f h
  after_write-Evolves l m (some w') gone p w e f closed h =
      Evolves-trans l (laws.reports w) (laws.reports w') h (
        subst (Evolves (laws.reports w)) (sym (laws.patch_status_law m w w' e))
          (resolving-Evolves (laws.reports w) m closed))

  module _ (calls : AgentCalls api) (agent : Agent) (now : ℕ) where
    resolve_orphan-Evolves :
        (l : List IncidentReport) (r : IncidentReport) (p : Progress api)
        → Evolves l (laws.reports p.world)
        → Evolves l (laws.reports (resolve_orphan api calls agent now r p).world)
    unfolding resolve_orphan mark_resolved
    resolve_orphan-Evolves l r p h = elim (Bool-cases (is_orphaned api calls agent now r p.world)) [
      | inl e ↦ rw e (after_write-Evolves l _ _ _ _ p.world refl refl refl h)
      | inr e ↦ rw e h
    ]

    -- The check for orphaned reports only resolves, whatever calls fail: no report is lost, created or
    -- renamed, none gets another spec or other labels, and no resolved report is opened.
    pub resolve_orphaned_incidents-Evolves :
        (w : api.World)
        → Evolves
            (laws.reports w)
            (laws.reports (resolve_orphaned_incidents api calls agent now w).world)
    unfolding resolve_orphaned_incidents
    resolve_orphaned_incidents-Evolves w =
        over_known-keeps api (λ v. Evolves (laws.reports w) (laws.reports v)) (λ r. Unit)
          (resolve_orphan api calls agent now) (λ ns v l h e. All-within (λ r. Unit) l (λ r m. tt))
          (λ r p q h. resolve_orphan-Evolves (laws.reports w) r p h)
          (retention_namespaces api calls agent now w) (begun api w) (Evolves-refl (laws.reports w))
