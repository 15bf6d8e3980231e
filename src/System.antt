-- ===== src/System.antt =====
-- The operator as a whole: signals, pods, the retention and reconciliations in any
-- order, each with the state in memory that it happens to have, so that restarts of
-- the operator are among the runs.
use rca_operator.Base.{ℕ, String, ◌≡◌, ◌≢◌, All, subst, sym}
use rca_operator.Agent.{
  Agent, AgentCalls, resolve_orphaned_incidents, cleanup_resolved_incidents,
  prune_stale_incident_graphs,
}
use rca_operator.Agent.Kept.{DeleteLaw, cleanup-IsHealthy}
use rca_operator.Agent.Graphs.{prune_stale_incident_graphs-Evolves}
use rca_operator.Agent.Orphans.{resolve_orphaned_incidents-Evolves}
use rca_operator.Reporter.Evolution.Patches.{evolution-IsSound}
use rca_operator.Consumer.{Environment, Consumer, handle_event}
use rca_operator.Consumer.Handling.{PassesPlain, handle_event-IsHealthy}
use rca_operator.Controller.Lifecycle.{FetchLaw}
use rca_operator.Controller.Phases.{reconcile-Evolves, reconcile-IsSound}
use rca_operator.Controller.Reconcile.{reconcile}
use rca_operator.Controller.State.{Reconciler, State as ControllerState}
use rca_operator.Incident.Input.{Input, fingerprint}
use rca_operator.Reporter.Api.{Api, ApiLaws}
use rca_operator.Reporter.Consolidate.{consolidate}
use rca_operator.Reporter.Consolidate.Quiet.{HasPlainNamespace, consolidate-world}
use rca_operator.Reporter.Distinct.{ensure_signal-IsDistinct}
use rca_operator.Reporter.Ensure.{ensure_signal}
use rca_operator.Reporter.Evolution.{IsDistinct-Evolves}
use rca_operator.Reporter.Evolution.Closing.{
  resolve_for_deleted_pod-Evolves, resolve_for_healthy_pod-Evolves, resolve_for_pods-IsSound,
}
use rca_operator.Reporter.Fingerprint.{strip_legacy_type}
use rca_operator.Reporter.Resolve.{PodLookup, resolve_for_healthy_pod, resolve_for_deleted_pod}
use rca_operator.Reporter.State.{State as ReporterState}
use rca_operator.Reporter.Healthy.{IsHealthy}
use rca_operator.RuleEngine.Rule.{Std}
use rca_operator.Watcher.Event.{Event}
use rca_operator.Reporter.Unique.Ensure.{ensure_signal-IsSound}
use rca_operator.Reporter.Write.{Platform}

module _ (api : Api) (laws : ApiLaws api) (platform : Platform) (std : Std) (r : Reconciler api)
    (law : FetchLaw api laws r) where
  -- The worlds that the operator reaches from `start`.
  pub data Reaches (start : api.World) : api.World → Type 0 where
    begins : Reaches start start
    signal :
        (now : ℕ) (input : Input) (s : ReporterState api)
        → fingerprint input ≢ ""
        → strip_legacy_type (fingerprint input) ≡ fingerprint input
        → Reaches start s.world
        → Reaches start (ensure_signal api platform now input s).0.world
    handled :
        (env : Environment) (now : ℕ) (event : Event) (c : Consumer api std platform)
        → PassesPlain api laws std platform env now event c.engine
        → Reaches start c.reporter.world
        → Reaches start (handle_event api std platform env now event c).0.reporter.world
    pod_healthy :
        (now : ℕ) (found : PodLookup) (ns pod : String) (s : ReporterState api)
        → Reaches start s.world
        → Reaches start (resolve_for_healthy_pod api platform now found ns pod s).0.world
    pod_deleted :
        (now : ℕ) (ns pod : String) (s : ReporterState api)
        → Reaches start s.world
        → Reaches start (resolve_for_deleted_pod api now ns pod s).0.world
    consolidated :
        (now : ℕ) (s : ReporterState api)
        → All HasPlainNamespace (laws.reports s.world)
        → Reaches start s.world
        → Reaches start (consolidate api now s).0.world
    orphans_resolved :
        (calls : AgentCalls api) (agent : Agent) (now : ℕ) (w : api.World)
        → Reaches start w
        → Reaches start (resolve_orphaned_incidents api calls agent now w).world
    cleaned :
        (calls : AgentCalls api) (agent : Agent) (now : ℕ) (w : api.World)
        → DeleteLaw api laws calls
        → Reaches start w
        → Reaches start (cleanup_resolved_incidents api calls agent now w).world
    graphs_pruned :
        (calls : AgentCalls api) (agent : Agent) (now : ℕ) (w : api.World)
        → Reaches start w
        → Reaches start (prune_stale_incident_graphs api calls agent now w).world
    reconciled :
        (now : ℕ) (ns name : String) (s : ControllerState api)
        → Reaches start s.world
        → Reaches start (reconcile api r now ns name s).0.world

  -- Whatever comes in, signals that the consumer handles (whose identity, after the rule engine, has no
  -- part with a bar or with OTel in front), signals that are passed to the reporter (whose fingerprint
  -- is not empty and has no old OTel suffix), pods, consolidations (where no namespace has a slash),
  -- checks for orphaned reports, cleanups (with a deletion that removes one object), prunings of graphs
  -- and reconciliations (with a Get that returns stored reports), in any order and with any failures of
  -- the API server, the stored reports stay sound and distinct: there is one open report at most for
  -- each namespace and fingerprint.
  pub Reaches-IsHealthy :
      (start w : api.World)
      → Reaches start w
      → IsHealthy api laws platform start
      → IsHealthy api laws platform w
  Reaches-IsHealthy start w begins h = h
  Reaches-IsHealthy start w (signal now input s named bare run) h =
      let before = Reaches-IsHealthy start s.world run h in
      record {
        sound = ensure_signal-IsSound api laws platform now input s before.sound named bare;
        distinct = ensure_signal-IsDistinct api laws platform now input s before.distinct;
      }
  Reaches-IsHealthy start w (handled env now event c plain run) h =
      handle_event-IsHealthy api laws std platform env now event c plain
        (Reaches-IsHealthy start c.reporter.world run h)
  Reaches-IsHealthy start w (pod_healthy now found ns pod s run) h =
      let before = Reaches-IsHealthy start s.world run h in
      record {
        sound = (resolve_for_pods-IsSound api laws platform now found ns pod s before.sound).0;
        distinct =
            IsDistinct-Evolves (laws.reports s.world) _
              (resolve_for_healthy_pod-Evolves api laws platform now found ns pod s)
              before.distinct;
      }
  Reaches-IsHealthy start w (pod_deleted now ns pod s run) h =
      let before = Reaches-IsHealthy start s.world run h in
      record {
        sound =
            (resolve_for_pods-IsSound api laws platform now PodLookup.not_found ns pod s
              before.sound).1;
        distinct =
            IsDistinct-Evolves (laws.reports s.world) _
              (resolve_for_deleted_pod-Evolves api laws now ns pod s) before.distinct;
      }
  Reaches-IsHealthy start w (consolidated now s plain run) h =
      let before = Reaches-IsHealthy start s.world run h in
      subst (IsHealthy api laws platform)
        (sym (
          consolidate-world api laws platform.fingerprint_hash now s before.sound before.distinct
            plain))
        before
  Reaches-IsHealthy start w (orphans_resolved calls agent now v run) h =
      let before = Reaches-IsHealthy start v run h in
      let evolution = resolve_orphaned_incidents-Evolves api laws calls agent now v in
      record {
        sound =
            evolution-IsSound platform.fingerprint_hash (laws.reports v) _ evolution before.sound;
        distinct = IsDistinct-Evolves (laws.reports v) _ evolution before.distinct;
      }
  Reaches-IsHealthy start w (cleaned calls agent now v deletes run) h =
      cleanup-IsHealthy api laws calls deletes agent now platform v
        (Reaches-IsHealthy start v run h)
  Reaches-IsHealthy start w (graphs_pruned calls agent now v run) h =
      let before = Reaches-IsHealthy start v run h in
      let evolution =
        prune_stale_incident_graphs-Evolves api laws calls agent now v before.distinct in
      record {
        sound =
            evolution-IsSound platform.fingerprint_hash (laws.reports v) _ evolution before.sound;
        distinct = IsDistinct-Evolves (laws.reports v) _ evolution before.distinct;
      }
  Reaches-IsHealthy start w (reconciled now ns name s run) h =
      let before = Reaches-IsHealthy start s.world run h in
      record {
        sound =
            reconcile-IsSound api laws r law platform.fingerprint_hash now ns name s before.distinct
              before.sound;
        distinct =
            IsDistinct-Evolves (laws.reports s.world) _
              (reconcile-Evolves api laws r law now ns name s before.distinct) before.distinct;
      }
