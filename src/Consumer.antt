-- ===== src/Consumer.antt =====
-- handleEvent of internal/correlator/consumer.go: a signal goes through the normalizer and the
-- enricher, the rule engine may override what it shows, and the reporter stores it. The buffer and
-- the reporter read the clock once, at one instant. A panic and the log are left out.
pub mod Identity
pub mod Handling
pub mod Opens
use rca_operator.Base.{ℕ, String, Option, none, some, List, [], ◌∷◌, ◌++◌, if◌then◌else◌, ◌==◌}
use rca_operator.Correlator.Engine.{CorrelationResult, no_result}
use rca_operator.Incident.Input.{Input}
use rca_operator.Incident.Resolver.{Objects}
use rca_operator.Incident.Resources.{merge_affected_resources}
use rca_operator.Reporter.Api.{Api}
use rca_operator.Reporter.Consolidate.{consolidate}
use rca_operator.Reporter.Ensure.{ensure_signal}
use rca_operator.Reporter.Resolve.{PodLookup, resolve_for_healthy_pod, resolve_for_deleted_pod}
use rca_operator.Reporter.State.{Reply, done, State as ReporterState}
use rca_operator.Reporter.Write.{Platform}
use rca_operator.RuleEngine.Engine.{Engine, add_event, evaluate}
use rca_operator.RuleEngine.Rule.{Std}
use rca_operator.Signals.Enricher.{enrich}
use rca_operator.Signals.Mapping.{Normalizer}
use rca_operator.Signals.Normalizer.{object_ref, affected_object, normalize}
use rca_operator.Watcher.Event.{Event, pod_healthy, pod_deleted, type_name}

-- what a result with a resource does to the scope
unfoldable pub override_by_result : CorrelationResult → Input → Input
override_by_result result input =
    let name = result.resource in
    if name == ""
    then input
    else if result.scope_level == "Cluster"
    then record input {
      scope = record {
        level = "Cluster";
        namespace = "";
        workload_ref = none;
        resource_ref = some (object_ref "v1" "Node" "" name);
      };
      affected_resources = affected_object "v1" "Node" "" name ∷ [];
    }
    else record input {
      scope = record input.scope {
        level = "Workload";
        workload_ref = some (object_ref "apps/v1" "Deployment" input.namespace name);
      };
      affected_resources =
          merge_affected_resources input.affected_resources
            (affected_object "apps/v1" "Deployment" input.namespace name ∷ []);
    }

unfoldable pub apply_result : CorrelationResult → Input → Input
apply_result result input =
    let fired = override_by_result result (record input {
      severity = result.severity;
      summary = result.summary;
      message = result.summary;
      fired_rule = result.rule;
    }) in
    if result.fired then fired else input

-- What the handler reads beside its state: the method String of time.Duration, the mappings and the
-- objects of the cluster.
pub record Environment : Type 0 where
  pub duration_text : ℕ → String
  pub normalizer : Normalizer
  pub objects : Objects
  pub pods : String → String → PodLookup

module _ (api : Api) (std : Std) (platform : Platform) where
  -- the struct Consumer: the reporter, the rule engine where there is one, and the counter of
  -- received signals, as the list of their types
  pub record Consumer : Type 0 where
    pub reporter : ReporterState api
    pub engine : Option (Engine std)
    pub received : List String

  -- `if c.ruleEngine != nil { c.ruleEngine.Add(event) }`
  unfoldable pub add_to_engine : ℕ → Event → Option (Engine std) → Option (Engine std)
  add_to_engine now event none = none
  add_to_engine now event (some e) = some (add_event std now event e)

  -- the evaluation, which does not fire where there is no rule engine
  unfoldable pub evaluate_in :
      ℕ → Event → Option (Engine std) → Option (Engine std) × CorrelationResult
  evaluate_in now event none = (none, no_result)
  evaluate_in now event (some e) = let (e', result) = evaluate std now event e in (some e', result)

  -- a method of the reporter was called
  abbrev pub reported : ReporterState api × Reply → Consumer → Consumer × Reply
  reported p c = (record c { reporter = p.0 }, p.1)

  -- what the handler passes to EnsureSignal for a normalized input
  unfoldable pub final_input : Environment → ℕ → Event → Input → Option (Engine std) → Input
  final_input env now event input engine =
      apply_result (evaluate_in now event engine).1 (enrich env.objects input)

  -- handleEvent behind the normalizer
  unfoldable pub handle_normalized :
      Environment → ℕ → Event → Option Input → Consumer → Consumer × Reply
  handle_normalized env now event none c = (c, done)
  handle_normalized env now event (some input) c =
      reported
        (ensure_signal api platform now (final_input env now event input c.engine) c.reporter)
        (record c { engine = (evaluate_in now event c.engine).0 })

  -- handleEvent behind the two lifecycle events
  unfoldable pub handle_failure : Environment → ℕ → Event → Consumer → Consumer × Reply
  handle_failure env now event c =
      handle_normalized env now event (normalize env.duration_text env.normalizer event)
        (record c { engine = add_to_engine now event c.engine })

  unfoldable pub count_received : Event → Consumer → Consumer
  count_received event c = record c { received = c.received ++ type_name event ∷ [] }

  unfoldable pub handle_event : Environment → ℕ → Event → Consumer → Consumer × Reply
  handle_event env now (pod_healthy e) c =
      reported
        (resolve_for_healthy_pod api platform now (env.pods e.namespace e.pod_name) e.namespace
          e.pod_name c.reporter)
        (count_received (pod_healthy e) c)
  handle_event env now (pod_deleted e) c =
      reported (resolve_for_deleted_pod api now e.namespace e.pod_name c.reporter)
        (count_received (pod_deleted e) c)
  handle_event env now event c = handle_failure env now event (count_received event c)

  -- the loop of Run over the signals in the channel; a reply is only logged
  unfoldable pub handle_all : Environment → List (ℕ × Event) → Consumer → Consumer
  handle_all env [] c = c
  handle_all env ((now, event) ∷ events) c = handle_all env events (handle_event env now event c).0

  -- Run, from its start: an error of the consolidation is only logged
  unfoldable pub run : Environment → ℕ → List (ℕ × Event) → Consumer → Consumer
  run env now events c =
      handle_all env events (record c { reporter = (consolidate api now c.reporter).0 })
