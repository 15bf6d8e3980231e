-- ===== src/Examples/Runs.antt =====
-- A run of the operator: a signal that is handled, one that is stored, a reconciliation and a deleted pod.
use rca_operator.Base.{[], true, none}
use rca_operator.Consumer.{Consumer, handle_event}
use rca_operator.Controller.Reconcile.{reconcile}
use rca_operator.Controller.State.{State as ControllerState}
use rca_operator.Examples.Data.{input_example, oom, platform_example, std_example}
use rca_operator.Examples.Lifecycle.{reconciler, reconciler_fetches, later}
use rca_operator.Examples.Pipeline.{environment, oom_passes}
use rca_operator.Examples.Reports.{input_named, input_bare}
use rca_operator.Examples.Server.{server, server_laws, start}
use rca_operator.Incident.Input.{Input}
use rca_operator.Reporter.Ensure.{ensure_signal}
use rca_operator.Reporter.Resolve.{resolve_for_deleted_pod}
use rca_operator.Reporter.State.{State as ReporterState}
use rca_operator.Reporter.Healthy.{IsHealthy}
use rca_operator.System.{
  Reaches, begins, signal, handled, pod_deleted, reconciled, Reaches-IsHealthy,
}

-- an operator without a rule engine, which has received nothing
abbrev fresh : Consumer server std_example platform_example
fresh = record { reporter = start; engine = none; received = [] }

abbrev first : Consumer server std_example platform_example
first = (handle_event server std_example platform_example environment 100 oom fresh).0

abbrev twice : ReporterState server
twice = (ensure_signal server platform_example 200 input_example first.reporter).0

abbrev reconciled_state : ControllerState server
reconciled_state =
    (reconcile server reconciler later "shop" "oomkilled-cart-x"
      (record { world = twice.world; sent = [] })).0

-- the operator has restarted: its cache is empty
abbrev restarted : ReporterState server
restarted = record {
  world = reconciled_state.world;
  open_by_fingerprint = [];
  recorder = true;
  emitted = [];
}

run_example :
    Reaches server server_laws platform_example std_example reconciler reconciler_fetches []
      (resolve_for_deleted_pod server later "shop" "cart-1" restarted).0.world
run_example = pod_deleted later "shop" "cart-1" restarted (
    reconciled later "shop" "oomkilled-cart-x" (record { world = twice.world; sent = [] })
      (signal 200 input_example first.reporter input_named input_bare
        (handled environment 100 oom fresh oom_passes begins)))

nothing-IsHealthy : IsHealthy server server_laws platform_example []
nothing-IsHealthy = record {
  sound = record { current = λ x m. elim m [ ]; unique = λ x y m k. elim m [ ] };
  distinct = tt;
}

Reaches-IsHealthy_example :
    IsHealthy server server_laws platform_example
      (resolve_for_deleted_pod server later "shop" "cart-1" restarted).0.world
Reaches-IsHealthy_example =
    Reaches-IsHealthy server server_laws platform_example std_example reconciler reconciler_fetches
      [] (resolve_for_deleted_pod server later "shop" "cart-1" restarted).0.world run_example
      nothing-IsHealthy
