-- ===== src/Correlator/Classify.antt =====
-- internal/correlator/classify.go, and the two key helpers at the end of internal/correlator/rules.go.
use Prim.Native.String.{◌++◌}
use rca_operator.Base.{String, not, ◌&&◌, if◌then◌else◌, ◌==◌}
use rca_operator.Watcher.Event.Cluster.{BaseEvent}
use rca_operator.Watcher.Event.{
  Event, crash_loop_back_off, oom_killed, pod_evicted, otel_span_error, otel_span_latency_spike,
  otel_log_match, otel_span_event, base_of, type_name,
}

pub record EventClassification : Type 0 where
  pub kind : String
  pub source : String
  pub title : String
  pub msg : String
  pub resource : String

-- the resource of a cluster signal: its pod, else its node, behind the namespace
unfoldable pub resource_of : BaseEvent → String
resource_of base =
    let resource = if base.pod_name == "" then base.node_name else base.pod_name in
    if not (base.namespace == "") && not (resource == "")
    then base.namespace ++ "/" ++ resource
    else resource

-- the signals that are not telemetry; baseFields reads the embedded BaseEvent of each of them
unfoldable pub classify_cluster : Event → EventClassification
classify_cluster e = record {
  kind = "k8s";
  source = "RCA-Operator";
  title = type_name e;
  msg = type_name e ++ " on " ++ resource_of (base_of e);
  resource = resource_of (base_of e);
}

unfoldable pub classify_event : Event → EventClassification
classify_event (otel_span_error ev) = record {
  kind = "trace";
  source = "OTel";
  title = "span.error";
  msg = ev.service_name ++ " " ++ ev.span_name ++ " (" ++ ev.status_message ++ ")";
  resource = ev.service_name;
}
classify_event (otel_span_latency_spike ev) = record {
  kind = "trace";
  source = "OTel";
  title = "span.latency";
  msg = ev.service_name ++ " " ++ ev.span_name ++ " exceeded latency threshold";
  resource = ev.service_name;
}
classify_event (otel_span_event ev) = record {
  kind = "trace";
  source = "OTel";
  title = ev.event_name;
  msg = ev.event_name ++ " on " ++ ev.service_name;
  resource = ev.service_name;
}
classify_event (otel_log_match ev) = record {
  kind = "log";
  source = "OTel";
  title = if ev.severity == "" then "LOG" else ev.severity;
  msg = ev.body;
  resource = ev.service_name;
}
classify_event e = classify_cluster e

unfoldable pub extract_node_for_failure : Event → String
extract_node_for_failure (crash_loop_back_off ev) = ev.node_name
extract_node_for_failure (oom_killed ev) = ev.node_name
extract_node_for_failure (pod_evicted ev) = ev.node_name
extract_node_for_failure e = ""

unfoldable pub failure_pod_key : Event → String
failure_pod_key (crash_loop_back_off ev) = ev.namespace ++ "/" ++ ev.pod_name
failure_pod_key (oom_killed ev) = ev.namespace ++ "/" ++ ev.pod_name
failure_pod_key (pod_evicted ev) = ev.namespace ++ "/" ++ ev.pod_name
failure_pod_key e = ""
