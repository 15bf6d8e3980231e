-- ===== src/Signals/Normalizer.antt =====
-- Normalize of internal/signals/normalizer.go. A NormalizedSignal is its Input: the raw event that
-- it also holds is read by nobody. The zero time of BaseEvent{} is 0.
pub mod Coverage
use Prim.Native.String.{◌++◌}
use rca_operator.Base.{
  ℕ, String, Bool, true, false, not, ◌&&◌, ◌||◌, Option, none, some, List, [], ◌∷◌, if◌then◌else◌,
  ◌==◌,
}
use rca_operator.Base.Maps.{Map, lookup}
use rca_operator.Base.Texts.{trim_space}
use rca_operator.Incident.Input.{Input}
use rca_operator.Incident.Report.{AffectedResource, IncidentObjectRef, IncidentScope}
use rca_operator.RuleEngine.Scope.{zero_base, value_or_empty}
use rca_operator.Signals.Mapping.{SignalMapping, Normalizer}
use rca_operator.Signals.Summary.{strip_empty_kv, build_summary}
use rca_operator.Watcher.Event.Cluster.{BaseEvent}
use rca_operator.Watcher.Event.{
  Event, crash_loop_back_off, oom_killed, image_pull_back_off, pod_pending_too_long,
  grace_period_violation, pod_healthy, pod_deleted, node_not_ready, pod_evicted, probe_failure,
  stalled_rollout, node_pressure, stalled_stateful_set, stalled_daemon_set, job_failed,
  cron_job_failed, otel_span_error, otel_span_latency_spike, otel_log_match, otel_span_event,
  type_name, base_of, occurred_at, dedup_key,
}

-- the type switch has no case for the two lifecycle events
unfoldable pub signal_base : Event → BaseEvent
signal_base (pod_healthy e) = zero_base
signal_base (pod_deleted e) = zero_base
signal_base e = base_of e

unfoldable pub extract_reason : Event → String
extract_reason (crash_loop_back_off e) = "CrashLoopBackOff"
extract_reason (oom_killed e) = e.reason
extract_reason (image_pull_back_off e) = e.reason
extract_reason (pod_pending_too_long e) = "PendingTooLong"
extract_reason (grace_period_violation e) = "GracePeriodExceeded"
extract_reason (pod_healthy e) = ""
extract_reason (pod_deleted e) = ""
extract_reason (node_not_ready e) = e.reason
extract_reason (pod_evicted e) = e.reason
extract_reason (probe_failure e) = e.probe_type
extract_reason (stalled_rollout e) = e.reason
extract_reason (node_pressure e) = e.pressure_type
extract_reason (stalled_stateful_set e) = e.reason
extract_reason (stalled_daemon_set e) = e.reason
extract_reason (job_failed e) = e.reason
extract_reason (cron_job_failed e) = e.reason
extract_reason (otel_span_error e) = e.status_code
extract_reason (otel_span_latency_spike e) = "LatencySpike"
extract_reason (otel_log_match e) = e.severity
extract_reason (otel_span_event e) = e.event_name

unfoldable pub signal_trace_id : Event → String
signal_trace_id (otel_span_error e) = e.trace_id
signal_trace_id (otel_span_latency_spike e) = e.trace_id
signal_trace_id (otel_log_match e) = e.trace_id
signal_trace_id (otel_span_event e) = e.trace_id
signal_trace_id _ = ""

unfoldable pub first_non_empty : List String → String
first_non_empty [] = ""
first_non_empty (v ∷ vs) =
    let rest = first_non_empty vs in if trim_space v == "" then rest else trim_space v

abbrev pub object_ref : String → String → String → String → IncidentObjectRef
object_ref api_version kind namespace name = record {
  api_version = api_version;
  kind = kind;
  namespace = namespace;
  name = name;
  uid = "";
}

abbrev pub affected_object : String → String → String → String → AffectedResource
affected_object api_version kind namespace name = record {
  api_version = api_version;
  kind = kind;
  name = name;
  namespace = namespace;
  uid = "";
}

-- the assignments of the cases of buildInput for workloads
abbrev pub at_workload : String → String → String → String → Input → Input
at_workload api_version kind namespace name input =
    let ref = some (object_ref api_version kind namespace name) in
    record input {
      scope = record {
        level = "Workload";
        namespace = namespace;
        workload_ref = ref;
        resource_ref = ref;
      };
      affected_resources = affected_object api_version kind namespace name ∷ [];
    }

-- the service and the resource attributes of an OTel signal
unfoldable pub otel_identity : Event → Option (String × Map String)
otel_identity (otel_span_error e) = some (e.service_name, e.resource_attrs)
otel_identity (otel_span_latency_spike e) = some (e.service_name, e.resource_attrs)
otel_identity (otel_log_match e) = some (e.service_name, e.resource_attrs)
otel_identity (otel_span_event e) = some (e.service_name, e.resource_attrs)
otel_identity _ = none

abbrev pub attr : String → Map String → String
attr k attrs = value_or_empty (lookup k attrs)

-- a workloadKey: the attribute, the API version and the kind
abbrev workload_keys : List (String × String × String)
workload_keys =
    ("k8s.deployment.name", "apps/v1", "Deployment")
    ∷ ("k8s.statefulset.name", "apps/v1", "StatefulSet")
    ∷ ("k8s.daemonset.name", "apps/v1", "DaemonSet")
    ∷ ("k8s.job.name", "batch/v1", "Job")
    ∷ ("k8s.cronjob.name", "batch/v1", "CronJob")
    ∷ []

-- The loop of workloadFromOTelResourceAttrs: the API version, the kind and the name.
unfoldable pub first_workload :
    String → Map String → List (String × String × String) → Option (String × String × String)
first_workload namespace attrs [] = none
first_workload namespace attrs ((key, api_version, kind) ∷ keys) =
    let rest = first_workload namespace attrs keys in
    let name = trim_space (attr key attrs) in
    if (name == "") || (namespace == "") then rest else some (api_version, kind, name)

unfoldable pub workload_from_otel_resource_attrs :
    String → Map String → Option (String × String × String)
workload_from_otel_resource_attrs namespace attrs = first_workload namespace attrs workload_keys

-- the end of applyOTelScopeOverrides: the workload, or else the service
abbrev pub at_identity : Option (String × String × String) → String → String → Input → Input
at_identity (some (api_version, kind, name)) namespace service_name input =
    at_workload api_version kind namespace name input
at_identity none namespace service_name input =
    if (service_name == "") || (namespace == "")
    then input
    else at_workload "v1" "Service" namespace service_name input

abbrev pub otel_namespace : Map String → Input → String
otel_namespace attrs input =
    first_non_empty
      (input.namespace ∷ attr "k8s.namespace.name" attrs ∷ attr "service.namespace" attrs ∷ [])

-- `if namespace != ""`
abbrev pub in_namespace : String → Input → Input
in_namespace namespace input = if namespace == "" then input else record input {
  namespace = namespace;
  scope = record input.scope { namespace = namespace };
}

-- applyOTelScopeOverrides, once the identity is extracted
unfoldable pub apply_otel_scope_overrides : String → Map String → Input → Input
apply_otel_scope_overrides service attrs input =
    let namespace = otel_namespace attrs input in
    at_identity (workload_from_otel_resource_attrs namespace attrs) namespace
      (first_non_empty (service ∷ attr "service.name" attrs ∷ [])) (in_namespace namespace input)

abbrev pub pod_scope : String → String → IncidentScope
pod_scope namespace pod_name = record {
  level = "Pod";
  namespace = namespace;
  workload_ref = none;
  resource_ref = some (object_ref "v1" "Pod" namespace pod_name);
}

-- the switch over the level of the mapping
unfoldable pub default_scope : String → BaseEvent → Input → Input
default_scope level base input =
    if level == "Cluster"
    then record input {
      scope = record {
        level = "Cluster";
        namespace = "";
        workload_ref = none;
        resource_ref = some (object_ref "v1" "Node" "" base.node_name);
      };
      affected_resources = affected_object "v1" "Node" "" base.node_name ∷ [];
    }
    else if (level == "Workload") && (base.pod_name == "")
    then record input {
      scope = record {
        level = "Workload";
        namespace = base.namespace;
        workload_ref = none;
        resource_ref = none;
      };
    }
    else record input { scope = pod_scope base.namespace base.pod_name }

abbrev pub overridden_by : Option (String × Map String) → Input → Input
overridden_by none input = input
overridden_by (some (service, attrs)) input = apply_otel_scope_overrides service attrs input

-- the last switch of buildInput, over the type of the signal
unfoldable pub override_scope : Event → Input → Input
override_scope (stalled_rollout e) =
    at_workload "apps/v1" "Deployment" e.namespace e.deployment_name
override_scope (stalled_stateful_set e) =
    at_workload "apps/v1" "StatefulSet" e.namespace e.stateful_set_name
override_scope (stalled_daemon_set e) =
    at_workload "apps/v1" "DaemonSet" e.namespace e.daemon_set_name
override_scope (job_failed e) = at_workload "batch/v1" "Job" e.namespace e.job_name
override_scope (cron_job_failed e) = at_workload "batch/v1" "CronJob" e.namespace e.cron_job_name
override_scope e = overridden_by (otel_identity e)

-- the severity of NodePressure with PIDPressure
abbrev severity_of : Event → String → String
severity_of (node_pressure e) severity = if e.pressure_type == "PIDPressure" then "P3" else severity
severity_of _ severity = severity

-- a span error of a span that is not a server's
abbrev pub is_client_span : Event → Bool
is_client_span (otel_span_error e) = not (e.span_kind == "") && not (e.span_kind == "SERVER")
is_client_span _ = false

module _ (duration_text : ℕ → String) where
  unfoldable pub build_input : SignalMapping → Event → Input
  build_input mapping event =
      let base = signal_base event in
      let summary = strip_empty_kv (build_summary duration_text event) in
      let input : Input = record {
        namespace = base.namespace;
        agent_ref = base.agent_name;
        incident_type = mapping.incident_type;
        severity = severity_of event mapping.severity;
        summary = summary;
        reason = extract_reason event;
        message = summary;
        dedup_key = dedup_key event;
        observed_at = occurred_at event;
        scope = record { level = ""; namespace = ""; workload_ref = none; resource_ref = none };
        affected_resources = [];
        trace_id = signal_trace_id event;
        fired_rule = "";
      } in
      override_scope event (default_scope mapping.scope_level base input)

  -- Normalize once the mapping is looked up
  abbrev pub mapped_input : Option SignalMapping → Event → Option Input
  mapped_input none event = none
  mapped_input (some mapping) event =
      if is_client_span event then none else some (build_input mapping event)

  unfoldable pub normalize : Normalizer → Event → Option Input
  normalize n event =
      let type = type_name event in
      if (type == "PodHealthy") || (type == "PodDeleted")
      then none
      else mapped_input (lookup type n.mappings) event
