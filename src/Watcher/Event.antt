-- ===== src/Watcher/Event.antt =====
-- internal/watcher/events.go: the interface CorrelatorEvent as a data type, one constructor for each
-- concrete signal type (PodHealthyEvent and PodDeletedEvent hold the embedded BaseEvent alone).
pub mod Cluster
pub mod Telemetry
use Prim.Native.String.{◌++◌}
use rca_operator.Base.{ℕ, String, Bool, Option, none, some, List, [], ◌∷◌, any_by, ◌==◌}
use rca_operator.Base.Maps.{Map}
use Cluster.{
  BaseEvent, CrashLoopBackOffEvent, OomKilledEvent, ImagePullBackOffEvent, PodPendingTooLongEvent,
  GracePeriodViolationEvent, NodeNotReadyEvent, PodEvictedEvent, ProbeFailureEvent,
  StalledRolloutEvent, NodePressureEvent, StalledStatefulSetEvent, StalledDaemonSetEvent,
  JobFailedEvent, CronJobFailedEvent,
}
use Telemetry.{
  OtelSpanErrorEvent, OtelSpanLatencySpikeEvent, OtelLogMatchEvent, OtelSpanEventEvent,
  span_error_attributes, latency_spike_attributes, log_match_attributes, span_event_attributes,
}

pub data Event : Type 0 where
  crash_loop_back_off : CrashLoopBackOffEvent → Event
  oom_killed : OomKilledEvent → Event
  image_pull_back_off : ImagePullBackOffEvent → Event
  pod_pending_too_long : PodPendingTooLongEvent → Event
  grace_period_violation : GracePeriodViolationEvent → Event
  pod_healthy : BaseEvent → Event
  pod_deleted : BaseEvent → Event
  node_not_ready : NodeNotReadyEvent → Event
  pod_evicted : PodEvictedEvent → Event
  probe_failure : ProbeFailureEvent → Event
  stalled_rollout : StalledRolloutEvent → Event
  node_pressure : NodePressureEvent → Event
  stalled_stateful_set : StalledStatefulSetEvent → Event
  stalled_daemon_set : StalledDaemonSetEvent → Event
  job_failed : JobFailedEvent → Event
  cron_job_failed : CronJobFailedEvent → Event
  otel_span_error : OtelSpanErrorEvent → Event
  otel_span_latency_spike : OtelSpanLatencySpikeEvent → Event
  otel_log_match : OtelLogMatchEvent → Event
  otel_span_event : OtelSpanEventEvent → Event

-- the constants EventType…, by the methods Type
unfoldable pub type_name : Event → String
type_name (crash_loop_back_off e) = "CrashLoopBackOff"
type_name (oom_killed e) = "OOMKilled"
type_name (image_pull_back_off e) = "ImagePullBackOff"
type_name (pod_pending_too_long e) = "PodPendingTooLong"
type_name (grace_period_violation e) = "GracePeriodViolation"
type_name (pod_healthy e) = "PodHealthy"
type_name (pod_deleted e) = "PodDeleted"
type_name (node_not_ready e) = "NodeNotReady"
type_name (pod_evicted e) = "PodEvicted"
type_name (probe_failure e) = "ProbeFailure"
type_name (stalled_rollout e) = "StalledRollout"
type_name (node_pressure e) = "NodePressure"
type_name (stalled_stateful_set e) = "StalledStatefulSet"
type_name (stalled_daemon_set e) = "StalledDaemonSet"
type_name (job_failed e) = "JobFailed"
type_name (cron_job_failed e) = "CronJobFailed"
type_name (otel_span_error e) = "OTelSpanError"
type_name (otel_span_latency_spike e) = "OTelSpanLatencySpike"
type_name (otel_log_match e) = "OTelLogMatch"
type_name (otel_span_event e) = "OTelSpanEvent"

-- the embedded BaseEvent of each signal
abbrev pub base_of : Event → BaseEvent
base_of (crash_loop_back_off e) = e.base
base_of (oom_killed e) = e.base
base_of (image_pull_back_off e) = e.base
base_of (pod_pending_too_long e) = e.base
base_of (grace_period_violation e) = e.base
base_of (pod_healthy e) = e
base_of (pod_deleted e) = e
base_of (node_not_ready e) = e.base
base_of (pod_evicted e) = e.base
base_of (probe_failure e) = e.base
base_of (stalled_rollout e) = e.base
base_of (node_pressure e) = e.base
base_of (stalled_stateful_set e) = e.base
base_of (stalled_daemon_set e) = e.base
base_of (job_failed e) = e.base
base_of (cron_job_failed e) = e.base
base_of (otel_span_error e) = e.base
base_of (otel_span_latency_spike e) = e.base
base_of (otel_log_match e) = e.base
base_of (otel_span_event e) = e.base

-- the methods OccurredAt
unfoldable pub occurred_at : Event → ℕ
occurred_at e = (base_of e).at

-- what follows the type in the methods DedupKey
abbrev subject_key : Event → String
subject_key (crash_loop_back_off e) = e.namespace ++ ":" ++ e.pod_name ++ ":" ++ e.container_name
subject_key (oom_killed e) =
    e.namespace ++ ":" ++ e.pod_name ++ ":" ++ e.container_name ++ ":" ++ e.pod_uid
subject_key (image_pull_back_off e) = e.namespace ++ ":" ++ e.pod_name ++ ":" ++ e.container_name
subject_key (pod_pending_too_long e) = e.namespace ++ ":" ++ e.pod_name ++ ":" ++ e.pod_uid
subject_key (grace_period_violation e) = e.namespace ++ ":" ++ e.pod_name ++ ":" ++ e.pod_uid
subject_key (pod_healthy e) = e.namespace ++ ":" ++ e.pod_name
subject_key (pod_deleted e) = e.namespace ++ ":" ++ e.pod_name
subject_key (node_not_ready e) = e.namespace ++ ":" ++ e.node_name
subject_key (pod_evicted e) = e.namespace ++ ":" ++ e.pod_name ++ ":" ++ e.pod_uid
subject_key (probe_failure e) = e.namespace ++ ":" ++ e.pod_name ++ ":" ++ e.probe_type
subject_key (stalled_rollout e) = e.namespace ++ ":" ++ e.deployment_name
subject_key (node_pressure e) = e.node_name ++ ":" ++ e.pressure_type
subject_key (stalled_stateful_set e) = e.namespace ++ ":" ++ e.stateful_set_name
subject_key (stalled_daemon_set e) = e.namespace ++ ":" ++ e.daemon_set_name
subject_key (job_failed e) = e.namespace ++ ":" ++ e.job_name
subject_key (cron_job_failed e) = e.namespace ++ ":" ++ e.cron_job_name
subject_key (otel_span_error e) = e.trace_id ++ ":" ++ e.span_id
subject_key (otel_span_latency_spike e) = e.trace_id ++ ":" ++ e.span_id
subject_key (otel_log_match e) = e.service_name ++ ":" ++ e.body_hash
subject_key (otel_span_event e) = e.trace_id ++ ":" ++ e.span_id ++ ":" ++ e.event_name

unfoldable pub dedup_key : Event → String
unfolding type_name
dedup_key e = type_name e ++ ":" ++ subject_key e

-- the interface AttributesEvent: none for a signal that does not implement it
unfoldable pub attributes : Event → Option (Map String)
attributes (otel_span_error e) = some (span_error_attributes e)
attributes (otel_span_latency_spike e) = some (latency_spike_attributes e)
attributes (otel_log_match e) = some (log_match_attributes e)
attributes (otel_span_event e) = some (span_event_attributes e)
attributes _ = none

-- validEventTypes
abbrev pub valid_event_types : List String
valid_event_types =
    "CrashLoopBackOff" ∷ "OOMKilled" ∷ "ImagePullBackOff" ∷ "PodPendingTooLong"
    ∷ "GracePeriodViolation" ∷ "PodHealthy" ∷ "PodDeleted" ∷ "NodeNotReady" ∷ "PodEvicted"
    ∷ "ProbeFailure" ∷ "StalledRollout" ∷ "NodePressure" ∷ "StalledStatefulSet" ∷ "StalledDaemonSet"
    ∷ "JobFailed" ∷ "CronJobFailed" ∷ "OTelSpanError" ∷ "OTelSpanLatencySpike" ∷ "OTelLogMatch"
    ∷ "OTelSpanEvent" ∷ []

unfoldable pub is_known_event_type : String → Bool
is_known_event_type name = any_by (λ t. t == name) valid_event_types
