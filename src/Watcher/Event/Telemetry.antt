-- ===== src/Watcher/Event/Telemetry.antt =====
-- The signals that come from OTel spans and logs, and their flattened attributes:
-- internal/watcher/events.go, from OTelSpanErrorEvent on.
use rca_operator.Base.{ℕ, String, ◌==◌, if◌then◌else◌, []}
use rca_operator.Base.Maps.{Map, put, copy}
use rca_operator.Watcher.Event.Cluster.{BaseEvent}

pub record OtelSpanErrorEvent : Type 0 where
  pub base : BaseEvent
  pub open base use *
  pub trace_id : String
  pub span_id : String
  pub parent_span_id : String
  pub service_name : String
  pub span_name : String
  pub span_kind : String
  pub status_code : String
  pub status_message : String
  pub duration_nanos : ℕ
  pub start_time : ℕ
  pub end_time : ℕ
  pub attrs : Map String
  pub resource_attrs : Map String

pub record OtelSpanLatencySpikeEvent : Type 0 where
  pub base : BaseEvent
  pub open base use *
  pub trace_id : String
  pub span_id : String
  pub parent_span_id : String
  pub service_name : String
  pub span_name : String
  pub duration_nanos : ℕ
  pub threshold_ns : ℕ
  pub start_time : ℕ
  pub end_time : ℕ
  pub attrs : Map String
  pub resource_attrs : Map String

pub record OtelLogMatchEvent : Type 0 where
  pub base : BaseEvent
  pub open base use *
  pub trace_id : String
  pub span_id : String
  pub service_name : String
  pub severity : String
  pub severity_num : ℕ
  pub body : String
  pub body_hash : String
  pub attrs : Map String
  pub resource_attrs : Map String

pub record OtelSpanEventEvent : Type 0 where
  pub base : BaseEvent
  pub open base use *
  pub trace_id : String
  pub span_id : String
  pub service_name : String
  pub event_name : String
  pub event_time : ℕ
  pub attrs : Map String
  pub resource_attrs : Map String

-- baseAttrHolder: the struct fields that three of the signals promote
pub record BaseAttrHolder : Type 0 where
  pub service_name : String
  pub span_name : String
  pub severity : String
  pub body : String
  pub event_name : String

-- `if v != "" { out[k] = v }`
unfoldable pub put_nonempty : String → String → Map String → Map String
unfolding put
put_nonempty k v out = if v == "" then out else put k v out

-- the argument of mergedAttrs that its type switch looks at
pub data AttrSource : Type 0 where
  span_error : OtelSpanErrorEvent → AttrSource
  holder : BaseAttrHolder → AttrSource

unfoldable pub merged_attrs : Map String → Map String → AttrSource → Map String
unfolding put_nonempty copy
merged_attrs attrs resource_attrs (span_error s) =
    let out = copy (copy [] resource_attrs) attrs in
    put_nonempty "span.status.message" s.status_message (
      put_nonempty "span.status.code" s.status_code (
        put_nonempty "span.kind" s.span_kind
          (put_nonempty "span.name" s.span_name (put_nonempty "service.name" s.service_name out))))
merged_attrs attrs resource_attrs (holder s) =
    let out = copy (copy [] resource_attrs) attrs in
    put_nonempty "event.name" s.event_name (
      put_nonempty "log.body" s.body (
        put_nonempty "log.severity" s.severity
          (put_nonempty "span.name" s.span_name (put_nonempty "service.name" s.service_name out))))

unfoldable pub promote_trace_ids : Map String → String → String → String → Map String
unfolding put_nonempty
promote_trace_ids out trace_id span_id parent_span_id =
    put_nonempty "parent.span.id" parent_span_id
      (put_nonempty "span.id" span_id (put_nonempty "trace.id" trace_id out))

unfoldable pub span_error_attributes : OtelSpanErrorEvent → Map String
unfolding merged_attrs promote_trace_ids
span_error_attributes e =
    promote_trace_ids (merged_attrs e.attrs e.resource_attrs (span_error e)) e.trace_id e.span_id
      e.parent_span_id

unfoldable pub latency_spike_attributes : OtelSpanLatencySpikeEvent → Map String
unfolding merged_attrs promote_trace_ids
latency_spike_attributes e =
    promote_trace_ids (merged_attrs e.attrs e.resource_attrs (holder self)) e.trace_id e.span_id
      e.parent_span_id
  where
    self : BaseAttrHolder
    self = record {
      service_name = e.service_name;
      span_name = e.span_name;
      severity = "";
      body = "";
      event_name = "";
    }

unfoldable pub log_match_attributes : OtelLogMatchEvent → Map String
unfolding merged_attrs promote_trace_ids
log_match_attributes e =
    promote_trace_ids (merged_attrs e.attrs e.resource_attrs (holder self)) e.trace_id e.span_id ""
  where
    self : BaseAttrHolder
    self = record {
      service_name = e.service_name;
      span_name = "";
      severity = e.severity;
      body = e.body;
      event_name = "";
    }

unfoldable pub span_event_attributes : OtelSpanEventEvent → Map String
unfolding merged_attrs promote_trace_ids
span_event_attributes e =
    promote_trace_ids (merged_attrs e.attrs e.resource_attrs (holder self)) e.trace_id e.span_id ""
  where
    self : BaseAttrHolder
    self = record {
      service_name = e.service_name;
      span_name = "";
      severity = "";
      body = "";
      event_name = e.event_name;
    }
