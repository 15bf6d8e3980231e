-- ===== src/OtelIngest/Translator.antt =====
-- internal/otelingest/translator.go: the signals of a request, and the filters of config.go. The
-- clock is read once for a request. Instants and durations are below 2^63 nanoseconds, so that no
-- conversion between int64 and uint64 wraps; the numbers of the filters are not negative.
pub mod Logs
pub mod Complete
use rca_operator.Base.{
  ℕ, ◌+◌, ◌-◌, ◌*◌, String, Bool, true, false, not, ◌&&◌, Option, none, some, List, [], ◌∷◌, ◌++◌,
  any_by, ltb, leb, if◌then◌else◌, ◌==◌, ◌||◌,
}
use rca_operator.Base.Decimal.{Parsed, bad, negative, natural, atoi}
use rca_operator.Base.Maps.{Map, lookup, put}
use rca_operator.RuleEngine.Scope.{value_or_empty}
use rca_operator.Watcher.Event.Cluster.{BaseEvent}
use rca_operator.Watcher.Event.Telemetry.{
  OtelSpanErrorEvent, OtelSpanLatencySpikeEvent, OtelLogMatchEvent, OtelSpanEventEvent,
}
use rca_operator.Watcher.Event.{
  Event, otel_span_error, otel_span_latency_spike, otel_log_match, otel_span_event, dedup_key,
}
use rca_operator.OtelIngest.Values.{
  AnyValue, KeyValues, IngestStd, SpanKind, Status, any_value_to_string, key_values_to_map,
  resource_attrs, redact, body_hash, hex_bytes, span_kind_text, status_code_text, status_message,
  severity_number_for_text, severity_text_from_number, unix_nano_to_time,
}

pub record TraceFilters : Type 0 where
  pub status_code_error : Bool
  pub http_status_gte : ℕ
  pub latency_p99_ms : ℕ

pub record LogFilters : Type 0 where
  pub min_severity : String
  pub max_signals_per_request : ℕ

pub record IngestConfig (std : IngestStd) : Type 0 where
  pub agent_name : String
  pub trace_filters : TraceFilters
  pub log_filters : LogFilters
  pub redaction : List std.Pattern

pub record SpanEvent : Type 0 where
  pub name : String
  pub time_nanos : ℕ
  pub attributes : KeyValues

pub record Span : Type 0 where
  pub name : String
  pub kind : SpanKind
  pub trace_id : List ℕ
  pub span_id : List ℕ
  pub parent_span_id : List ℕ
  pub start_nanos : ℕ
  pub end_nanos : ℕ
  pub attributes : KeyValues
  pub status : Option Status
  pub events : List SpanEvent

pub record ResourceSpans : Type 0 where
  pub resource : Option KeyValues
  pub scope_spans : List (List Span)

pub record LogRecord : Type 0 where
  pub time_nanos : ℕ
  pub severity_number : ℕ
  pub severity_text : String
  pub body : AnyValue
  pub attributes : KeyValues
  pub trace_id : List ℕ
  pub span_id : List ℕ

pub record ResourceLogs : Type 0 where
  pub resource : Option KeyValues
  pub scope_logs : List (List LogRecord)

-- the calls of Emit, oldest first, and the counter `emitted`
pub record Sent : Type 0 where
  pub events : List Event
  pub emitted : ℕ

abbrev pub nothing_sent : Sent
nothing_sent = record { events = []; emitted = 0 }

-- `t.emitter.Emit(evt)` and `emitted++`
abbrev pub send : Event → Sent → Sent
send e s = record { events = s.events ++ e ∷ []; emitted = s.emitted + 1 }

-- `n, err := strconv.Atoi(v); err == nil && n >= limit`, for a limit that is not negative
abbrev reaches : ℕ → Parsed → Bool
reaches limit bad = false
reaches limit (negative n) = false
reaches limit (natural n) = leb limit n

abbrev status_reaches : ℕ → Option String → Bool
status_reaches limit none = false
status_reaches limit (some v) = reaches limit (atoi v)

unfoldable pub should_emit_error_span : TraceFilters → String → Map String → Bool
should_emit_error_span filters status_code attrs =
    if filters.status_code_error && (status_code == "STATUS_CODE_ERROR")
    then true
    else if ltb 0 filters.http_status_gte
    then status_reaches filters.http_status_gte (lookup "http.status_code" attrs)
      || status_reaches filters.http_status_gte (lookup "http.response.status_code" attrs)
    else false

-- `if v, ok := seAttrs[k]; ok { seAttrs[k] = redact(v) }`
abbrev redact_found : (String → String) → String → Map String → Option String → Map String
redact_found scrub k attrs none = attrs
redact_found scrub k attrs (some v) = put k (scrub v) attrs

unfoldable pub redact_key : (String → String) → String → Map String → Map String
redact_key scrub k attrs = redact_found scrub k attrs (lookup k attrs)

module _ (std : IngestStd) (cfg : IngestConfig std) where
  -- the method baseFromResource, with the time of the signal
  unfoldable pub base_from_resource : Map String → ℕ → BaseEvent
  base_from_resource ra at = record {
    at = at;
    agent_name = cfg.agent_name;
    namespace = value_or_empty (lookup "k8s.namespace.name" ra);
    pod_name = value_or_empty (lookup "k8s.pod.name" ra);
    pod_uid = value_or_empty (lookup "k8s.pod.uid" ra);
    node_name = value_or_empty (lookup "k8s.node.name" ra);
  }

  -- 0 where the end is not behind the start
  unfoldable pub duration_nanos : Span → ℕ
  duration_nanos span = span.end_nanos - span.start_nanos

  unfoldable pub end_time : ℕ → Span → ℕ
  end_time now span = unix_nano_to_time span.end_nanos now

  unfoldable pub error_event : ℕ → Map String → Span → OtelSpanErrorEvent
  error_event now res_attrs span = record {
    base = base_from_resource res_attrs (end_time now span);
    trace_id = hex_bytes span.trace_id;
    span_id = hex_bytes span.span_id;
    parent_span_id = hex_bytes span.parent_span_id;
    service_name = value_or_empty (lookup "service.name" res_attrs);
    span_name = span.name;
    span_kind = span_kind_text span.kind;
    status_code = status_code_text span.status;
    status_message = redact std (status_message span.status) cfg.redaction;
    duration_nanos = duration_nanos span;
    start_time = unix_nano_to_time span.start_nanos now;
    end_time = end_time now span;
    attrs = key_values_to_map std span.attributes;
    resource_attrs = res_attrs;
  }

  -- LatencyP99Ms in nanoseconds
  unfoldable pub threshold : ℕ
  threshold = cfg.trace_filters.latency_p99_ms * 1000000

  unfoldable pub latency_event : ℕ → Map String → Span → OtelSpanLatencySpikeEvent
  latency_event now res_attrs span = record {
    base = base_from_resource res_attrs (end_time now span);
    trace_id = hex_bytes span.trace_id;
    span_id = hex_bytes span.span_id;
    parent_span_id = hex_bytes span.parent_span_id;
    service_name = value_or_empty (lookup "service.name" res_attrs);
    span_name = span.name;
    duration_nanos = duration_nanos span;
    threshold_ns = threshold;
    start_time = unix_nano_to_time span.start_nanos now;
    end_time = end_time now span;
    attrs = key_values_to_map std span.attributes;
    resource_attrs = res_attrs;
  }

  unfoldable pub event_attrs : SpanEvent → Map String
  event_attrs se =
      let scrub : String → String = λ v. redact std v cfg.redaction in
      redact_key scrub "exception.stacktrace"
        (redact_key scrub "exception.message" (key_values_to_map std se.attributes))

  unfoldable pub event_signal : ℕ → Map String → Span → SpanEvent → OtelSpanEventEvent
  event_signal now res_attrs span se =
      let time = unix_nano_to_time se.time_nanos (end_time now span) in
      record {
        base = base_from_resource res_attrs time;
        trace_id = hex_bytes span.trace_id;
        span_id = hex_bytes span.span_id;
        service_name = value_or_empty (lookup "service.name" res_attrs);
        event_name = se.name;
        event_time = time;
        attrs = event_attrs se;
        resource_attrs = res_attrs;
      }

  unfoldable pub send_events : ℕ → Map String → Span → List SpanEvent → Sent → Sent
  send_events now res_attrs span [] s = s
  send_events now res_attrs span (se ∷ ses) s =
      send_events now res_attrs span ses
        (send (otel_span_event (event_signal now res_attrs span se)) s)

  unfoldable pub send_error : ℕ → Map String → Span → Sent → Sent
  send_error now res_attrs span s =
      if should_emit_error_span cfg.trace_filters (status_code_text span.status)
        (key_values_to_map std span.attributes)
      then send (otel_span_error (error_event now res_attrs span)) s
      else s

  unfoldable pub send_latency : ℕ → Map String → Span → Sent → Sent
  send_latency now res_attrs span s =
      if ltb 0 cfg.trace_filters.latency_p99_ms && leb threshold (duration_nanos span)
      then send (otel_span_latency_spike (latency_event now res_attrs span)) s
      else s

  unfoldable pub translate_span : ℕ → Map String → Span → Sent → Sent
  translate_span now res_attrs span s =
      send_events now res_attrs span span.events
        (send_latency now res_attrs span (send_error now res_attrs span s))

  -- the three loops of TranslateResourceSpans
  unfoldable pub translate_spans : ℕ → Map String → List Span → Sent → Sent
  translate_spans now res_attrs [] s = s
  translate_spans now res_attrs (span ∷ spans) s =
      translate_spans now res_attrs spans (translate_span now res_attrs span s)

  unfoldable pub translate_scopes : ℕ → Map String → List (List Span) → Sent → Sent
  translate_scopes now res_attrs [] s = s
  translate_scopes now res_attrs (spans ∷ scopes) s =
      translate_scopes now res_attrs scopes (translate_spans now res_attrs spans s)

  unfoldable pub translate_resource_spans : ℕ → List ResourceSpans → Sent → Sent
  translate_resource_spans now [] s = s
  translate_resource_spans now (rs ∷ rss) s =
      translate_resource_spans now rss
        (translate_scopes now (resource_attrs std rs.resource) rs.scope_spans s)

  -- the set of keys, what was sent, and whether the cap made the method return
  pub record LogLoop : Type 0 where
    pub seen : List String
    pub sent : Sent
    pub returned : Bool

  unfoldable pub log_event : ℕ → Map String → LogRecord → OtelLogMatchEvent
  log_event now res_attrs rec =
      let redacted = redact std (any_value_to_string std rec.body) cfg.redaction in
      record {
        base = base_from_resource res_attrs (unix_nano_to_time rec.time_nanos now);
        trace_id = hex_bytes rec.trace_id;
        span_id = hex_bytes rec.span_id;
        service_name = value_or_empty (lookup "service.name" res_attrs);
        severity = severity_text_from_number rec.severity_number rec.severity_text;
        severity_num = rec.severity_number;
        body = redacted;
        body_hash = body_hash std redacted;
        attrs = key_values_to_map std rec.attributes;
        resource_attrs = res_attrs;
      }

  unfoldable pub min_severity : ℕ
  min_severity = severity_number_for_text cfg.log_filters.min_severity

  unfoldable pub is_below : LogRecord → Bool
  is_below rec = ltb 0 min_severity && ltb rec.severity_number min_severity

  -- whether the cap is reached
  unfoldable pub is_full : ℕ → Bool
  is_full emitted =
      ltb 0 cfg.log_filters.max_signals_per_request
      && leb cfg.log_filters.max_signals_per_request emitted

  -- the end of the body of the loop, for a key that was not seen
  unfoldable pub send_log : Event → LogLoop → LogLoop
  send_log evt st =
      let sent = send evt st.sent in
      record { seen = dedup_key evt ∷ st.seen; sent = sent; returned = is_full sent.emitted }

  unfoldable pub translate_record : ℕ → Map String → LogRecord → LogLoop → LogLoop
  translate_record now res_attrs rec st =
      let evt = otel_log_match (log_event now res_attrs rec) in
      if is_below rec
      then st
      else if any_by (λ k. k == dedup_key evt) st.seen
      then st
      else send_log evt st

  -- the three loops of TranslateResourceLogs
  unfoldable pub translate_records : ℕ → Map String → List LogRecord → LogLoop → LogLoop
  translate_records now res_attrs [] st = st
  translate_records now res_attrs (rec ∷ recs) st =
      let rest = translate_records now res_attrs recs (translate_record now res_attrs rec st) in
      if st.returned then st else rest

  unfoldable pub translate_log_scopes : ℕ → Map String → List (List LogRecord) → LogLoop → LogLoop
  translate_log_scopes now res_attrs [] st = st
  translate_log_scopes now res_attrs (recs ∷ scopes) st =
      translate_log_scopes now res_attrs scopes (translate_records now res_attrs recs st)

  unfoldable pub translate_logs : ℕ → List ResourceLogs → LogLoop → LogLoop
  translate_logs now [] st = st
  translate_logs now (rl ∷ rls) st =
      translate_logs now rls
        (translate_log_scopes now (resource_attrs std rl.resource) rl.scope_logs st)

  unfoldable pub translate_resource_logs : ℕ → List ResourceLogs → Sent
  translate_resource_logs now rls =
      (translate_logs now rls (record { seen = []; sent = nothing_sent; returned = false })).sent
