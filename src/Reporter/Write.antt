-- ===== src/Reporter/Write.antt =====
-- What internal/reporter/cr_reporter.go writes: the reports that createIncident, updateActiveIncident
-- and reopenIncident send, as functions of the report that was read and of the input. SHA-1 and the
-- RFC 3339 form of an instant are a parameter.
use Prim.Native.String.{◌++◌}
use rca_operator.Base.{
  ℕ, ◌+◌, ltb, String, not, ◌&&◌, Option, none, some, List, [], ◌∷◌, keep_last, if◌then◌else◌,
  nat_eq, ◌==◌, find_by,
}
use mathlib.Core.List.{◌++◌ as ◌append◌}
use rca_operator.Base.Texts.{to_lower}
use rca_operator.Base.Decimal.{itoa}
use rca_operator.Incident.Report.{
  AffectedResource, IncidentObjectRef, IncidentReport, IncidentReportStatus, Annotations,
  empty_status,
}
use rca_operator.Incident.Resources.{merge_affected_resources}
use rca_operator.Incident.Input.{Input, is_otel_incident_type}
use rca_operator.Incident.Status.{append_timeline, phase_detecting}
use rca_operator.Reporter.Text.{
  increment_counter, higher_severity, safe_label_value, safe_name_token,
}
use rca_operator.Reporter.TraceIds.{merge_trace_id_list}

pub record Platform : Type 0 where
  -- hex.EncodeToString(sha1.Sum(fingerprint)[:6])
  pub fingerprint_hash : String → String
  pub format_rfc3339 : ℕ → String
  pub parse_rfc3339 : String → Option ℕ

abbrev pub max_signal_entries : ℕ
max_signal_entries = 20

abbrev pub stabilization_seconds : ℕ
stabilization_seconds = 300

unfoldable pub trim_signals : List String → List String
trim_signals signals = keep_last max_signal_entries signals

abbrev pod_of_ref : Option IncidentObjectRef → String
pod_of_ref none = ""
pod_of_ref (some ref) = if ref.kind == "Pod" then ref.name else ""

abbrev name_or : Option AffectedResource → String → String
name_or none otherwise = otherwise
name_or (some r) otherwise = r.name

unfoldable pub primary_pod_name : Input → String
primary_pod_name input =
    name_or (find_by (λ r. r.kind == "Pod") input.affected_resources)
      (pod_of_ref input.scope.resource_ref)

abbrev first_name : List AffectedResource → String
first_name [] = "incident"
first_name (r ∷ rs) = r.name

abbrev ref_name_or : Option IncidentObjectRef → String → String
ref_name_or none otherwise = otherwise
ref_name_or (some ref) otherwise = ref.name

unfoldable pub primary_resource_name : Input → String
primary_resource_name input =
    ref_name_or input.scope.workload_ref
      (ref_name_or input.scope.resource_ref (first_name input.affected_resources))

-- the type of the report: the status's, where the spec has none
unfoldable pub report_incident_type : IncidentReport → String
report_incident_type report =
    if report.spec.incident_type == ""
    then report.status.incident_type
    else report.spec.incident_type

-- targetIncidentType: an OTel incident keeps its first OTel type
unfoldable pub target_incident_type : IncidentReport → Input → String
unfolding report_incident_type
target_incident_type report input =
    let reported = report_incident_type report in
    if is_otel_incident_type reported
      && (is_otel_incident_type input.incident_type
          && (not (reported == "") && not (reported == input.incident_type)))
    then reported
    else input.incident_type

-- applyDiagnosticAnnotations
unfoldable pub apply_trace_id : Annotations → String → Annotations
apply_trace_id a trace_id =
    if not (trace_id == "")
    then record a { trace_id = trace_id; trace_ids = merge_trace_id_list a.trace_ids trace_id }
    else if (a.trace_ids == "") && not (a.trace_id == "")
    then record a { trace_ids = a.trace_id }
    else a

unfoldable pub apply_diagnostic_annotations : Annotations → Input → Annotations
unfolding apply_trace_id
apply_diagnostic_annotations a input =
    let b = apply_trace_id a input.trace_id in
    if not (input.fired_rule == "") then record b { fired_rule = input.fired_rule } else b

abbrev no_annotations : Annotations
no_annotations = record {
  signal = "";
  dedup_key = "";
  last_seen = "";
  signal_seen = "";
  trace_id = "";
  trace_ids = "";
  fired_rule = "";
  open_sent = "";
  resolved_sent = "";
  resolved_metric = "";
}

module _ (platform : Platform) where
  unfoldable pub build_initial_annotations : Input → Annotations
  unfolding apply_diagnostic_annotations
  build_initial_annotations input =
      apply_diagnostic_annotations
        (record no_annotations {
          signal = input.summary;
          dedup_key = input.dedup_key;
          last_seen = platform.format_rfc3339 input.observed_at;
          signal_seen = "1";
        })
        input

  -- the object of the Create call; its name is GenerateName, which the API server completes
  unfoldable pub initial_report : Input → String → String → IncidentReport
  initial_report input fingerprint hash = record {
    namespace = input.namespace;
    name =
        to_lower input.incident_type ++ "-" ++ safe_name_token (primary_resource_name input) ++ "-";
    created = 0;
    labels = record {
      agent = input.agent_ref;
      severity = input.severity;
      incident_type = input.incident_type;
      pod_name = safe_label_value (primary_pod_name input);
      fingerprint_hash = hash;
    };
    annotations = build_initial_annotations input;
    spec = record {
      agent_ref = input.agent_ref;
      fingerprint = fingerprint;
      incident_type = input.incident_type;
      scope = input.scope;
    };
    status = empty_status;
  }

  -- the annotations that both an update and a reopening write
  unfoldable pub seen_again : Annotations → Input → Annotations
  seen_again a input =
      apply_diagnostic_annotations
        (record a {
          signal = input.summary;
          dedup_key = input.dedup_key;
          last_seen = platform.format_rfc3339 input.observed_at;
          signal_seen = increment_counter a.signal_seen;
        })
        input

  -- the counter annotation starts from the status, where it is missing
  abbrev counted : IncidentReport → Annotations
  counted report =
      let a = report.annotations in
      if (a.signal_seen == "") && ltb 0 report.status.signal_count
      then record a { signal_seen = itoa report.status.signal_count }
      else a

  -- updateActiveIncident, up to the first Patch
  unfoldable pub update_meta : IncidentReport → Input → String → String → IncidentReport
  update_meta report input fingerprint hash =
      let target = target_incident_type report input in
      record report {
        labels = record report.labels {
          severity = higher_severity report.labels.severity input.severity;
          incident_type = target;
          fingerprint_hash = hash;
          pod_name = safe_label_value (primary_pod_name input);
        };
        annotations = seen_again (counted report) input;
        spec = record report.spec {
          fingerprint = fingerprint;
          incident_type = target;
          scope = input.scope;
        };
      }

  -- reopenIncident, up to the first Patch
  unfoldable pub reopen_meta : IncidentReport → Input → String → String → IncidentReport
  reopen_meta report input fingerprint hash =
      let target = target_incident_type report input in
      record report {
        labels = record report.labels {
          severity = higher_severity report.labels.severity input.severity;
          incident_type = target;
          fingerprint_hash = hash;
        };
        annotations = seen_again report.annotations input;
        spec = record report.spec {
          fingerprint = fingerprint;
          incident_type = target;
          scope = input.scope;
        };
      }

-- the status that createIncident patches in
unfoldable pub initial_status : Input → IncidentReportStatus
initial_status input = record empty_status {
  severity = input.severity;
  phase = phase_detecting;
  incident_type = input.incident_type;
  summary = input.summary;
  reason = input.reason;
  message = input.message;
  first_observed_at = some input.observed_at;
  last_observed_at = some input.observed_at;
  start_time = some input.observed_at;
  signal_count = 1;
  stabilization_window_seconds = stabilization_seconds;
  affected_resources = input.affected_resources;
  correlated_signals = input.summary ∷ [];
  timeline = append_timeline [] input.observed_at input.summary;
}

-- updateActiveIncident, from the first Patch on; `target` is the type computed before it
unfoldable pub update_status : IncidentReportStatus → String → Input → IncidentReportStatus
update_status s target input = record s {
  severity = higher_severity s.severity input.severity;
  incident_type = target;
  summary = input.summary;
  reason = input.reason;
  message = input.message;
  last_observed_at = some input.observed_at;
  start_time = s.first_observed_at;
  signal_count = s.signal_count + 1;
  timeline = append_timeline s.timeline input.observed_at input.summary;
  correlated_signals = trim_signals (s.correlated_signals append input.summary ∷ []);
  affected_resources = merge_affected_resources s.affected_resources input.affected_resources;
}

-- reopenIncident, from the first Patch on
unfoldable pub reopen_status : IncidentReportStatus → String → Input → IncidentReportStatus
reopen_status s target input = record s {
  phase = phase_detecting;
  resolved_time = none;
  resolved_at = none;
  active_at = none;
  first_observed_at = some input.observed_at;
  last_observed_at = some input.observed_at;
  start_time = some input.observed_at;
  severity = higher_severity s.severity input.severity;
  incident_type = target;
  summary = input.summary;
  reason = input.reason;
  message = input.message;
  signal_count = if nat_eq s.signal_count 0 then 1 else s.signal_count + 1;
  stabilization_window_seconds = stabilization_seconds;
  timeline = append_timeline s.timeline input.observed_at ("Incident re-opened: " ++ input.summary);
  correlated_signals = trim_signals (s.correlated_signals append input.summary ∷ []);
  affected_resources = merge_affected_resources s.affected_resources input.affected_resources;
}
