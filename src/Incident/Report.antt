-- ===== src/Incident/Report.antt =====
-- The resource IncidentReport of api/v1alpha1/incidentreport_types.go, with the labels and the
-- annotations that the operator reads and writes as fields of their own ("" where a key is missing:
-- the operator tests annotations against ""). Instants are nanoseconds.
use rca_operator.Base.{ℕ, String, Bool, false, Option, none, List, []}

pub record AffectedResource : Type 0 where
  pub api_version : String
  pub kind : String
  pub name : String
  pub namespace : String
  pub uid : String

pub record IncidentObjectRef : Type 0 where
  pub api_version : String
  pub kind : String
  pub namespace : String
  pub name : String
  pub uid : String

pub record IncidentScope : Type 0 where
  pub level : String
  pub namespace : String
  pub workload_ref : Option IncidentObjectRef
  pub resource_ref : Option IncidentObjectRef

pub record TimelineEvent : Type 0 where
  pub time : ℕ
  pub event : String

pub record IncidentReportSpec : Type 0 where
  pub agent_ref : String
  pub fingerprint : String
  pub incident_type : String
  pub scope : IncidentScope

-- `conditions` is left out: no code of the operator reads or writes it.
pub record IncidentReportStatus : Type 0 where
  pub severity : String
  pub phase : String
  pub incident_type : String
  pub summary : String
  pub reason : String
  pub message : String
  pub first_observed_at : Option ℕ
  pub active_at : Option ℕ
  pub last_observed_at : Option ℕ
  pub start_time : Option ℕ
  pub resolved_time : Option ℕ
  pub resolved_at : Option ℕ
  pub signal_count : ℕ
  pub stabilization_window_seconds : ℕ
  pub notified : Bool
  pub affected_resources : List AffectedResource
  pub correlated_signals : List String
  pub timeline : List TimelineEvent
  pub incident_graph : Option String

-- IncidentReportStatus{}
abbrev pub empty_status : IncidentReportStatus
empty_status = record {
  severity = "";
  phase = "";
  incident_type = "";
  summary = "";
  reason = "";
  message = "";
  first_observed_at = none;
  active_at = none;
  last_observed_at = none;
  start_time = none;
  resolved_time = none;
  resolved_at = none;
  signal_count = 0;
  stabilization_window_seconds = 0;
  notified = false;
  affected_resources = [];
  correlated_signals = [];
  timeline = [];
  incident_graph = none;
}

-- metadata.labels under rca.rca-operator.tech/
pub record Labels : Type 0 where
  pub agent : String
  pub severity : String
  pub incident_type : String
  pub pod_name : String
  pub fingerprint_hash : String

-- metadata.annotations under rca.rca-operator.tech/
pub record Annotations : Type 0 where
  pub signal : String
  pub dedup_key : String
  pub last_seen : String
  pub signal_seen : String
  pub trace_id : String
  pub trace_ids : String
  pub fired_rule : String
  pub open_sent : String
  pub resolved_sent : String
  pub resolved_metric : String

pub record IncidentReport : Type 0 where
  pub namespace : String
  pub name : String
  pub created : ℕ
  pub labels : Labels
  pub annotations : Annotations
  pub spec : IncidentReportSpec
  pub status : IncidentReportStatus
