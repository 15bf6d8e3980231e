-- ===== src/Incident/Status.antt =====
-- internal/incidentstatus/status.go. What the source reports to internal/metrics is returned beside
-- the report: a transition that is counted, with its instant and the instant from which its
-- duration is measured (none: a duration of 0).
use rca_operator.Base.{
  ℕ, String, not, Option, none, some, List, [], ◌∷◌, ◌++◌, keep_last, if◌then◌else◌, ◌==◌,
}
use rca_operator.Incident.Report.{TimelineEvent, IncidentReportStatus, IncidentReport}

abbrev pub max_timeline_entries : ℕ
max_timeline_entries = 50

abbrev pub phase_detecting : String
phase_detecting = "Detecting"

abbrev pub phase_active : String
phase_active = "Active"

abbrev pub phase_resolved : String
phase_resolved = "Resolved"

pub data Metric : Type 0 where
  incident_activated : String → String → ℕ → Option ℕ → Metric
  incident_resolved : String → String → String → ℕ → Option ℕ → Metric

unfoldable pub append_timeline : List TimelineEvent → ℕ → String → List TimelineEvent
append_timeline tl t msg =
    keep_last max_timeline_entries (tl ++ record { time = t; event = msg } ∷ [])

-- `if first != nil { return first }; return second`
abbrev pub first_some {ℓ} : {A : Type ℓ} → Option A → Option A → Option A
first_some none o = o
first_some (some a) o = some a

unfoldable pub effective_start_time : IncidentReportStatus → Option ℕ
effective_start_time s = first_some s.first_observed_at s.start_time

unfoldable pub effective_resolved_time : IncidentReportStatus → Option ℕ
effective_resolved_time s = first_some s.resolved_at s.resolved_time

unfoldable pub mark_active : IncidentReport → ℕ → String → IncidentReport × List Metric
mark_active report now reason =
    let s = report.status in
    let s' : IncidentReportStatus = record s {
      phase = phase_active;
      active_at = some now;
      timeline = append_timeline s.timeline now reason;
    } in
    (
      record report { status = s' },
      if not (s.phase == phase_active)
          then incident_activated s.incident_type s.severity now (effective_start_time s') ∷ []
          else [],
    )

unfoldable pub mark_resolved : IncidentReport → ℕ → String → IncidentReport × List Metric
mark_resolved report now reason =
    let s = report.status in
    let s' : IncidentReportStatus = record s {
      phase = phase_resolved;
      resolved_at = some now;
      resolved_time = some now;
      timeline = append_timeline s.timeline now reason;
    } in
    let since = if s.phase == phase_active then s.active_at else effective_start_time s' in
    (
      record report { status = s' },
      if not (s.phase == phase_resolved)
          then incident_resolved s.incident_type s.severity s.phase now since ∷ []
          else [],
    )
