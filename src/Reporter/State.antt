-- ===== src/Reporter/State.antt =====
-- The struct Reporter of internal/reporter/cr_reporter.go, and the outcomes of its methods. What it
-- reports to internal/metrics and to the event recorder is kept as a list, oldest first.
use rca_operator.Base.{String, Bool, List, [], ◌∷◌, ◌++◌, if◌then◌else◌}
use rca_operator.Base.Maps.{Map, put, delete}
use rca_operator.Incident.Report.{IncidentReport}
use rca_operator.Incident.Status.{Metric}
use rca_operator.Reporter.Api.{Api}

-- types.NamespacedName
pub record NamespacedName : Type 0 where
  pub namespace : String
  pub name : String

pub data Emitted : Type 0 where
  signal_deduplicated : String → Emitted
  incident_detecting : String → String → Emitted
  event_detected : String → String → String → Emitted
  event_reopened : String → Emitted
  transition : Metric → Emitted

-- an error of type error: nil or not
pub data Reply : Type 0 where
  done : Reply
  failed : Reply

-- a pair of *IncidentReport and error
pub data Found : Type 0 where
  broken : Found
  absent : Found
  present : IncidentReport → Found

module _ (api : Api) where
  pub record State : Type 0 where
    pub world : api.World
    pub open_by_fingerprint : Map NamespacedName
    -- whether Recorder is set
    pub recorder : Bool
    pub emitted : List Emitted

  abbrev pub emit : Emitted → State → State
  emit m s = record s { emitted = s.emitted ++ m ∷ [] }

  abbrev pub emit_event : Emitted → State → State
  emit_event m s = if s.recorder then emit m s else s

  abbrev pub set_world : api.World → State → State
  set_world w s = record s { world = w }

  -- r.openByFingerprint[fingerprint] = the report's key
  abbrev pub remember : String → IncidentReport → State → State
  remember fingerprint report s = record s {
    open_by_fingerprint =
        put fingerprint (record { namespace = report.namespace; name = report.name })
          s.open_by_fingerprint;
  }

  abbrev pub forget : String → State → State
  forget fingerprint s = record s { open_by_fingerprint = delete fingerprint s.open_by_fingerprint }
