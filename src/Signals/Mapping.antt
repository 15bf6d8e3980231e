-- ===== src/Signals/Mapping.antt =====
-- The mapping table of internal/signals/normalizer.go: SignalMapping, DefaultMappings and
-- NewNormalizer.
use rca_operator.Base.{String, List, [], ◌∷◌}
use rca_operator.Base.Maps.{Map, put}

pub record SignalMapping : Type 0 where
  pub event_type : String
  pub incident_type : String
  pub severity : String
  pub scope_level : String

-- the incident type of a built-in mapping is the event type
abbrev mapping : String → String → String → SignalMapping
mapping type severity scope_level = record {
  event_type = type;
  incident_type = type;
  severity = severity;
  scope_level = scope_level;
}

unfoldable pub default_mappings : List SignalMapping
default_mappings =
    mapping "CrashLoopBackOff" "P3" "Pod"
    ∷ mapping "OOMKilled" "P2" "Pod"
    ∷ mapping "ImagePullBackOff" "P3" "Workload"
    ∷ mapping "PodPendingTooLong" "P3" "Pod"
    ∷ mapping "GracePeriodViolation" "P2" "Pod"
    ∷ mapping "NodeNotReady" "P1" "Cluster"
    ∷ mapping "PodEvicted" "P2" "Pod"
    ∷ mapping "ProbeFailure" "P3" "Pod"
    ∷ mapping "StalledRollout" "P2" "Workload"
    ∷ mapping "NodePressure" "P2" "Cluster"
    ∷ mapping "StalledStatefulSet" "P2" "Workload"
    ∷ mapping "StalledDaemonSet" "P2" "Workload"
    ∷ mapping "JobFailed" "P3" "Workload"
    ∷ mapping "CronJobFailed" "P3" "Workload"
    ∷ mapping "OTelSpanError" "P3" "Workload"
    ∷ mapping "OTelSpanLatencySpike" "P4" "Workload"
    ∷ mapping "OTelLogMatch" "P4" "Workload"
    ∷ mapping "OTelSpanEvent" "P3" "Workload"
    ∷ []

-- the struct Normalizer
pub record Normalizer : Type 0 where
  pub mappings : Map SignalMapping

-- the loops of NewNormalizer: `n.mappings[m.EventType] = m`
unfoldable pub put_mappings : List SignalMapping → Map SignalMapping → Map SignalMapping
unfolding put
put_mappings [] table = table
put_mappings (m ∷ ms) table = put_mappings ms (put m.event_type m table)

unfoldable pub new_normalizer : List SignalMapping → Normalizer
unfolding put_mappings default_mappings
new_normalizer overrides = record {
  mappings = put_mappings overrides (put_mappings default_mappings []);
}
