-- ===== src/Reporter/Fingerprint.antt =====
-- reportFingerprint and stripLegacyOTelFingerprintType of internal/reporter/cr_reporter.go.
pub mod Plain
use Prim.Native.String.{String}
use rca_operator.Base.{Bool, ◌||◌, not, List, [], ◌∷◌, if◌then◌else◌, ◌==◌}
use rca_operator.Base.Texts.{to_lower, has_prefix}
use rca_operator.Base.Join.{join}
use rca_operator.Incident.Report.{AffectedResource, IncidentReport}
use rca_operator.Incident.Input.{scope_parts, is_otel_incident_type}

-- the first result of strings.Cut(s, marker), where the marker is found; else the text
unfoldable pub before : String → String → String
unfolding has_prefix
before marker String.[] = String.[]
before marker (String.◌∷◌ c s) =
    let rest = String.◌∷◌ c (before marker s) in
    if has_prefix (String.◌∷◌ c s) marker then String.[] else rest

unfoldable pub strip_legacy_type : String → String
unfolding before
strip_legacy_type fingerprint = before "|type|OTel" fingerprint

abbrev is_workload_kind : String → Bool
is_workload_kind kind =
    (kind == "Deployment")
    || ((kind == "StatefulSet")
        || ((kind == "DaemonSet")
            || ((kind == "Job") || ((kind == "CronJob") || (kind == "ReplicaSet")))))

-- the default case for incidents without a scope level: the first affected resource of a known kind
unfoldable pub resource_fingerprint : List AffectedResource → String → String
resource_fingerprint [] otherwise = otherwise
resource_fingerprint (res ∷ rs) otherwise =
    let rest = resource_fingerprint rs otherwise in
    if res.kind == "Node"
    then join "|" ("Cluster" ∷ "node" ∷ res.name ∷ [])
    else if is_workload_kind res.kind
    then join "|" ("Workload" ∷ res.namespace ∷ to_lower res.kind ∷ res.name ∷ [])
    else if res.kind == "Pod"
    then join "|" ("Pod" ∷ res.namespace ∷ "pod" ∷ res.name ∷ [])
    else rest

unfoldable pub has_scope_level : String → Bool
has_scope_level level =
    (level == "Cluster") || ((level == "Workload") || ((level == "Namespace") || (level == "Pod")))

unfoldable pub report_fingerprint : IncidentReport → String
unfolding strip_legacy_type resource_fingerprint has_scope_level scope_parts
report_fingerprint report =
    let stored = report.spec.fingerprint in
    let otel =
      is_otel_incident_type report.spec.incident_type
      || is_otel_incident_type report.status.incident_type in
    let otherwise =
      if report.namespace == ""
      then report.name
      else join "|" ("Namespace" ∷ report.namespace ∷ []) in
    if not (stored == "")
    then (if otel then strip_legacy_type stored else stored)
    else if has_scope_level report.spec.scope.level
    then join "|" (scope_parts report.spec.scope [])
    else resource_fingerprint report.status.affected_resources otherwise
