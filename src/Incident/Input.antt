-- ===== src/Incident/Input.antt =====
-- internal/incident/model.go: the canonical input of a signal and its identity.
use Prim.Native.String.{◌++◌}
use rca_operator.Base.{
  ℕ, String, Bool, not, ◌&&◌, Option, none, some, List, [], ◌∷◌, if◌then◌else◌, ◌==◌,
}
use mathlib.Core.List.{◌++◌ as ◌append◌}
use rca_operator.Base.Texts.{to_lower, has_prefix, trim_space}
use rca_operator.Base.Join.{join}
use rca_operator.Incident.Report.{AffectedResource, IncidentObjectRef, IncidentScope}

-- ObservedAt is 0 where the source has the zero time.
pub record Input : Type 0 where
  pub namespace : String
  pub agent_ref : String
  pub incident_type : String
  pub severity : String
  pub summary : String
  pub reason : String
  pub message : String
  pub dedup_key : String
  pub observed_at : ℕ
  pub scope : IncidentScope
  pub affected_resources : List AffectedResource
  pub trace_id : String
  pub fired_rule : String

-- `if s != "" { parts = append(parts, s) }`
abbrev pub nonempty : String → List String
nonempty s = if s == "" then [] else s ∷ []

-- `if ref != nil { parts = append(parts, strings.ToLower(ref.Kind), ref.Name) }`
abbrev pub ref_parts : Option IncidentObjectRef → List String
ref_parts none = []
ref_parts (some ref) = to_lower ref.kind ∷ ref.name ∷ []

-- the switch of Fingerprint, which reportFingerprint repeats up to its default case
unfoldable pub scope_parts : IncidentScope → List String → List String
scope_parts scope otherwise =
    if scope.level == "Cluster"
    then "Cluster" ∷ ref_parts scope.resource_ref
    else if scope.level == "Workload"
    then "Workload" ∷ (nonempty scope.namespace append ref_parts scope.workload_ref)
    else if scope.level == "Namespace"
    then "Namespace" ∷ nonempty scope.namespace
    else if scope.level == "Pod"
    then "Pod" ∷ (nonempty scope.namespace append ref_parts scope.resource_ref)
    else otherwise

unfoldable pub fingerprint : Input → String
unfolding scope_parts
fingerprint input =
    join "|"
      (scope_parts input.scope (nonempty input.namespace append ref_parts input.scope.resource_ref))

unfoldable pub is_otel_incident_type : String → Bool
is_otel_incident_type incident_type = has_prefix (trim_space incident_type) "OTel"

unfoldable pub summary_from_parts : String → String → String → String
summary_from_parts incident_type reason message =
    if not (reason == "") && not (message == "")
    then incident_type ++ " reason=" ++ reason ++ " message=" ++ message
    else if not (reason == "")
    then incident_type ++ " reason=" ++ reason
    else if not (message == "")
    then incident_type ++ " message=" ++ message
    else incident_type
