-- ===== src/Signals/Enricher.antt =====
-- internal/signals/enricher.go. Both outcomes of ResolvePodScope are handled alike, but for a line in
-- the log.
pub mod Owner
use rca_operator.Base.{String, Bool, not, ◌&&◌, Option, none, some, [], ◌∷◌, if◌then◌else◌, ◌==◌}
use rca_operator.Incident.Input.{Input}
use rca_operator.Incident.Report.{IncidentObjectRef}
use rca_operator.Incident.Resolver.{Objects, resolve_pod_scope}
use rca_operator.Incident.Resources.{merge_affected_resources}
use rca_operator.Signals.Guess.{guess_deployment_name_from_pod}
use rca_operator.Signals.Normalizer.{object_ref, affected_object}

-- the end of promoteToWorkloadScope: the Deployment that the name of the pod shows
unfoldable pub promote_by_name : String → String → Input → Input
promote_by_name namespace pod_name input =
    let name = guess_deployment_name_from_pod pod_name in
    let ref = some (object_ref "apps/v1" "Deployment" namespace name) in
    if name == "" then input else record input {
      scope = record {
        level = "Workload";
        namespace = namespace;
        workload_ref = ref;
        resource_ref = ref;
      };
      affected_resources =
          merge_affected_resources input.affected_resources
            (affected_object "apps/v1" "Deployment" namespace name ∷ []);
    }

-- promoteToWorkloadScope by the reference to the workload
unfoldable pub promote : Option IncidentObjectRef → String → String → Input → Input
promote none namespace pod_name input = promote_by_name namespace pod_name input
promote (some ref) namespace pod_name input =
    if ref.name == "" then promote_by_name namespace pod_name input else record input {
      scope = record input.scope {
        level = "Workload";
        namespace = namespace;
        resource_ref = some ref;
      };
    }

unfoldable pub promote_to_workload_scope : Input → String → String → Input
promote_to_workload_scope input namespace pod_name =
    promote input.scope.workload_ref namespace pod_name input

-- sig.Scope.ResourceRef.Name, or "" where the reference is nil
abbrev pub resource_name : Option IncidentObjectRef → String
resource_name none = ""
resource_name (some ref) = ref.name

abbrev pub or_existing :
    Option IncidentObjectRef → Option IncidentObjectRef → Option IncidentObjectRef
or_existing none existing = existing
or_existing (some ref) existing = some ref

-- the signal with what the resolver found of its pod, promoted
unfoldable pub enrich_pod : Objects → String → Input → Input
enrich_pod objects pod_name input =
    let found = resolve_pod_scope objects input.namespace pod_name in
    promote_to_workload_scope
      (record input {
        scope = record found.scope {
          workload_ref = or_existing found.scope.workload_ref input.scope.workload_ref;
        };
        affected_resources = found.affected;
      })
      input.namespace pod_name

unfoldable pub enrich : Objects → Input → Input
enrich objects input =
    let pod_name = resource_name input.scope.resource_ref in
    if not (input.scope.level == "Pod")
    then input
    else if pod_name == ""
    then input
    else enrich_pod objects pod_name input
