-- ===== src/Incident/Resolver.antt =====
-- internal/incident/resolver.go: the scope of a pod, by its owners. The Get calls and
-- metav1.GetControllerOf are a parameter: what the cluster holds while a signal is handled.
use rca_operator.Base.{
  String, Bool, true, false, ◌||◌, Option, none, some, List, [], ◌∷◌, if◌then◌else◌, ◌==◌,
}
use rca_operator.Incident.Report.{AffectedResource, IncidentObjectRef, IncidentScope}
use rca_operator.Incident.Resources.{append_if_missing}

-- metav1.OwnerReference, where Controller is set
pub record OwnerReference : Type 0 where
  pub api_version : String
  pub kind : String
  pub name : String
  pub uid : String

-- what the resolver reads of a pod or of a ReplicaSet
pub record OwnedObject : Type 0 where
  pub namespace : String
  pub name : String
  pub uid : String
  pub node_name : String
  pub controller : Option OwnerReference

-- The Get calls; none is any error.
pub record Objects : Type 0 where
  pub get_pod : String → String → Option OwnedObject
  pub get_replica_set : String → String → Option OwnedObject

-- an IncidentScope, its affected resources, and whether there was an error
pub record PodScope : Type 0 where
  pub scope : IncidentScope
  pub affected : List AffectedResource
  pub failed : Bool

-- a reference to the owner itself
abbrev pub owner_ref : String → String → String → OwnerReference → IncidentObjectRef
owner_ref api_version kind namespace owner = record {
  api_version = api_version;
  kind = kind;
  namespace = namespace;
  name = owner.name;
  uid = owner.uid;
}

abbrev replica_set_ref : OwnedObject → String → IncidentObjectRef
replica_set_ref rs namespace = record {
  api_version = "apps/v1";
  kind = "ReplicaSet";
  namespace = namespace;
  name = rs.name;
  uid = rs.uid;
}

-- the end of the case "ReplicaSet", once the ReplicaSet is read
abbrev pub replica_set_owner : String → OwnedObject → IncidentObjectRef
replica_set_owner namespace rs = elim rs.controller [
  | none ↦ replica_set_ref rs namespace
  | some owner ↦
      if owner.kind == "Deployment"
      then owner_ref owner.api_version "Deployment" namespace owner
      else replica_set_ref rs namespace
]

-- the switch of resolveTopOwner
unfoldable pub owner_of : Objects → String → OwnerReference → IncidentObjectRef
owner_of objects namespace owner =
    let through_replica_set : IncidentObjectRef =
      elim (objects.get_replica_set namespace owner.name) [
        | none ↦ owner_ref "apps/v1" "ReplicaSet" namespace owner
        | some rs ↦ replica_set_owner namespace rs
      ] in
    if (owner.kind == "StatefulSet") || ((owner.kind == "DaemonSet") || (owner.kind == "Job"))
    then owner_ref owner.api_version owner.kind namespace owner
    else if owner.kind == "ReplicaSet"
    then through_replica_set
    else if owner.kind == "CronJob"
    then owner_ref "batch/v1" "CronJob" namespace owner
    else owner_ref owner.api_version owner.kind namespace owner

unfoldable pub resolve_top_owner : Objects → OwnedObject → Option IncidentObjectRef
resolve_top_owner objects pod = elim pod.controller [
  | none ↦ none
  | some owner ↦ some (owner_of objects pod.namespace owner)
]

abbrev pod_object_ref : String → String → String → IncidentObjectRef
pod_object_ref namespace name uid = record {
  api_version = "v1";
  kind = "Pod";
  namespace = namespace;
  name = name;
  uid = uid;
}

abbrev pod_affected : String → String → String → String → AffectedResource
pod_affected api_version namespace name uid = record {
  api_version = api_version;
  kind = "Pod";
  name = name;
  namespace = namespace;
  uid = uid;
}

abbrev node_affected : String → AffectedResource
node_affected name = record {
  api_version = "v1";
  kind = "Node";
  name = name;
  namespace = "";
  uid = "";
}

abbrev pub workload_affected : IncidentObjectRef → AffectedResource
workload_affected ref = record {
  api_version = ref.api_version;
  kind = ref.kind;
  name = ref.name;
  namespace = ref.namespace;
  uid = ref.uid;
}

-- `if pod.Spec.NodeName != ""`
abbrev pub on_node : String → List AffectedResource → List AffectedResource
on_node node_name affected =
    if node_name == "" then affected else append_if_missing affected (node_affected node_name)

-- the result for a pod that was read, with its owner
unfoldable pub pod_with_owner : String → OwnedObject → Option IncidentObjectRef → PodScope
pod_with_owner namespace pod none = record {
  scope = record {
    level = "Pod";
    namespace = namespace;
    workload_ref = none;
    resource_ref = some (pod_object_ref namespace pod.name pod.uid);
  };
  affected = on_node pod.node_name (pod_affected "v1" namespace pod.name pod.uid ∷ []);
  failed = false;
}
pod_with_owner namespace pod (some w) = record {
  scope = record {
    level = "Workload";
    namespace = namespace;
    workload_ref = some w;
    resource_ref = some (pod_object_ref namespace pod.name pod.uid);
  };
  affected =
      on_node pod.node_name
        (pod_affected "v1" namespace pod.name pod.uid ∷ workload_affected w ∷ []);
  failed = false;
}

-- ResolvePodScope by the result of the Get call
unfoldable pub scope_of_pod : Objects → String → String → Option OwnedObject → PodScope
scope_of_pod objects namespace pod_name none = record {
  scope = record {
    level = "Pod";
    namespace = namespace;
    workload_ref = none;
    resource_ref = some (pod_object_ref namespace pod_name "");
  };
  affected = pod_affected "" namespace pod_name "" ∷ [];
  failed = true;
}
scope_of_pod objects namespace pod_name (some pod) =
    pod_with_owner namespace pod (resolve_top_owner objects pod)

unfoldable pub resolve_pod_scope : Objects → String → String → PodScope
resolve_pod_scope objects namespace pod_name =
    scope_of_pod objects namespace pod_name (objects.get_pod namespace pod_name)
