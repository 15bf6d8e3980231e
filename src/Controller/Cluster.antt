-- ===== src/Controller/Cluster.antt =====
-- incidentStillPresent of internal/controller/incidentreport_controller.go: does the cluster still
-- show the problem? The objects of the cluster are a parameter, with the fields that the code reads.
use rca_operator.Base.{
  ℕ, String, Bool, false, not, ◌&&◌, ◌||◌, Option, none, some, List, any_by, find_by, ltb,
  if◌then◌else◌, ◌==◌,
}
use rca_operator.Incident.Report.{AffectedResource, IncidentObjectRef, IncidentReport}
use rca_operator.Reporter.Resolve.{Pod, is_pod_currently_ready}

-- A Get call: an error other than NotFound, NotFound, or the object.
pub data Lookup {ℓ} (A : Type ℓ) : Type ℓ where
  unavailable : Lookup A
  missing : Lookup A
  got : A → Lookup A

-- A condition of an object's status.
pub record Condition : Type 0 where
  pub type : String
  pub status : String
  pub reason : String

pub record StatefulSet : Type 0 where
  pub update_revision : String
  pub current_revision : String
  pub replicas : Option ℕ
  pub updated_replicas : ℕ

pub record DaemonSet : Type 0 where
  pub desired_number_scheduled : ℕ
  pub updated_number_scheduled : ℕ

-- The reads of the cluster during one reconciliation. Nodes, deployments and jobs are given by their
-- conditions, a cron job, which is only looked for, by its name.
pub record Cluster : Type 0 where
  pub pod : String → String → Lookup Pod
  pub node : String → Lookup (List Condition)
  pub deployment : String → String → Lookup (List Condition)
  pub stateful_set : String → String → Lookup StatefulSet
  pub daemon_set : String → String → Lookup DaemonSet
  pub job : String → String → Lookup (List Condition)
  pub cron_job : String → String → Lookup String

-- `return false, client.IgnoreNotFound(err)`: none is an error
abbrev read {ℓ} : {A : Type ℓ} → (A → Bool) → Lookup A → Option Bool
read p unavailable = none
read p missing = some false
read p (got a) = some (p a)

abbrev is_pressure : String → Bool
is_pressure type =
    (type == "DiskPressure") || ((type == "MemoryPressure") || (type == "PIDPressure"))

-- the switch over the type of a node's condition
abbrev shows_node_problem : Condition → Bool
shows_node_problem c =
    if c.type == "Ready"
    then not (c.status == "True")
    else is_pressure c.type && (c.status == "True")

abbrev exceeds_deadline : Condition → Bool
exceeds_deadline c =
    (c.type == "Progressing") && ((c.status == "False") && (c.reason == "ProgressDeadlineExceeded"))

abbrev job_failed : Condition → Bool
job_failed c = (c.type == "Failed") && (c.status == "True")

abbrev desired_replicas : Option ℕ → ℕ
desired_replicas none = 1
desired_replicas (some n) = n

unfoldable pub stateful_set_stalled : StatefulSet → Bool
stateful_set_stalled s =
    not (s.update_revision == s.current_revision)
    && ltb s.updated_replicas (desired_replicas s.replicas)

unfoldable pub daemon_set_stalled : DaemonSet → Bool
daemon_set_stalled d =
    ltb 0 d.desired_number_scheduled && ltb d.updated_number_scheduled d.desired_number_scheduled

module _ (cluster : Cluster) where
  unfoldable pub pod_incident_still_present : String → String → Option Bool
  pod_incident_still_present namespace name =
      read (λ pod. not (is_pod_currently_ready pod)) (cluster.pod namespace name)

  unfoldable pub node_incident_still_present : String → Option Bool
  node_incident_still_present name = read (any_by shows_node_problem) (cluster.node name)

  unfoldable pub deployment_incident_still_present : String → String → Option Bool
  deployment_incident_still_present namespace name =
      read (any_by exceeds_deadline) (cluster.deployment namespace name)

  unfoldable pub stateful_set_incident_still_present : String → String → Option Bool
  stateful_set_incident_still_present namespace name =
      read stateful_set_stalled (cluster.stateful_set namespace name)

  unfoldable pub daemon_set_incident_still_present : String → String → Option Bool
  daemon_set_incident_still_present namespace name =
      read daemon_set_stalled (cluster.daemon_set namespace name)

  unfoldable pub job_incident_still_present : String → String → Option Bool
  job_incident_still_present namespace name = read (any_by job_failed) (cluster.job namespace name)

  unfoldable pub cron_job_incident_still_present : String → String → Option Bool
  cron_job_incident_still_present namespace name =
      read (λ found. false) (cluster.cron_job namespace name)

  -- the switch over the kind of a workload; `otherwise` is what follows it
  unfoldable pub workload_still_present : String → String → String → Option Bool → Option Bool
  workload_still_present kind namespace name otherwise =
      if kind == "Deployment"
      then deployment_incident_still_present namespace name
      else if kind == "StatefulSet"
      then stateful_set_incident_still_present namespace name
      else if kind == "DaemonSet"
      then daemon_set_incident_still_present namespace name
      else if kind == "Job"
      then job_incident_still_present namespace name
      else if kind == "CronJob"
      then cron_job_incident_still_present namespace name
      else otherwise

  abbrev resource_ref_present : Option IncidentObjectRef → Option Bool → Option Bool
  resource_ref_present none otherwise = otherwise
  resource_ref_present (some ref) otherwise =
      if ref.kind == "Node"
      then node_incident_still_present ref.name
      else if ref.kind == "Pod"
      then pod_incident_still_present ref.namespace ref.name
      else workload_still_present ref.kind ref.namespace ref.name otherwise

  abbrev workload_ref_present : Option IncidentObjectRef → Option Bool → Option Bool
  workload_ref_present none otherwise = otherwise
  workload_ref_present (some ref) otherwise =
      workload_still_present ref.kind ref.namespace ref.name otherwise

  abbrev node_present : Option AffectedResource → Option Bool → Option Bool
  node_present none otherwise = otherwise
  node_present (some res) otherwise = node_incident_still_present res.name

  abbrev pod_present : Option AffectedResource → Option Bool
  pod_present none = some false
  pod_present (some res) = pod_incident_still_present res.namespace res.name

  unfoldable pub incident_still_present : IncidentReport → Option Bool
  incident_still_present report = resource_ref_present report.spec.scope.resource_ref (
      workload_ref_present report.spec.scope.workload_ref (
        node_present (find_by (λ res. res.kind == "Node") report.status.affected_resources)
          (pod_present (find_by (λ res. res.kind == "Pod") report.status.affected_resources))))
