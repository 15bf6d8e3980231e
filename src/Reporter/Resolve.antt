-- ===== src/Reporter/Resolve.antt =====
-- ResolveForHealthyPod and ResolveForDeletedPod of internal/reporter/cr_reporter.go.
use Prim.Native.String.{◌++◌}
use rca_operator.Base.{
  ℕ, ◌+◌, String, Bool, false, not, ◌&&◌, ◌||◌, Option, none, some, List, [], ◌∷◌, any_by, ltb,
  if◌then◌else◌, ◌==◌,
}
use rca_operator.Incident.Report.{IncidentReport}
use rca_operator.Incident.Status.{Metric, mark_resolved}
use rca_operator.Reporter.Api.{Api}
use rca_operator.Reporter.Find.{is_resolved}
use rca_operator.Reporter.State.{Reply, done, failed, State, emit, set_world, transition}
use rca_operator.Reporter.Write.{Platform}

-- SignalCooldown: 5 minutes
abbrev pub signal_cooldown : ℕ
signal_cooldown = 300000000000

unfoldable pub incident_affects_pod : IncidentReport → String → String → Bool
incident_affects_pod report pod_name namespace =
    any_by (λ r. (r.kind == "Pod") && ((r.name == pod_name) && (r.namespace == namespace)))
      report.status.affected_resources

-- A pod's conditions: type and status.
pub record Pod : Type 0 where
  pub phase : String
  pub conditions : List (String × String)

abbrev ready_condition : List (String × String) → Bool
ready_condition [] = false
ready_condition ((type, status) ∷ cs) =
    let rest = ready_condition cs in if type == "Ready" then status == "True" else rest

unfoldable pub is_pod_currently_ready : Pod → Bool
is_pod_currently_ready pod = (pod.phase == "Running") && ready_condition pod.conditions

-- The Get call for the pod: an error other than NotFound, NotFound, or the pod.
pub data PodLookup : Type 0 where
  lookup_failed : PodLookup
  not_found : PodLookup
  pod_found : Pod → PodLookup

module _ (platform : Platform) where
  -- lastObserved: the status's instant, else the annotation's where it parses
  unfoldable pub last_observed : IncidentReport → Option ℕ
  last_observed report = elim report.status.last_observed_at [
    | some t ↦ some t
    | none ↦
        if report.annotations.last_seen == ""
        then none
        else platform.parse_rfc3339 report.annotations.last_seen
  ]

  abbrev pub within_cooldown : ℕ → Option ℕ → Bool
  within_cooldown now none = false
  within_cooldown now (some t) = ltb now (t + signal_cooldown)

  -- the negations of the two `continue`s of ResolveForHealthyPod
  unfoldable pub resolves_healthy : ℕ → String → String → IncidentReport → Bool
  resolves_healthy now namespace pod_name report =
      not (is_resolved report || not (incident_affects_pod report pod_name namespace))
      && not (within_cooldown now (last_observed report))

-- the `continue` of ResolveForDeletedPod
unfoldable pub resolves_deleted : String → String → IncidentReport → Bool
resolves_deleted namespace pod_name report =
    not (is_resolved report || not (incident_affects_pod report pod_name namespace))

module _ (api : Api) where
  abbrev pub emit_all : List Metric → State api → State api
  emit_all [] s = s
  emit_all (m ∷ ms) s = emit_all ms (emit api (transition m) s)

  -- the loop over the listed reports, which stops at the first patch that fails
  unfoldable pub resolve_each :
      (IncidentReport → Bool) → ℕ → String → List IncidentReport → State api → State api × Reply
  resolve_each selects now reason [] s = (s, done)
  resolve_each selects now reason (report ∷ rs) s =
      let (resolved, metrics) = mark_resolved report now reason in
      let counted = emit_all metrics s in
      let patched : State api × Reply = elim (api.patch_status resolved s.world) [
        | none ↦ (counted, failed)
        | some w ↦ resolve_each selects now reason rs (set_world api w counted)
      ] in
      let skipped = resolve_each selects now reason rs s in
      if selects report then patched else skipped

  unfoldable pub resolve_listed :
      (IncidentReport → Bool) → ℕ → String → String → State api → State api × Reply
  resolve_listed selects now reason namespace s = elim (api.list namespace s.world) [
    | none ↦ (s, failed)
    | some reports ↦ resolve_each selects now reason reports s
  ]

  unfoldable pub resolve_for_healthy_pod :
      Platform → ℕ → PodLookup → String → String → State api → State api × Reply
  resolve_for_healthy_pod platform now lookup_failed namespace pod_name s = (s, failed)
  resolve_for_healthy_pod platform now not_found namespace pod_name s = (s, done)
  resolve_for_healthy_pod platform now (pod_found pod) namespace pod_name s =
      if is_pod_currently_ready pod
      then resolve_listed (resolves_healthy platform now namespace pod_name) now
          ("Pod " ++ pod_name ++ " became Running and Ready") namespace s
      else (s, done)

  unfoldable pub resolve_for_deleted_pod : ℕ → String → String → State api → State api × Reply
  resolve_for_deleted_pod now namespace pod_name s =
      resolve_listed (resolves_deleted namespace pod_name) now
        ("Pod " ++ pod_name ++ " was deleted from the cluster") namespace s
