-- ===== src/Agent.antt =====
-- The retention of reports and the check for orphaned ones, of
-- internal/controller/rcaagent_controller.go. A time of 0 is the zero time. The calls beside those of
-- the reporter's client are a parameter; log lines are left out.
pub mod Secrets
pub mod Loops
pub mod Graphs
pub mod Orphans
pub mod Expired
pub mod Kept
use rca_operator.Base.{
  ℕ, ◌+◌, ◌-◌, ◌/◌, ◌^◌, String, Bool, true, false, not, ◌&&◌, ◌||◌, Option, none, some, List, [],
  ◌∷◌, ◌++◌, any_by, ltb, nat_eq, if◌then◌else◌, ◌==◌,
}
use rca_operator.Base.Sort.{sort}
use rca_operator.Base.Texts.{str_lt, trim_space}
use rca_operator.Incident.Report.{IncidentReport, AffectedResource}
use rca_operator.Incident.Status.{Metric, effective_resolved_time, mark_resolved}
use rca_operator.Reporter.Api.{Api}
use rca_operator.Reporter.Find.{is_resolved}
use rca_operator.Reporter.Resolve.{PodLookup, lookup_failed, not_found, pod_found}
use rca_operator.Reporter.State.{Reply, done, failed}
use rca_operator.Retention.{parse_incident_retention}

-- the fields of an RCAAgent that are read here; a negative number of days counts as 0
pub record Agent : Type 0 where
  pub namespace : String
  pub name : String
  -- the secret references of the notifications, none where Slack or PagerDuty is not set
  pub slack_webhook_secret_ref : Option String
  pub pager_duty_secret_ref : Option String
  pub watch_namespaces : List String
  pub incident_retention : String
  pub incident_retention_days : ℕ

pub record AgentCalls (api : Api) : Type 0 where
  pub delete : IncidentReport → api.World → Option api.World
  -- whether a write that failed did so with NotFound
  pub is_gone : IncidentReport → api.World → Bool
  pub get_pod : String → String → api.World → PodLookup
  pub list_namespaces : api.World → Option (List String)

-- the loop of normalizeNamespaces, with the names that were seen
unfoldable pub unique_names : List String → List String → List String
unique_names seen [] = []
unique_names seen (ns ∷ namespaces) =
    let trimmed = trim_space ns in
    let skipped = (trimmed == "") || any_by (λ n. n == trimmed) seen in
    let rest = unique_names (if skipped then seen else trimmed ∷ seen) namespaces in
    if skipped then rest else trimmed ∷ rest

unfoldable pub normalize_namespaces : List String → List String
normalize_namespaces namespaces = sort str_lt (unique_names [] namespaces)

unfoldable pub belongs_to_agent : IncidentReport → String → Bool
belongs_to_agent report agent_name =
    (report.spec.agent_ref == agent_name) || (report.labels.agent == agent_name)

-- `now.Sub(t) > d` for a 64-bit duration, which is negative from 2^63 on
unfoldable pub is_older : ℕ → ℕ → ℕ → Bool
is_older now t d = if ltb d (2 ^ 63) then ltb (t + d) now else ltb t (now + (2 ^ 64 - d))

unfoldable pub resolved_before : ℕ → ℕ → Option ℕ → Bool
resolved_before now retention none = false
resolved_before now retention (some t) = not (nat_eq t 0) && is_older now t retention

unfoldable pub should_prune_incident_report : IncidentReport → ℕ → ℕ → Bool
should_prune_incident_report report now retention =
    if is_resolved report
    then resolved_before now retention (effective_resolved_time report.status)
    else if report.status.phase == ""
    then is_older now report.created retention
    else false

unfoldable pub set_or : ℕ → Option ℕ → ℕ
set_or t none = t
set_or t (some u) = if nat_eq u 0 then t else u

unfoldable pub incident_graph_anchor : IncidentReport → ℕ
incident_graph_anchor report =
    set_or (set_or report.created report.status.active_at) report.status.first_observed_at

-- retention / 4, 0 where that is not positive
unfoldable pub graph_ttl : ℕ → ℕ
graph_ttl retention = if ltb retention (2 ^ 63) then retention / 4 else 0

abbrev has_graph : Option String → Bool
has_graph none = false
has_graph (some g) = true

unfoldable pub loses_graph : ℕ → ℕ → IncidentReport → Bool
loses_graph now ttl report =
    has_graph report.status.incident_graph
    && (not (nat_eq (incident_graph_anchor report) 0)
        && is_older now (incident_graph_anchor report) ttl)

unfoldable pub is_not_found : PodLookup → Bool
is_not_found lookup_failed = false
is_not_found not_found = true
is_not_found (pod_found pod) = false

module _ (api : Api) where
  -- the cluster, the metrics, and whether the method returned an error
  pub record Progress : Type 0 where
    pub world : api.World
    pub metrics : List Metric
    pub reply : Reply

  abbrev pub begun : api.World → Progress
  begun w = record { world = w; metrics = []; reply = done }

  unfoldable pub unless_failed : Reply → Progress → Progress → Progress
  unless_failed failed p q = p
  unless_failed done p q = q

  -- the loop over the reports of a namespace
  unfoldable pub over_reports :
      (IncidentReport → Progress → Progress) → List IncidentReport → Progress → Progress
  over_reports step [] p = p
  over_reports step (r ∷ rs) p = over_reports step rs (unless_failed p.reply p (step r p))

  unfoldable pub over_listed :
      (IncidentReport → Progress → Progress) → Option (List IncidentReport) → Progress → Progress
  over_listed step none p = record p { reply = failed }
  over_listed step (some l) p = over_reports step l p

  -- the loop over the namespaces
  unfoldable pub over_namespaces :
      (IncidentReport → Progress → Progress) → List String → Progress → Progress
  over_namespaces step [] p = p
  over_namespaces step (ns ∷ namespaces) p =
      over_namespaces step namespaces
        (unless_failed p.reply p (over_listed step (api.list ns p.world) p))

  unfoldable pub over_known :
      (IncidentReport → Progress → Progress) → Option (List String) → Progress → Progress
  over_known step none p = record p { reply = failed }
  over_known step (some namespaces) p = over_namespaces step namespaces p

  -- what follows a write: an error ends the method, but for NotFound
  unfoldable pub after_write : Option api.World → Bool → Progress → Progress
  after_write (some w) gone p = record p { world = w }
  after_write none true p = p
  after_write none false p = record p { reply = failed }

  module _ (calls : AgentCalls api) (agent : Agent) (now : ℕ) where
    -- the answer of List is sorted
    unfoldable pub sorted_names : Option (List String) → Option (List String)
    sorted_names none = none
    sorted_names (some namespaces) = some (sort str_lt namespaces)

    unfoldable pub or_all : List String → api.World → Option (List String)
    or_all [] w = sorted_names (calls.list_namespaces w)
    or_all (ns ∷ namespaces) w = some (ns ∷ namespaces)

    unfoldable pub retention_namespaces : api.World → Option (List String)
    retention_namespaces w = or_all (normalize_namespaces agent.watch_namespaces) w

    -- the two guards of the loop of cleanupResolvedIncidents
    unfoldable pub is_due : ℕ → IncidentReport → Bool
    is_due retention report =
        belongs_to_agent report agent.name && should_prune_incident_report report now retention

    -- the body of the loop of cleanupResolvedIncidents
    unfoldable pub delete_due : ℕ → IncidentReport → Progress → Progress
    delete_due retention report p =
        let deleted = after_write (calls.delete report p.world) (calls.is_gone report p.world) p in
        if is_due retention report then deleted else p

    unfoldable pub cleanup_with : Option ℕ → api.World → Progress
    cleanup_with none w = record (begun w) { reply = failed }
    cleanup_with (some retention) w =
        over_known (delete_due retention) (retention_namespaces w) (begun w)

    unfoldable pub cleanup_resolved_incidents : api.World → Progress
    cleanup_resolved_incidents w =
        cleanup_with
          (parse_incident_retention agent.incident_retention agent.incident_retention_days) w

    -- the body of the loop of pruneStaleIncidentGraphs
    unfoldable pub prune_graph : ℕ → IncidentReport → Progress → Progress
    prune_graph ttl report p =
        let pruned = record report { status = record report.status { incident_graph = none } } in
        let written =
          after_write (api.patch_status pruned p.world) (calls.is_gone report p.world) p in
        if belongs_to_agent report agent.name && loses_graph now ttl report then written else p

    unfoldable pub prune_with : Option ℕ → api.World → Progress
    prune_with none w = record (begun w) { reply = failed }
    prune_with (some retention) w =
        let pruned =
          over_known (prune_graph (graph_ttl retention)) (retention_namespaces w) (begun w) in
        if nat_eq (graph_ttl retention) 0 then begun w else pruned

    unfoldable pub prune_stale_incident_graphs : api.World → Progress
    prune_stale_incident_graphs w =
        prune_with (parse_incident_retention agent.incident_retention agent.incident_retention_days)
          w

    -- one of the pods of the report is not found
    unfoldable pub pod_gone : IncidentReport → api.World → Bool
    pod_gone report w =
        any_by (λ res. (res.kind == "Pod") && is_not_found (calls.get_pod res.namespace res.name w))
          report.status.affected_resources

    unfoldable pub is_orphaned : IncidentReport → api.World → Bool
    is_orphaned report w =
        not (is_resolved report) && (belongs_to_agent report agent.name && pod_gone report w)

    -- the body of the loop of resolveOrphanedIncidents
    unfoldable pub resolve_orphan : IncidentReport → Progress → Progress
    resolve_orphan report p =
        let (resolved, metrics) =
          mark_resolved report now "Pod no longer exists in cluster; incident auto-resolved" in
        let written =
          after_write (api.patch_status resolved p.world) (calls.is_gone report p.world)
            (record p { metrics = p.metrics ++ metrics }) in
        if is_orphaned report p.world then written else p

    unfoldable pub resolve_orphaned_incidents : api.World → Progress
    resolve_orphaned_incidents w = over_known resolve_orphan (retention_namespaces w) (begun w)
