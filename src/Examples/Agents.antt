-- ===== src/Examples/Agents.antt =====
-- The retention of an agent at a concrete cluster.
use mathlib.Core.Option.{some-injective, none}
use rca_operator.Base.Sort.{sort, insert}
use rca_operator.Base.Texts.{str_lt, trim_space, trim_left, trim_right, trim_last}
use rca_operator.Incident.Status.{
  effective_resolved_time, mark_resolved, append_timeline, effective_start_time,
}
use rca_operator.Base.{arith, ℕ, ◌≡◌, refl, sym, false, not, some, List, [], ◌∷◌, filter_by, map}
use rca_operator.Incident.Report.{IncidentReport}
use rca_operator.Reporter.Api.{same_object}
use rca_operator.Reporter.Consolidate.{consolidate}
use rca_operator.Reporter.Resolve.{not_found}
use rca_operator.Retention.{parse_incident_retention}
use rca_operator.System.{Reaches, begins, consolidated, orphans_resolved, graphs_pruned, cleaned}
use rca_operator.Agent.{
  normalize_namespaces, unique_names, belongs_to_agent, is_older, resolved_before,
  should_prune_incident_report, is_not_found, unless_failed, over_reports, over_listed,
  over_namespaces, over_known, after_write, sorted_names, or_all, retention_namespaces, delete_due,
  cleanup_with, pod_gone, is_orphaned, resolve_orphan, Agent, AgentCalls, is_due,
  resolve_orphaned_incidents, cleanup_resolved_incidents,
}
use mathlib.Core.List.{Memᴰ}
use rca_operator.Agent.Secrets.{
  secret_ref, referenced_secret_refs, first_missing, validate_referenced_secrets,
  find_agents_for_secret,
}
use rca_operator.Agent.Secrets.Trigger.{find_agents_for_secret-validated}
use rca_operator.Agent.{prune_stale_incident_graphs}
use rca_operator.Agent.Expired.{IsExpired}
use rca_operator.Agent.Kept.{DeleteLaw, IsPruned, cleanup_resolved_incidents-IsPruned}
use rca_operator.Examples.Data.{std_example, platform_example}
use rca_operator.Examples.Lifecycle.{active_report, stored_report, reconciler, reconciler_fetches}
use rca_operator.Examples.Server.{server, server_laws, start}

-- all pods are gone
abbrev calls : AgentCalls server
calls = record {
  delete = λ r w. some (filter_by (λ x. not (same_object x r)) w);
  is_gone = λ r w. false;
  get_pod = λ ns name w. not_found;
  list_namespaces = λ w. some ("shop" ∷ []);
}

calls-DeleteLaw : DeleteLaw server server_laws calls
calls-DeleteLaw = record { deletes = λ m w w' h. sym (some-injective _ _ h) }

abbrev agent : Agent
agent = record {
  namespace = "ops";
  slack_webhook_secret_ref = none;
  pager_duty_secret_ref = some " pager ";
  name = "agent";
  watch_namespaces = [];
  incident_retention = "";
  incident_retention_days = 1;
}

abbrev old_report : IncidentReport
old_report =
    let r = stored_report "Resolved" in
    record r { name = "oomkilled-cart-0"; status = record r.status { resolved_at = some 1 } }

one_day :
    parse_incident_retention agent.incident_retention agent.incident_retention_days
    ≡ some 86400000000000
unfolding parse_incident_retention trim_space trim_left trim_right trim_last
one_day = refl

abbrev two_days : ℕ
two_days = 172800000000000

abbrev reports : List IncidentReport
reports = active_report ∷ old_report ∷ []

cleanup_resolved_incidents-IsPruned_example :
    IsPruned
      (IsExpired agent two_days 86400000000000)
      reports
      (cleanup_resolved_incidents server calls agent two_days reports).world
cleanup_resolved_incidents-IsPruned_example =
    cleanup_resolved_incidents-IsPruned server server_laws calls calls-DeleteLaw agent two_days
      86400000000000 reports one_day (omega arith) ((refl, tt), (tt, tt))

-- the old report is deleted
active_kept :
    (cleanup_resolved_incidents server calls agent two_days reports).world ≡ active_report ∷ []
unfolding cleanup_resolved_incidents normalize_namespaces unique_names belongs_to_agent is_older
    resolved_before should_prune_incident_report is_not_found unless_failed over_reports over_listed
    over_namespaces over_known after_write sorted_names or_all retention_namespaces delete_due
    cleanup_with pod_gone is_orphaned resolve_orphan is_due effective_resolved_time mark_resolved
    append_timeline effective_start_time parse_incident_retention trim_space trim_left trim_right
    trim_last sort insert str_lt
active_kept = refl

orphan_resolved :
    map (λ x. x.status.phase) (resolve_orphaned_incidents server calls agent two_days reports).world
    ≡ "Resolved" ∷ "Resolved" ∷ []
unfolding resolve_orphaned_incidents normalize_namespaces unique_names belongs_to_agent is_older
    resolved_before should_prune_incident_report is_not_found unless_failed over_reports over_listed
    over_namespaces over_known after_write sorted_names or_all retention_namespaces delete_due
    cleanup_with pod_gone is_orphaned resolve_orphan is_due effective_resolved_time mark_resolved
    append_timeline effective_start_time parse_incident_retention trim_space trim_left trim_right
    trim_last sort insert str_lt
orphan_resolved = refl

abbrev watched : List IncidentReport
watched =
    (resolve_orphaned_incidents server calls agent 8 (consolidate server 7 start).0.world).world

agent_run :
    Reaches server server_laws platform_example std_example reconciler reconciler_fetches []
      (cleanup_resolved_incidents server calls agent 10
        (prune_stale_incident_graphs server calls agent 9 watched).world).world
agent_run =
    cleaned calls agent 10 (prune_stale_incident_graphs server calls agent 9 watched).world
      calls-DeleteLaw
      (graphs_pruned calls agent 9 watched (
        orphans_resolved calls agent 8 (consolidate server 7 start).0.world
          (consolidated 7 start tt begins)))

pager_missing :
    validate_referenced_secrets (λ ns name. false) agent
    ≡ some (record { name = "pager"; usage = "PagerDuty routing key" })
unfolding validate_referenced_secrets first_missing referenced_secret_refs secret_ref trim_space
    trim_left trim_right trim_last
pager_missing = refl

-- the routing key for PagerDuty is missing
find_agents_for_secret-validated_example :
    Memᴰ
      (record { namespace = "ops"; name = "agent" })
      (find_agents_for_secret (λ ns. some (agent ∷ [])) "ops" "pager")
find_agents_for_secret-validated_example =
    find_agents_for_secret-validated (λ ns name. false) (λ ns. some (agent ∷ [])) agent
      (record { name = "pager"; usage = "PagerDuty routing key" }) (agent ∷ []) pager_missing refl
      (Memᴰ.head refl)
