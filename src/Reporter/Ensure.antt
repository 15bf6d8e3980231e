-- ===== src/Reporter/Ensure.antt =====
-- EnsureSignal of internal/reporter/cr_reporter.go, with EnsureIncident, createIncident,
-- updateActiveIncident and reopenIncident. The clock is an argument.
use rca_operator.Base.{ℕ, String, none, some, [], ◌∷◌, nat_eq, if◌then◌else◌, ◌==◌}
use rca_operator.Incident.Report.{AffectedResource, IncidentObjectRef, IncidentReport}
use rca_operator.Incident.Input.{Input, fingerprint, summary_from_parts}
use rca_operator.Reporter.Api.{Api}
use rca_operator.Reporter.Find.{
  is_resolved, find_open_incident, find_resolvable_incident, find_existing_by_workload_ref,
}
use rca_operator.Reporter.State.{
  signal_deduplicated, incident_detecting, event_detected, event_reopened, Reply, done, failed,
  Found, broken, absent, present, State, emit, emit_event, set_world, remember,
}
use rca_operator.Reporter.Write.{
  Platform, initial_report, update_meta, reopen_meta, initial_status, update_status, reopen_status,
  target_incident_type,
}

-- the object that EnsureIncident builds its input for
abbrev pod_ref : String → String → IncidentObjectRef
pod_ref namespace pod_name = record {
  api_version = "v1";
  kind = "Pod";
  namespace = namespace;
  name = pod_name;
  uid = "";
}

abbrev pod_resource : String → String → AffectedResource
pod_resource namespace pod_name = record {
  api_version = "v1";
  kind = "Pod";
  name = pod_name;
  namespace = namespace;
  uid = "";
}

-- the defaults of EnsureSignal
unfoldable pub with_defaults : ℕ → Input → Input
with_defaults now input =
    let summary =
      if input.summary == ""
      then summary_from_parts input.incident_type input.reason input.message
      else input.summary in
    record input {
      agent_ref = if input.agent_ref == "" then "unknown-agent" else input.agent_ref;
      observed_at = if nat_eq input.observed_at 0 then now else input.observed_at;
      summary = summary;
      message = if input.message == "" then summary else input.message;
    }

module _ (api : Api) (platform : Platform) where
  -- the second call of createIncident, updateActiveIncident and reopenIncident: the status patch;
  -- `k` is what follows it
  unfoldable pub patch_status_then :
      IncidentReport → (State api → State api) → State api → State api × Reply
  patch_status_then report k s = elim (api.patch_status report s.world) [
    | none ↦ (s, failed)
    | some w ↦ (k (set_world api w s), done)
  ]

  -- the metadata patch, then the status patch of `report'`
  unfoldable pub patch_both :
      IncidentReport → IncidentReport → (State api → State api) → State api → State api × Reply
  patch_both report report' k s = elim (api.patch report s.world) [
    | none ↦ (s, failed)
    | some w ↦ patch_status_then report' k (set_world api w s)
  ]

  unfoldable pub create_incident : Input → String → String → State api → State api × Reply
  create_incident input fp hash s =
      elim (api.create (initial_report platform input fp hash) s.world) [
        | none ↦ (s, failed)
        | some (report, w) ↦
            patch_status_then (record report { status = initial_status input })
              (λ t.
                emit_event api (event_detected input.incident_type input.severity input.summary) (
                  emit api (incident_detecting input.incident_type input.severity)
                    (remember api fp report t)))
              (set_world api w s)
      ]

  unfoldable pub update_active_incident :
      IncidentReport → Input → String → String → State api → State api × Reply
  update_active_incident report input fp hash s =
      let meta = update_meta platform report input fp hash in
      let target = target_incident_type report input in
      patch_both meta (record meta { status = update_status report.status target input })
        (remember api fp report) (emit api (signal_deduplicated input.incident_type) s)

  unfoldable pub reopen_incident :
      IncidentReport → Input → String → String → State api → State api × Reply
  reopen_incident report input fp hash s =
      let meta = reopen_meta platform report input fp hash in
      let target = target_incident_type report input in
      patch_both meta (record meta { status = reopen_status report.status target input })
        (λ t. emit_event api (event_reopened input.summary) (remember api fp report t)) s

  -- the end of EnsureSignal, from the workload-ref fallback on
  unfoldable pub ensure_by_workload :
      Found → Input → String → String → State api → State api × Reply
  ensure_by_workload broken input fp hash s = (s, failed)
  ensure_by_workload absent input fp hash s = create_incident input fp hash s
  ensure_by_workload (present report) input fp hash s =
      if is_resolved report
      then reopen_incident report input fp hash s
      else update_active_incident report input fp hash s

  -- EnsureSignal, once no open report is found
  unfoldable pub ensure_not_open : Found → Input → String → String → State api → State api × Reply
  ensure_not_open broken input fp hash s = (s, failed)
  ensure_not_open (present report) input fp hash s = reopen_incident report input fp hash s
  ensure_not_open absent input fp hash s =
      ensure_by_workload
        (find_existing_by_workload_ref api input.namespace input.incident_type
          input.scope.workload_ref s)
        input fp hash s

  unfoldable pub ensure_found : ℕ → Input → String → String → State api × Found → State api × Reply
  ensure_found now input fp hash (s, broken) = (s, failed)
  ensure_found now input fp hash (s, present report) = update_active_incident report input fp hash s
  ensure_found now input fp hash (s, absent) =
      ensure_not_open (find_resolvable_incident api now input.namespace fp hash s) input fp hash s

  unfoldable pub ensure_signal : ℕ → Input → State api → State api × Reply
  ensure_signal now input s =
      let input' = with_defaults now input in
      let fp = fingerprint input' in
      let hash = platform.fingerprint_hash fp in
      ensure_found now input' fp hash (find_open_incident api input'.namespace fp hash s)

  unfoldable pub ensure_incident :
      ℕ
      → String
      → String
      → String
      → String
      → String
      → String
      → String
      → ℕ
      → State api
      → State api × Reply
  ensure_incident now namespace pod_name agent incident_type severity summary dedup_key at s =
      ensure_signal now
        (record {
          namespace = namespace;
          agent_ref = agent;
          incident_type = incident_type;
          severity = severity;
          summary = summary;
          reason = "";
          message = summary;
          dedup_key = dedup_key;
          observed_at = at;
          scope = record {
            level = "Pod";
            namespace = namespace;
            workload_ref = none;
            resource_ref = some (pod_ref namespace pod_name);
          };
          affected_resources = pod_resource namespace pod_name ∷ [];
          trace_id = "";
          fired_rule = "";
        })
        s
