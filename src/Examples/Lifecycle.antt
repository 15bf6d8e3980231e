-- ===== src/Examples/Lifecycle.antt =====
-- The controller and the resolutions for pods at one stored report.
use mathlib.Core.List.{Memᴰ}
use mathlib.Core.List.Memᴰ.{eq_of_singleton}
use mathlib.Core.Bool.{false≢true}
use rca_operator.Base.{
  ℕ, String, ◌≡◌, refl, sym, subst, Bool, true, false, Option, some, none, [], ◌∷◌, find_by, ◌==◌,
  ◌&&◌, arith, path→eq, eq→path, and-left, and-right,
}
use rca_operator.Base.Members.{find_by-some}
use rca_operator.Controller.Closing.{reconcile_closes}
use rca_operator.Controller.Open.{IsResolvedIn}
use rca_operator.Controller.Paths.{facts}
use rca_operator.Controller.Silence.{MayClose}
use rca_operator.Controller.Reconcile.{
  reconcile_report, reconcile_active, reconcile_detecting, active_announced,
  send_open_notifications,
}
use rca_operator.Controller.Transitions.{ensure_incident_graph}
use rca_operator.Incident.Status.{effective_start_time}
use rca_operator.Base.{◌≢◌, map}
use rca_operator.Controller.Cluster.{
  Lookup, Cluster, missing, got, incident_still_present, workload_still_present,
  deployment_incident_still_present,
}
use rca_operator.Controller.Lifecycle.{FetchLaw}
use rca_operator.Controller.Phases.{reconcile-Evolves, reconcile-IsSound}
use rca_operator.Controller.Reconcile.{last_confirmed, active_idle, detecting_since, reconcile}
use rca_operator.Controller.Transitions.{
  stabilization_window, last_seen, unless_present, transition_to_resolved, patch_status_to,
}
use rca_operator.Controller.State.{Reconciler, State}
use rca_operator.Examples.Data.{pod_resource, input_example, platform_example}
use rca_operator.Examples.Server.{server, server_laws}
use rca_operator.Incident.Report.{IncidentReport, empty_status, Annotations}
use rca_operator.Incident.Status.{mark_resolved}
use rca_operator.Reporter.Evolution.{Evolves}
use rca_operator.Reporter.Evolution.Closing.{
  resolve_for_deleted_pod_closes, resolve_for_healthy_pod_closes,
}
use rca_operator.Reporter.Evolution.Pods.{IsClosed}
use rca_operator.Reporter.Fingerprint.{strip_legacy_type, before}
use rca_operator.Reporter.Resolve.{
  Pod, pod_found, incident_affects_pod, is_pod_currently_ready, resolves_deleted, resolves_healthy,
  last_observed, within_cooldown, resolve_each, resolve_listed, resolve_for_healthy_pod,
  resolve_for_deleted_pod,
}
use rca_operator.Reporter.State
use rca_operator.Reporter.Unique.{IsCurrent, IsSound, same_object_refl}
use rca_operator.Base.Texts.{has_prefix}

abbrev blank : Annotations
blank = record {
  signal = "";
  dedup_key = "";
  last_seen = "";
  signal_seen = "";
  trace_id = "";
  trace_ids = "";
  fired_rule = "";
  open_sent = "";
  resolved_sent = "";
  resolved_metric = "";
}

-- a report of the phase, for the input of the examples
abbrev pub stored_report : String → IncidentReport
stored_report phase = record {
  namespace = "shop";
  name = "oomkilled-cart-1";
  created = 0;
  labels = record {
    agent = "agent";
    severity = "P2";
    incident_type = "OOMKilled";
    pod_name = "cart-1";
    fingerprint_hash = "Workload|shop|deployment|cart";
  };
  annotations = blank;
  spec = record {
    agent_ref = "agent";
    fingerprint = "Workload|shop|deployment|cart";
    incident_type = "OOMKilled";
    scope = input_example.scope;
  };
  status = record empty_status {
    phase = phase;
    first_observed_at = some 0;
    last_observed_at = some 0;
    affected_resources = pod_resource ∷ [];
    stabilization_window_seconds = 300;
  };
}

abbrev pub active_report : IncidentReport
active_report = stored_report "Active"

abbrev pub detecting_report : IncidentReport
detecting_report = stored_report "Detecting"

-- nothing is found in the cluster
abbrev empty_cluster : Cluster
empty_cluster = record {
  pod = λ ns name. missing;
  node = λ name. missing;
  deployment = λ ns name. missing;
  stateful_set = λ ns name. missing;
  daemon_set = λ ns name. missing;
  job = λ ns name. missing;
  cron_job = λ ns name. missing;
}

abbrev fetched : Option IncidentReport → Lookup IncidentReport
fetched none = missing
fetched (some x) = got x

abbrev named : String → String → IncidentReport → Bool
named ns name x = (x.namespace == ns) && (x.name == name)

abbrev pub reconciler : Reconciler server
reconciler = record {
  fetch = λ ns name w. fetched (find_by (named ns name) w);
  build_graph = λ x. none;
  notifier = none;
  cluster = empty_cluster;
  parse_rfc3339 = λ s. none;
}

fetched-some : (o : Option IncidentReport) (x : IncidentReport) → fetched o ≡ got x → o ≡ some x
fetched-some none x h = absurd (ground (arith, h))
fetched-some (some y) x h = ground (arith, h)

pub reconciler_fetches : FetchLaw server server_laws reconciler
reconciler_fetches ns name w x h =
    let (m, hit) = find_by-some (named ns name) w x (fetched-some _ x h) in
    (
      m,
      eq→path x.namespace ns (and-left _ _ hit),
      eq→path x.name name (and-right (x.namespace == ns) _ hit),
    )

abbrev with_one : String → State server
with_one phase = record { world = stored_report phase ∷ []; sent = [] }

-- 400 seconds
abbrev pub later : ℕ
later = 400000000000

reconcile-Evolves_example :
    Evolves
      (active_report ∷ [])
      (reconcile server reconciler later "shop" "oomkilled-cart-1" (with_one "Active")).0.world
reconcile-Evolves_example =
    reconcile-Evolves server server_laws reconciler reconciler_fetches later "shop"
      "oomkilled-cart-1" (with_one "Active") (tt, tt)

one-IsCurrent : (phase : String) → IsCurrent (λ s. s) (stored_report phase)
unfolding strip_legacy_type before has_prefix
one-IsCurrent phase = record {
  has_fingerprint = λ h. false≢true (path→eq "Workload|shop|deployment|cart" "" h);
  has_no_suffix = refl;
  has_hash = refl;
}

one-IsSound : (phase : String) → IsSound (λ s. s) (stored_report phase ∷ [])
one-IsSound phase = record {
  current = λ x m. subst (IsCurrent (λ s. s)) (sym (eq_of_singleton m)) (one-IsCurrent phase);
  unique = λ x y m k opened other.
      rw (eq_of_singleton m, eq_of_singleton k) (same_object_refl (stored_report phase));
}

reconcile-IsSound_example :
    IsSound
      (λ s. s)
      (reconcile server reconciler later "shop" "oomkilled-cart-1" (with_one "Active")).0.world
reconcile-IsSound_example =
    reconcile-IsSound server server_laws reconciler reconciler_fetches (λ s. s) later "shop"
      "oomkilled-cart-1" (with_one "Active") (tt, tt) (one-IsSound "Active")

active_resolves :
    (reconcile server reconciler later "shop" "oomkilled-cart-1" (with_one "Active")).0.world
    ≡ (mark_resolved active_report later
        "No confirming signals for 5 minutes and issue state cleared").0
      ∷ []
unfolding reconcile reconcile_report reconcile_active ensure_incident_graph active_announced
    send_open_notifications active_idle unless_present incident_still_present transition_to_resolved
    patch_status_to mark_resolved last_confirmed workload_still_present
    deployment_incident_still_present
active_resolves = refl

active_closed :
    IsResolvedIn server server_laws reconciler active_report
      (reconcile server reconciler later "shop" "oomkilled-cart-1" (with_one "Active")).0.world
unfolding mark_resolved
active_closed = record {
  report =
      (mark_resolved active_report later
        "No confirming signals for 5 minutes and issue state cleared").0;
  member = subst (Memᴰ _) (sym active_resolves) (Memᴰ.head refl);
  one = refl;
  resolved = refl;
}

active_unresolved : active_report.status.phase ≢ "Resolved"
active_unresolved h = false≢true (path→eq "Active" "Resolved" h)

reconcile_closes_example :
    MayClose reconciler.parse_rfc3339 later (facts empty_cluster active_report)
reconcile_closes_example =
    reconcile_closes server server_laws reconciler reconciler_fetches later active_report
      (with_one "Active") (tt, tt) (Memᴰ.head refl) active_unresolved active_closed

detecting_resolves :
    map
      (λ x. x.status.phase)
      (reconcile server reconciler later "shop" "oomkilled-cart-1" (with_one "Detecting")).0.world
    ≡ "Resolved" ∷ []
unfolding reconcile reconcile_report reconcile_detecting ensure_incident_graph detecting_since
    unless_present incident_still_present transition_to_resolved patch_status_to mark_resolved
    last_seen stabilization_window workload_still_present deployment_incident_still_present
    effective_start_time
detecting_resolves = refl

abbrev reporter_state : rca_operator.Reporter.State.State server
reporter_state = record {
  world = active_report ∷ [];
  open_by_fingerprint = [];
  recorder = true;
  emitted = [];
}

affected : incident_affects_pod active_report "cart-1" "shop" ≡ true
unfolding incident_affects_pod
affected = refl

deletion_done :
    (resolve_for_deleted_pod server later "shop" "cart-1" reporter_state).1
    ≡ rca_operator.Reporter.State.Reply.done
unfolding resolve_for_deleted_pod resolve_listed resolve_each resolves_deleted mark_resolved
    incident_affects_pod
deletion_done = refl

resolve_for_deleted_pod_closes_example :
    IsClosed active_report
      (resolve_for_deleted_pod server later "shop" "cart-1" reporter_state).0.world
resolve_for_deleted_pod_closes_example =
    resolve_for_deleted_pod_closes server server_laws later "shop" "cart-1" reporter_state
      active_report deletion_done (Memᴰ.head refl) refl affected

abbrev ready_pod : Pod
ready_pod = record { phase = "Running"; conditions = ("Ready", "True") ∷ [] }

pod_is_ready : is_pod_currently_ready ready_pod ≡ true
unfolding is_pod_currently_ready
pod_is_ready = refl

recovery_done :
    (resolve_for_healthy_pod server platform_example later
      (pod_found ready_pod)
      "shop"
      "cart-1"
      reporter_state).1
    ≡ rca_operator.Reporter.State.Reply.done
unfolding resolve_for_healthy_pod resolve_listed resolve_each resolves_healthy mark_resolved
    incident_affects_pod is_pod_currently_ready last_observed
recovery_done = refl

quiet :
    within_cooldown platform_example later (last_observed platform_example active_report) ≡ false
unfolding last_observed
quiet = refl

resolve_for_healthy_pod_closes_example :
    IsClosed active_report
      (resolve_for_healthy_pod server platform_example later
        (pod_found ready_pod)
        "shop"
        "cart-1"
        reporter_state).0.world
resolve_for_healthy_pod_closes_example =
    resolve_for_healthy_pod_closes server server_laws platform_example later ready_pod "shop"
      "cart-1" reporter_state active_report pod_is_ready recovery_done (Memᴰ.head refl) refl
      affected quiet
