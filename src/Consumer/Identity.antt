-- ===== src/Consumer/Identity.antt =====
-- The identity of what the handler passes to the reporter.
use Prim.Native.Char.{Char}
use Prim.Native.String.{String}
use rca_operator.Base.{
  ℕ, ◌≡◌, ◌≢◌, refl, ap, sym, subst, not, ◌||◌, ◌∙◌, Bool, true, false, ◌&&◌, Option, none, some,
  List, ◌∷◌, ◌++◌, arith, Bool-cases, Option-cases, inl, inr, if◌then◌else◌, ◌==◌,
}
use rca_operator.Base.Join.{join}
use rca_operator.Base.Maps.{Map, lookup}
use rca_operator.Base.Split.{join-cons_first}
use rca_operator.Consumer.{override_by_result, apply_result}
use rca_operator.Correlator.Engine.{CorrelationResult}
use rca_operator.Incident.Input.{Input, nonempty, ref_parts, scope_parts, fingerprint}
use rca_operator.Incident.Report.{IncidentScope, IncidentObjectRef}
use rca_operator.Incident.Resolver.{
  Objects, OwnedObject, resolve_top_owner, scope_of_pod, resolve_pod_scope, pod_with_owner,
}
use rca_operator.Reporter.Fingerprint.{has_scope_level}
use rca_operator.Signals.Enricher.{
  promote_by_name, promote, promote_to_workload_scope, enrich_pod, resource_name, enrich,
}
use rca_operator.Signals.Guess.{guess_deployment_name_from_pod}
use rca_operator.Signals.Mapping.{SignalMapping, Normalizer}
use rca_operator.Signals.Normalizer.{
  default_scope, at_identity, otel_namespace, in_namespace, otel_identity,
  workload_from_otel_resource_attrs, override_scope, is_client_span, mapped_input,
  apply_otel_scope_overrides, build_input, normalize,
}
use rca_operator.Watcher.Event.Cluster.{BaseEvent}
use rca_operator.Watcher.Event.{
  Event, type_name, stalled_rollout, stalled_stateful_set, stalled_daemon_set, job_failed,
  cron_job_failed, otel_span_error, otel_span_latency_spike, otel_log_match, otel_span_event,
}

-- the scope has one of the four levels
abbrev pub IsPlaced : Input → Type 0
IsPlaced input = has_scope_level input.scope.level ≡ true

join_nonempty : (c : Char) (s : String) (xs : List String) → join "|" (String.◌∷◌ c s ∷ xs) ≢ ""
join_nonempty c s xs h = cc (join-cons_first "|" c s xs, h)

either-IsPlaced : (b : Bool) (x y : Input) → IsPlaced x → IsPlaced y → IsPlaced (if b then x else y)
either-IsPlaced true x y h k = h
either-IsPlaced false x y h k = k

pub scope_parts_first :
    (scope : IncidentScope)
    → has_scope_level scope.level ≡ true
    → (c : Char) × (s : String) × (xs : List String) × ((otherwise : List String)
        → scope_parts scope otherwise ≡ String.◌∷◌ c s ∷ xs)
unfolding scope_parts has_scope_level
scope_parts_first scope placed = elim (Bool-cases (scope.level == "Cluster")) [
  | inl cluster ↦ ("C", "luster", ref_parts scope.resource_ref, λ otherwise. rw cluster refl)
  | inr a ↦ elim (Bool-cases (scope.level == "Workload")) [
    | inl workload ↦ (
      "W",
      "orkload",
      nonempty scope.namespace ++ ref_parts scope.workload_ref,
      λ otherwise. rw (a, workload) refl,
    )
    | inr b ↦ elim (Bool-cases (scope.level == "Namespace")) [
      | inl namespace ↦
          ("N", "amespace", nonempty scope.namespace, λ otherwise. rw (a, b, namespace) refl)
      | inr c ↦ elim (Bool-cases (scope.level == "Pod")) [
        | inl pod ↦ (
          "P",
          "od",
          nonempty scope.namespace ++ ref_parts scope.resource_ref,
          λ otherwise. rw (a, b, c, pod) refl,
        )
        | inr d ↦ absurd (ground (arith, a, b, c, d, placed))
      ]
    ]
  ]
]

-- a scope with a level has an identity
pub IsPlaced-named : (input : Input) → IsPlaced input → fingerprint input ≢ ""
unfolding fingerprint
IsPlaced-named input placed h =
    let (c, s, xs, e) = scope_parts_first input.scope placed in
    join_nonempty c s xs (ap (join "|") (sym (e _)) ∙ h)

default_scope-IsPlaced :
    (level : String) (base : BaseEvent) (input : Input) → IsPlaced (default_scope level base input)
unfolding default_scope has_scope_level
default_scope-IsPlaced level base input =
    either-IsPlaced (level == "Cluster") _ _ refl
      (either-IsPlaced ((level == "Workload") && (base.pod_name == "")) _ _ refl refl)

at_identity-IsPlaced :
    (o : Option (String × String × String)) (namespace service : String) (input : Input)
    → IsPlaced input
    → IsPlaced (at_identity o namespace service input)
unfolding has_scope_level
at_identity-IsPlaced (some (api_version, kind, name)) namespace service input h = refl
at_identity-IsPlaced none namespace service input h =
    either-IsPlaced ((service == "") || (namespace == "")) _ _ h refl

apply_otel_scope_overrides-IsPlaced :
    (service : String) (attrs : Map String) (input : Input)
    → IsPlaced input
    → IsPlaced (apply_otel_scope_overrides service attrs input)
unfolding apply_otel_scope_overrides
apply_otel_scope_overrides-IsPlaced service attrs input h =
    at_identity-IsPlaced (workload_from_otel_resource_attrs (otel_namespace attrs input) attrs)
      (otel_namespace attrs input) _ (in_namespace (otel_namespace attrs input) input)
      (either-IsPlaced (otel_namespace attrs input == "") _ _ h h)

override_scope-IsPlaced :
    (event : Event) (input : Input) → IsPlaced input → IsPlaced (override_scope event input)
unfolding override_scope otel_identity has_scope_level
override_scope-IsPlaced (stalled_rollout e) input h = refl
override_scope-IsPlaced (stalled_stateful_set e) input h = refl
override_scope-IsPlaced (stalled_daemon_set e) input h = refl
override_scope-IsPlaced (job_failed e) input h = refl
override_scope-IsPlaced (cron_job_failed e) input h = refl
override_scope-IsPlaced (otel_span_error e) input h =
    apply_otel_scope_overrides-IsPlaced e.service_name e.resource_attrs input h
override_scope-IsPlaced (otel_span_latency_spike e) input h =
    apply_otel_scope_overrides-IsPlaced e.service_name e.resource_attrs input h
override_scope-IsPlaced (otel_log_match e) input h =
    apply_otel_scope_overrides-IsPlaced e.service_name e.resource_attrs input h
override_scope-IsPlaced (otel_span_event e) input h =
    apply_otel_scope_overrides-IsPlaced e.service_name e.resource_attrs input h
override_scope-IsPlaced _ input h = h

mapped_input-IsPlaced :
    (duration_text : ℕ → String) (o : Option SignalMapping) (event : Event) (input : Input)
    → mapped_input duration_text o event ≡ some input
    → IsPlaced input
unfolding build_input
mapped_input-IsPlaced duration_text none event input h = cc
mapped_input-IsPlaced duration_text (some m) event input h =
    elim (Bool-cases (is_client_span event)) [
      | inl client ↦ absurd (ground (arith, client, h))
      | inr server ↦
          let e : build_input duration_text m event ≡ input = ground (arith, server, h) in
          subst IsPlaced e
            (override_scope-IsPlaced event _ (default_scope-IsPlaced m.scope_level _ _))
    ]

pub normalize-IsPlaced :
    (duration_text : ℕ → String) (n : Normalizer) (event : Event) (input : Input)
    → normalize duration_text n event ≡ some input
    → IsPlaced input
unfolding normalize
normalize-IsPlaced duration_text n event input h =
    let named = (type_name event == "PodHealthy") || (type_name event == "PodDeleted") in
    elim (Bool-cases named) [
      | inl lifecycle ↦ absurd (ground (arith, lifecycle, h))
      | inr other ↦
          mapped_input-IsPlaced duration_text (lookup (type_name event) n.mappings) event input
            (ground (arith, other, h))
    ]

promote_by_name-IsPlaced :
    (namespace pod_name : String) (input : Input)
    → IsPlaced input
    → IsPlaced (promote_by_name namespace pod_name input)
unfolding promote_by_name has_scope_level
promote_by_name-IsPlaced namespace pod_name input h =
    either-IsPlaced (guess_deployment_name_from_pod pod_name == "") _ _ h refl

promote-IsPlaced :
    (ref : Option IncidentObjectRef) (namespace pod_name : String) (input : Input)
    → IsPlaced input
    → IsPlaced (promote ref namespace pod_name input)
unfolding promote has_scope_level
promote-IsPlaced none namespace pod_name input h =
    promote_by_name-IsPlaced namespace pod_name input h
promote-IsPlaced (some ref) namespace pod_name input h =
    either-IsPlaced (ref.name == "") _ _ (promote_by_name-IsPlaced namespace pod_name input h) refl

-- what is resolved of a pod has the level of the pod or of a workload
scope_of_pod-IsPlaced :
    (objects : Objects) (namespace pod_name : String) (o : Option OwnedObject)
    → has_scope_level (scope_of_pod objects namespace pod_name o).scope.level ≡ true
unfolding scope_of_pod has_scope_level
scope_of_pod-IsPlaced objects namespace pod_name none = refl
scope_of_pod-IsPlaced objects namespace pod_name (some pod) =
    elim (Option-cases (resolve_top_owner objects pod)) [
      | inl free ↦ rw free (unfold pod_with_owner in refl)
      | inr (w, owned) ↦ rw owned (unfold pod_with_owner in refl)
    ]

pub enrich-IsPlaced :
    (objects : Objects) (input : Input) → IsPlaced input → IsPlaced (enrich objects input)
unfolding enrich enrich_pod promote_to_workload_scope resolve_pod_scope
enrich-IsPlaced objects input h =
    let pod_name = resource_name input.scope.resource_ref in
    either-IsPlaced (not (input.scope.level == "Pod")) _ _ h (
      either-IsPlaced (pod_name == "") _ _ h (
        promote-IsPlaced _ input.namespace pod_name _ (
          scope_of_pod-IsPlaced objects input.namespace pod_name
            (objects.get_pod input.namespace pod_name))))

pub apply_result-IsPlaced :
    (result : CorrelationResult) (input : Input)
    → IsPlaced input
    → IsPlaced (apply_result result input)
unfolding apply_result override_by_result has_scope_level
apply_result-IsPlaced result input h =
    either-IsPlaced result.fired _ _
      (either-IsPlaced (result.resource == "") _ _ h
        (either-IsPlaced (result.scope_level == "Cluster") _ _ refl refl))
      h
