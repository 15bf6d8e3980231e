-- ===== src/Examples/Pipeline.antt =====
-- The signal pipeline at concrete signals and objects.
use rca_operator.Base.{String, ◌≡◌, ◌≢◌, ◌≤◌, refl, sym, ◌∙◌, some, none, [], ◌∷◌, subst, path→eq}
use mathlib.Core.Bool.{false≢true}
use rca_operator.Base.Decimal.{itoa}
use rca_operator.Base.Join.{join}
use rca_operator.Base.Maps.{lookup}
use rca_operator.Base.Texts.{to_lower, has_prefix, trim_space, trim_left, trim_right}
use rca_operator.Consumer.{
  Environment, final_input, add_to_engine, evaluate_in, apply_result, override_by_result,
}
use rca_operator.Consumer.Handling.{PassesPlain, HasPlainParts}
use rca_operator.Examples.Data.{oom, std_example, platform_example}
use rca_operator.Examples.Server.{server, server_laws}
use rca_operator.Incident.Input.{Input, fingerprint, scope_parts}
use rca_operator.Incident.Report.{IncidentObjectRef}
use rca_operator.Incident.Resolver.{
  Objects, OwnedObject, OwnerReference, resolve_top_owner, owner_of, resolve_pod_scope,
  scope_of_pod, pod_with_owner,
}
use rca_operator.Reporter.Resolve.{PodLookup}
use rca_operator.Reporter.Text.{size}
use rca_operator.Signals.Enricher.{enrich, enrich_pod, promote_to_workload_scope, promote}
use rca_operator.Signals.Enricher.Owner.{some_path, pod_signal-owned}
use rca_operator.Signals.Guess.{guess_deployment_name_from_pod, looks_like_replica_set_hash}
use rca_operator.Signals.Guess.Names.{guess_deployment_name_from_pod-pod_name}
use rca_operator.Signals.Mapping.{SignalMapping, new_normalizer, put_mappings, default_mappings}
use rca_operator.Signals.Normalizer.{
  normalize, build_input, default_scope, override_scope, otel_identity, signal_base,
}
use rca_operator.Signals.Summary.{remove_empty_pairs, repeat_removal}
use rca_operator.Signals.Summary.Stable.{strip_empty_kv_ends}
use rca_operator.Watcher.Event.{type_name}

abbrev text : String
text = "Node not ready reason= message=disk"

strip_empty_kv_ends_example :
    (remove_empty_pairs (repeat_removal 36 text) ≡ repeat_removal 36 text)
    × (size (repeat_removal 36 text) ≤ 35)
strip_empty_kv_ends_example = strip_empty_kv_ends text

strip_runs : repeat_removal 36 text ≡ "Node not ready message=disk"
unfolding repeat_removal remove_empty_pairs
strip_runs = refl

guess_deployment_name_from_pod-pod_name_example :
    guess_deployment_name_from_pod "cart-api-5d8f9c7b6-x2k9p" ≡ "cart-api"
unfolding looks_like_replica_set_hash trim_space trim_left trim_right
guess_deployment_name_from_pod-pod_name_example =
    guess_deployment_name_from_pod-pod_name "cart-api" "5d8f9c7b6" "x2k9p" refl refl refl refl

abbrev replica_set : OwnerReference
replica_set = record {
  api_version = "apps/v1";
  kind = "ReplicaSet";
  name = "cart-5d8f9c7b6";
  uid = "u2";
}

abbrev deployment : OwnerReference
deployment = record { api_version = "apps/v1"; kind = "Deployment"; name = "cart"; uid = "u3" }

abbrev pod : OwnedObject
pod = record {
  namespace = "shop";
  name = "cart-1";
  uid = "u1";
  node_name = "node-1";
  controller = some replica_set;
}

abbrev objects : Objects
objects = record {
  get_pod = λ ns name. some pod;
  get_replica_set =
      λ ns name. some (record pod { name = name; node_name = ""; controller = some deployment });
}

abbrev cart : IncidentObjectRef
cart = record {
  api_version = "apps/v1";
  kind = "Deployment";
  namespace = "shop";
  name = "cart";
  uid = "u3";
}

cart_owns : resolve_top_owner objects pod ≡ some cart
unfolding resolve_top_owner owner_of
cart_owns = refl

abbrev pub environment : Environment
environment = record {
  duration_text = itoa;
  normalizer = new_normalizer [];
  objects = objects;
  pods = λ ns name. PodLookup.not_found;
}

-- the built-in mapping of the signal
abbrev oom_mapping : SignalMapping
oom_mapping = record {
  event_type = "OOMKilled";
  incident_type = "OOMKilled";
  severity = "P2";
  scope_level = "Pod";
}

-- what the normalizer makes of the signal
abbrev pub oom_input : Input
oom_input = build_input itoa oom_mapping oom

pub oom_normalized : normalize itoa (new_normalizer []) oom ≡ some oom_input
unfolding normalize new_normalizer put_mappings default_mappings lookup type_name
oom_normalized = refl

cart_named : cart.name ≢ ""
cart_named h = false≢true (path→eq "cart" "" h)

abbrev oom_pod : String
oom_pod = "cart-1"

cart_1_named : oom_pod ≢ ""
cart_1_named h = false≢true (path→eq oom_pod "" h)

pod_signal-owned_example :
    fingerprint (enrich objects oom_input)
    ≡ join "|" ("Workload" ∷ "shop" ∷ to_lower "Deployment" ∷ "cart" ∷ [])
pod_signal-owned_example =
    pod_signal-owned objects "cart-1" pod cart itoa oom oom_input refl refl cart_1_named
      oom_normalized refl cart_owns cart_named

pub oom_passes :
    PassesPlain server server_laws std_example platform_example environment 100 oom none
unfolding final_input add_to_engine evaluate_in apply_result override_by_result enrich enrich_pod
    promote_to_workload_scope promote resolve_pod_scope scope_of_pod pod_with_owner
    resolve_top_owner owner_of build_input default_scope override_scope otel_identity signal_base
    scope_parts to_lower has_prefix
oom_passes input e =
    subst
      (λ i.
        HasPlainParts (final_input server std_example platform_example environment 100 oom i none))
      (some_path oom_input input (sym oom_normalized ∙ e)) (refl, (refl, (refl, (refl, tt))))
