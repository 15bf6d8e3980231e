-- ===== src/Signals/Enricher/Owner.antt =====
-- The signals of a pod have the identity of its owner.
use rca_operator.Base.{
  ℕ, String, ◌≡◌, ◌≢◌, refl, ap, sym, subst, ◌∙◌, Bool, true, false, some, [], ◌∷◌, ◌++◌, ◌==◌,
  ne→eq,
}
use rca_operator.Base.Join.{join}
use rca_operator.Base.Maps.{lookup}
use rca_operator.Base.Texts.{to_lower}
use rca_operator.Incident.Input.{Input, nonempty, scope_parts, fingerprint}
use rca_operator.Incident.Report.{IncidentObjectRef, IncidentScope}
use rca_operator.Incident.Resolver.{
  Objects, OwnedObject, resolve_top_owner, pod_with_owner, scope_of_pod, resolve_pod_scope,
}
use rca_operator.Signals.Enricher.{
  promote, promote_to_workload_scope, enrich_pod, resource_name, enrich,
}
use rca_operator.Signals.Mapping.{put_mappings, new_normalizer, default_mappings}
use rca_operator.Signals.Normalizer.{
  pod_scope, default_scope, override_scope, otel_identity, build_input, signal_base, normalize,
}
use rca_operator.Watcher.Event.{
  Event, crash_loop_back_off, oom_killed, image_pull_back_off, pod_pending_too_long,
  grace_period_violation, pod_evicted, probe_failure, base_of, type_name,
}

-- the signals about the failure of a pod
abbrev pub is_pod_signal : Event → Bool
is_pod_signal (crash_loop_back_off e) = true
is_pod_signal (oom_killed e) = true
is_pod_signal (image_pull_back_off e) = true
is_pod_signal (pod_pending_too_long e) = true
is_pod_signal (grace_period_violation e) = true
is_pod_signal (pod_evicted e) = true
is_pod_signal (probe_failure e) = true
is_pod_signal _ = false

-- an input that is placed at the pod
abbrev AtPod : String → String → Input → Type 0
AtPod namespace pod_name input =
    (input.scope ≡ pod_scope namespace pod_name) × (input.namespace ≡ namespace)

pub some_path {ℓ} : {A : Type ℓ} (a b : A) → some a ≡ some b → a ≡ b
some_path a b h = cc

module _ (duration_text : ℕ → String) where
  pod_signal-AtPod :
      (event : Event) (input : Input)
      → is_pod_signal event ≡ true
      → (base_of event).pod_name ≢ ""
      → normalize duration_text (new_normalizer []) event ≡ some input
      → AtPod (base_of event).namespace (base_of event).pod_name input
  unfolding normalize new_normalizer put_mappings default_mappings lookup type_name build_input
      override_scope default_scope otel_identity signal_base
  pod_signal-AtPod (crash_loop_back_off e) input h named made =
      subst (AtPod e.namespace e.pod_name) (some_path _ _ made) (refl, refl)
  pod_signal-AtPod (oom_killed e) input h named made =
      subst (AtPod e.namespace e.pod_name) (some_path _ _ made) (refl, refl)
  pod_signal-AtPod (pod_pending_too_long e) input h named made =
      subst (AtPod e.namespace e.pod_name) (some_path _ _ made) (refl, refl)
  pod_signal-AtPod (grace_period_violation e) input h named made =
      subst (AtPod e.namespace e.pod_name) (some_path _ _ made) (refl, refl)
  pod_signal-AtPod (pod_evicted e) input h named made =
      subst (AtPod e.namespace e.pod_name) (some_path _ _ made) (refl, refl)
  pod_signal-AtPod (probe_failure e) input h named made =
      subst (AtPod e.namespace e.pod_name) (some_path _ _ made) (refl, refl)
  pod_signal-AtPod (image_pull_back_off e) input h named made =
      let has_pod = ne→eq e.pod_name "" named in
      subst (AtPod e.namespace e.pod_name) (some_path _ _ made) (rw has_pod refl, rw has_pod refl)
  pod_signal-AtPod _ input h named made = cc h

-- what the enricher leaves of an input at a pod, where the owner is found
-- the scope at a workload
abbrev owned_scope : String → IncidentObjectRef → IncidentScope
owned_scope namespace w = record {
  level = "Workload";
  namespace = namespace;
  workload_ref = some w;
  resource_ref = some w;
}

fingerprint_owned :
    (input : Input) (namespace : String) (w : IncidentObjectRef)
    → input.scope ≡ owned_scope namespace w
    → fingerprint input
      ≡ join "|" ("Workload" ∷ (nonempty namespace ++ to_lower w.kind ∷ w.name ∷ []))
unfolding fingerprint scope_parts
fingerprint_owned input namespace w e = rw e refl

module _ (objects : Objects) (pod_name : String) (pod : OwnedObject) (w : IncidentObjectRef) where
  enrich_pod-owned :
      (input : Input)
      → objects.get_pod input.namespace pod_name ≡ some pod
      → resolve_top_owner objects pod ≡ some w
      → w.name ≢ ""
      → (enrich_pod objects pod_name input).scope ≡ owned_scope input.namespace w
  unfolding enrich_pod promote_to_workload_scope resolve_pod_scope promote scope_of_pod
      pod_with_owner
  enrich_pod-owned input found owned named = rw (found, owned, ne→eq w.name "" named) refl

  enrich-owned :
      (namespace : String) (input : Input)
      → AtPod namespace pod_name input
      → pod_name ≢ ""
      → objects.get_pod namespace pod_name ≡ some pod
      → resolve_top_owner objects pod ≡ some w
      → w.name ≢ ""
      → (enrich objects input).scope ≡ owned_scope namespace w
  enrich-owned namespace input (at, in_ns) has_pod found owned named =
      let at_pod : (input.scope.level == "Pod") ≡ true =
        ap (λ (s : IncidentScope). s.level == "Pod") at in
      let its_name : resource_name input.scope.resource_ref ≡ pod_name =
        ap (λ (s : IncidentScope). resource_name s.resource_ref) at in
      let passed : enrich objects input ≡ enrich_pod objects pod_name input =
        enrich-pod input at_pod its_name in
      let found' : objects.get_pod input.namespace pod_name ≡ some pod =
        ap (λ n. objects.get_pod n pod_name) in_ns ∙ found in
      ap (λ (i : Input). i.scope) passed
      ∙ enrich_pod-owned input found' owned named
      ∙ ap (λ n. owned_scope n w) in_ns
    where
      enrich-pod :
          (input : Input)
          → (input.scope.level == "Pod") ≡ true
          → resource_name input.scope.resource_ref ≡ pod_name
          → enrich objects input ≡ enrich_pod objects pod_name input
      enrich-pod input at_pod its_name =
          unfold enrich in rw (at_pod, its_name, ne→eq pod_name "" has_pod) refl

  -- Whatever happens to a pod, a signal about its failure has the identity of its owner.
  pub pod_signal-owned :
      (duration_text : ℕ → String) (event : Event) (input : Input)
      → is_pod_signal event ≡ true
      → (base_of event).pod_name ≡ pod_name
      → pod_name ≢ ""
      → normalize duration_text (new_normalizer []) event ≡ some input
      → objects.get_pod (base_of event).namespace pod_name ≡ some pod
      → resolve_top_owner objects pod ≡ some w
      → w.name ≢ ""
      → fingerprint (enrich objects input)
        ≡ join "|"
            ("Workload" ∷ (nonempty (base_of event).namespace ++ to_lower w.kind ∷ w.name ∷ []))
  pod_signal-owned duration_text event input kind its_name has_pod made found owned named =
      let there =
        pod_signal-AtPod duration_text event input kind (λ h. has_pod (sym its_name ∙ h)) made in
      fingerprint_owned (enrich objects input) (base_of event).namespace w (
        enrich-owned (base_of event).namespace input
          (subst (λ p. AtPod (base_of event).namespace p input) its_name there) has_pod found owned
          named)
