-- ===== src/Consumer/Handling.antt =====
-- handleEvent keeps the stored reports sound and distinct, and opens a report for what it takes in.
use rca_operator.Base.{ℕ, String, ◌≡◌, refl, ap, sym, subst, true, Option, none, some, [], ◌∷◌, All}
use rca_operator.Base.Join.{join}
use rca_operator.Consumer.Identity.{
  IsPlaced, IsPlaced-named, scope_parts_first, normalize-IsPlaced, enrich-IsPlaced,
  apply_result-IsPlaced,
}
use rca_operator.Consumer.{
  Environment, Consumer, add_to_engine, final_input, handle_normalized, handle_failure,
  count_received, handle_event,
}
use rca_operator.Incident.Input.{Input, scope_parts, fingerprint}
use rca_operator.Reporter.Api.{Api, ApiLaws}
use rca_operator.Reporter.Distinct.{ensure_signal-IsDistinct}
use rca_operator.Reporter.Evolution.{IsDistinct-Evolves}
use rca_operator.Reporter.Evolution.Closing.{
  resolve_for_deleted_pod-Evolves, resolve_for_healthy_pod-Evolves, resolve_for_pods-IsSound,
}
use rca_operator.Reporter.Fingerprint.{strip_legacy_type}
use rca_operator.Reporter.Fingerprint.Plain.{is_plain, strip_legacy_type-join}
use rca_operator.Reporter.Healthy.{IsHealthy}
use rca_operator.Reporter.Unique.Ensure.{ensure_signal-IsSound}
use rca_operator.Reporter.Write.{Platform}
use rca_operator.RuleEngine.Engine.{Engine}
use rca_operator.RuleEngine.Rule.{Std}
use rca_operator.Signals.Enricher.{enrich}
use rca_operator.Signals.Normalizer.{normalize}
use rca_operator.Watcher.Event.{Event, pod_healthy, pod_deleted}

-- the parts of the identity have no `|` and do not begin with `OTel`
abbrev pub HasPlainParts : Input → Type 0
HasPlainParts input = All (λ p. is_plain p ≡ true) (scope_parts input.scope [])

HasPlainParts-bare :
    (input : Input)
    → IsPlaced input
    → HasPlainParts input
    → strip_legacy_type (fingerprint input) ≡ fingerprint input
unfolding fingerprint
HasPlainParts-bare input placed plain =
    let (c, s, xs, e) = scope_parts_first input.scope placed in
    let fp : fingerprint input ≡ join "|" (String.◌∷◌ c s ∷ xs) = ap (join "|") (e _) in
    subst (λ z. strip_legacy_type z ≡ z) (sym fp)
      (strip_legacy_type-join (String.◌∷◌ c s) xs
        (subst (All (λ p. is_plain p ≡ true)) (e []) plain))

module _ (api : Api) (laws : ApiLaws api) (std : Std) (platform : Platform) where
  final_input-IsPlaced :
      (env : Environment) (now : ℕ) (event : Event) (input : Input) (engine : Option (Engine std))
      → IsPlaced input
      → IsPlaced (final_input api std platform env now event input engine)
  unfolding final_input
  final_input-IsPlaced env now event input engine placed =
      apply_result-IsPlaced _ (enrich env.objects input) (enrich-IsPlaced env.objects input placed)

  -- The identity of what the handler passes on is plain, where it passes something on.
  abbrev pub PassesPlain : Environment → ℕ → Event → Option (Engine std) → Type 0
  PassesPlain env now event engine =
      (input : Input)
      → normalize env.duration_text env.normalizer event ≡ some input
      → HasPlainParts (
          final_input api std platform env now event input
            (add_to_engine api std platform now event engine))

  handle_normalized-IsHealthy :
      (env : Environment) (now : ℕ) (event : Event) (o : Option Input)
      (c : Consumer api std platform)
      → ((input : Input)
          → o ≡ some input
          → IsPlaced input
            × HasPlainParts (final_input api std platform env now event input c.engine))
      → IsHealthy api laws platform c.reporter.world
      → IsHealthy api laws platform
          (handle_normalized api std platform env now event o c).0.reporter.world
  unfolding handle_normalized
  handle_normalized-IsHealthy env now event none c h healthy = healthy
  handle_normalized-IsHealthy env now event (some input) c h healthy =
      let (placed, plain) = h input refl in
      let final = final_input api std platform env now event input c.engine in
      let is_placed = final_input-IsPlaced env now event input c.engine placed in
      record {
        sound =
            ensure_signal-IsSound api laws platform now final c.reporter healthy.sound
              (IsPlaced-named final is_placed) (HasPlainParts-bare final is_placed plain);
        distinct = ensure_signal-IsDistinct api laws platform now final c.reporter healthy.distinct;
      }

  handle_failure-IsHealthy :
      (env : Environment) (now : ℕ) (event : Event) (c : Consumer api std platform)
      → PassesPlain env now event c.engine
      → IsHealthy api laws platform c.reporter.world
      → IsHealthy api laws platform
          (handle_failure api std platform env now event c).0.reporter.world
  unfolding handle_failure
  handle_failure-IsHealthy env now event c plain healthy =
      handle_normalized-IsHealthy env now event (normalize env.duration_text env.normalizer event)
        (record c { engine = add_to_engine api std platform now event c.engine })
        (λ input e.
          (normalize-IsPlaced env.duration_text env.normalizer event input e, plain input e))
        healthy

  pub handle_event-IsHealthy :
      (env : Environment) (now : ℕ) (event : Event) (c : Consumer api std platform)
      → PassesPlain env now event c.engine
      → IsHealthy api laws platform c.reporter.world
      → IsHealthy api laws platform (handle_event api std platform env now event c).0.reporter.world
  unfolding handle_event count_received
  handle_event-IsHealthy env now (pod_healthy e) c plain healthy =
      let found = env.pods e.namespace e.pod_name in
      record {
        sound =
            (resolve_for_pods-IsSound api laws platform now found e.namespace e.pod_name c.reporter
              healthy.sound).0;
        distinct =
            IsDistinct-Evolves (laws.reports c.reporter.world) _
              (resolve_for_healthy_pod-Evolves api laws platform now found e.namespace e.pod_name
                c.reporter)
              healthy.distinct;
      }
  handle_event-IsHealthy env now (pod_deleted e) c plain healthy =
      let found = env.pods e.namespace e.pod_name in
      record {
        sound =
            (resolve_for_pods-IsSound api laws platform now found e.namespace e.pod_name c.reporter
              healthy.sound).1;
        distinct =
            IsDistinct-Evolves (laws.reports c.reporter.world) _
              (resolve_for_deleted_pod-Evolves api laws now e.namespace e.pod_name c.reporter)
              healthy.distinct;
      }
  handle_event-IsHealthy env now event c plain healthy =
      handle_failure-IsHealthy env now event (count_received api std platform event c) plain healthy
