-- ===== src/RuleEngine/Engine.antt =====
-- CRDRuleEngine of internal/rulengine/crd_engine.go: the rules in force, the buffer, and the
-- evaluation of a signal. The clock is an argument.
pub mod Priority
pub mod Traces
pub mod Conditions
use Prim.Native.String.{◌++◌}
use rca_operator.Base.{
  ℕ, String, Bool, true, false, ◌&&◌, Option, none, some, List, [], ◌∷◌, any_by, if◌then◌else◌,
  ◌==◌,
}
use rca_operator.Base.Texts.{to_lower}
use rca_operator.Watcher.Event.{Event, stalled_rollout, type_name}
use rca_operator.Correlator.Buffer.{Entry, Buffer, new_buffer, add, snapshot}
use rca_operator.Correlator.Engine.{CorrelationResult, no_result}
use rca_operator.RuleEngine.Rule.{
  Std, RuleFires, CorrelationRule, LoadedCondition, LoadedRule, load_rules,
}
use rca_operator.RuleEngine.Scope.{extract_base, scope_matches}
use rca_operator.RuleEngine.Attributes.{attributes_match}

-- the case "deployment" of resolveResource
unfoldable pub deployment_of : Event → String
deployment_of (stalled_rollout sr) = sr.deployment_name
deployment_of e = (extract_base e).pod_name

unfoldable pub resolve_resource : RuleFires → Event → String
unfolding deployment_of
resolve_resource fires event =
    let resource = to_lower fires.resource in
    if resource == "node"
    then (extract_base event).node_name
    else if resource == "deployment"
    then deployment_of event
    else ""

module _ (std : Std) where
  pub record Engine : Type 0 where
    pub buf : Buffer
    pub rules : List (LoadedRule std)

  -- NewCRDRuleEngine
  unfoldable pub new_engine : ℕ → Engine
  new_engine window = record { buf = new_buffer window; rules = [] }

  -- LoadRules replaces the rules by the listed resources; a failed list call changes nothing
  unfoldable pub reload : Option (List CorrelationRule) → Engine → Engine
  reload none e = e
  reload (some rules) e = record e { rules = load_rules std rules }

  unfoldable pub add_event : ℕ → Event → Engine → Engine
  add_event now event e = record e { buf = add now event e.buf }

  -- one entry of the buffer against one condition, the three `continue`s of conditionsMet
  unfoldable pub entry_matches : Event → LoadedCondition std → Entry → Bool
  entry_matches trigger cond en =
      (type_name en.event == cond.event_type)
      && (scope_matches trigger en.event cond.scope
          && attributes_match std en.event cond.attributes)

  unfoldable pub conditions_met : Event → List (LoadedCondition std) → List Entry → Bool
  conditions_met trigger [] entries = true
  conditions_met trigger (cond ∷ conds) entries =
      let rest = conditions_met trigger conds entries in
      let found = any_by (entry_matches trigger cond) entries in
      if cond.negate then (if found then false else rest) else if found then rest else false

  abbrev or_render_error : String → Option String → String
  or_render_error name none = name ++ ": template render error"
  or_render_error name (some text) = text

  -- tmpl.Name() is the rule's name
  unfoldable pub render_summary : LoadedRule std → Event → String
  render_summary rule event =
      let base = extract_base event in
      or_render_error rule.name (
        std.execute rule.tmpl (record {
          pod_name = base.pod_name;
          namespace = base.namespace;
          node_name = base.node_name;
          event_type = type_name event;
        }))

  -- what Evaluate returns for the rule that wins
  unfoldable pub fire : Event → LoadedRule std → CorrelationResult
  fire event rule = record {
    fired = true;
    severity = rule.fires.severity;
    summary = render_summary rule event;
    rule = rule.name;
    resource = resolve_resource rule.fires event;
    scope_level = rule.fires.scope;
  }

  unfoldable pub rule_matches : Event → List Entry → LoadedRule std → Bool
  rule_matches event entries rule =
      (rule.trigger == type_name event) && conditions_met event rule.conditions entries

  -- the loop of Evaluate
  unfoldable pub first_match : Event → List Entry → List (LoadedRule std) → CorrelationResult
  first_match event entries [] = no_result
  first_match event entries (rule ∷ rules) =
      let rest = first_match event entries rules in
      if rule_matches event entries rule then fire event rule else rest

  unfoldable pub evaluate : ℕ → Event → Engine → Engine × CorrelationResult
  evaluate now event e =
      let (buf, entries) = snapshot now e.buf in
      (record e { buf = buf }, first_match event entries e.rules)
