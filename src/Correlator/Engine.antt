-- ===== src/Correlator/Engine.antt =====
-- internal/correlator/correlator.go (CorrelationResult, Rule, Correlator) and the rule registry of
-- internal/correlator/rules.go. A rule is code that callers supply: its methods are fields here.
pub mod Priority
use rca_operator.Base.{
  ℕ, String, Bool, false, Option, none, some, List, [], ◌∷◌, ◌++◌, any_by, if◌then◌else◌, ◌==◌,
}
use rca_operator.Base.Sort.{sort}
use rca_operator.Watcher.Event.{Event}
use rca_operator.Correlator.Buffer.{Entry, Buffer, new_buffer, add, snapshot}
use rca_operator.Correlator.Order.{rule_less}

pub record CorrelationResult : Type 0 where
  pub fired : Bool
  pub severity : String
  pub summary : String
  pub rule : String
  pub resource : String
  pub scope_level : String

-- CorrelationResult{}
abbrev pub no_result : CorrelationResult
no_result = record {
  fired = false;
  severity = "";
  summary = "";
  rule = "";
  resource = "";
  scope_level = "";
}

-- the interface Rule
pub record Rule : Type 0 where
  pub name : String
  pub priority : ℕ
  pub evaluate : Event → List Entry → CorrelationResult

-- registeredRule.Evaluate: the name is filled in where the rule left it out
unfoldable pub registered_rule : String → ℕ → (Event → List Entry → CorrelationResult) → Rule
registered_rule name priority evaluate = record {
  name = name;
  priority = priority;
  evaluate = λ event entries.
      let result = evaluate event entries in
      if result.fired
      then (if result.rule == "" then record result { rule = name } else result)
      else result;
}

abbrev pub rule_order : Rule → Rule → Bool
rule_order = rule_less (λ r. r.priority) (λ r. r.name)

-- RegisterRule on the registry: none is the panic on a name that is taken
unfoldable pub register_rule : Rule → List Rule → Option (List Rule)
register_rule rule registry =
    if any_by (λ existing. existing.name == rule.name) registry
    then none
    else some (registry ++ rule ∷ [])

unfoldable pub registered_rules : List Rule → List Rule
registered_rules registry = sort rule_order registry

pub record Correlator : Type 0 where
  pub buf : Buffer
  pub rules : List Rule

-- NewCorrelator with no option, over the registry
unfoldable pub new_correlator : ℕ → List Rule → Correlator
new_correlator window registry = record {
  buf = new_buffer window;
  rules = registered_rules registry;
}

-- the option WithRules
unfoldable pub with_rules : List Rule → Correlator → Correlator
with_rules rules c = record c { rules = sort rule_order rules }

unfoldable pub add_event : ℕ → Event → Correlator → Correlator
add_event now e c = record c { buf = add now e c.buf }

-- the loop of Evaluate over the rules
unfoldable pub first_fired : Event → List Entry → List Rule → CorrelationResult
first_fired event entries [] = no_result
first_fired event entries (r ∷ rs) =
    let result = r.evaluate event entries in
    let rest = first_fired event entries rs in if result.fired then result else rest

unfoldable pub evaluate : ℕ → Event → Correlator → Correlator × CorrelationResult
evaluate now event c =
    let (buf, entries) = snapshot now c.buf in
    (record c { buf = buf }, first_fired event entries c.rules)
