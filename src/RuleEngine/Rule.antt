-- ===== src/RuleEngine/Rule.antt =====
-- The resource RCACorrelationRule of api/v1alpha1/rcacorrelationrule_types.go, and what
-- internal/rulengine/crd_engine.go compiles it to. text/template, regexp and floating-point parsing
-- are a parameter. The CRD schema bounds priority from below by 1, so it is a natural number; the
-- agent selector is left out, since no code of the rule engine reads it.
use rca_operator.Base.{
  ℕ, String, Bool, Option, none, some, List, [], ◌∷◌, if◌then◌else◌, ◌==◌, ◌||◌,
}
use rca_operator.Base.Sort.{sort}
use rca_operator.Correlator.Order.{rule_less}

pub record AttributeMatch : Type 0 where
  pub key : String
  pub op : String
  pub value : String

pub record RuleCondition : Type 0 where
  pub event_type : String
  pub scope : String
  pub negate : Bool
  pub attributes : List AttributeMatch

pub record RuleFires : Type 0 where
  pub incident_type : String
  pub severity : String
  pub summary : String
  pub resource : String
  pub scope : String

-- metadata.name, metadata.labels and the spec
pub record CorrelationRule : Type 0 where
  pub name : String
  pub auto_generated : Bool
  pub priority : ℕ
  pub trigger : String
  pub conditions : List RuleCondition
  pub fires : RuleFires

pub record TemplateContext : Type 0 where
  pub pod_name : String
  pub namespace : String
  pub node_name : String
  pub event_type : String

-- The parts of the standard library that stay abstract.
pub record Std : Type 1 where
  pub Template : Type 0
  pub Regex : Type 0
  pub Float : Type 0
  pub parse_template : String → String → Option Template
  pub execute : Template → TemplateContext → Option String
  pub compile_regex : String → Option Regex
  pub match_string : Regex → String → Bool
  pub parse_float : String → Option Float
  pub float_zero : Float
  pub float_le : Float → Float → Bool
  pub float_lt : Float → Float → Bool

pub record CompiledAttributeMatch (std : Std) : Type 0 where
  pub key : String
  pub op : String
  pub value : String
  pub regex : Option std.Regex
  pub number : std.Float

pub record LoadedCondition (std : Std) : Type 0 where
  pub event_type : String
  pub scope : String
  pub negate : Bool
  pub attributes : List (CompiledAttributeMatch std)

pub record LoadedRule (std : Std) : Type 0 where
  pub name : String
  pub priority : ℕ
  pub trigger : String
  pub conditions : List (LoadedCondition std)
  pub fires : RuleFires
  pub tmpl : std.Template

unfoldable pub normalize_attribute_op : String → String
normalize_attribute_op op = if op == "" then "Equals" else op

-- the labels `case attributeOpGte, attributeOpLte, attributeOpGt, attributeOpLt`
abbrev pub is_numeric_op : String → Bool
is_numeric_op op = op == "Gte" || (op == "Lte" || (op == "Gt" || op == "Lt"))

-- a chain of fallible steps: none is an error that is returned
infixl 5 ◌>>=◌
abbrev pub ◌>>=◌ {ℓ κ} : {A : Type ℓ} {B : Type κ} → Option A → (A → Option B) → Option B
none >>= f = none
some a >>= f = f a

abbrev append_some {ℓ} : {A : Type ℓ} → Option A → List A → List A
append_some none xs = xs
append_some (some x) xs = x ∷ xs

module _ (std : Std) where
  -- the switch of compileAttributeMatches on the normalized operator
  unfoldable pub compile_op : String → AttributeMatch → Option (CompiledAttributeMatch std)
  compile_op op m =
      let plain : CompiledAttributeMatch std = record {
        key = m.key;
        op = op;
        value = m.value;
        regex = none;
        number = std.float_zero;
      } in
      if op == "Regex"
      then (do re ← std.compile_regex m.value; some (record plain { regex = some re }))
      else if is_numeric_op op
      then (do number ← std.parse_float m.value; some (record plain { number = number }))
      else some plain

  -- the body of the loop of compileAttributeMatches
  unfoldable pub compile_match : AttributeMatch → Option (CompiledAttributeMatch std)
  compile_match m = compile_op (normalize_attribute_op m.op) m

  unfoldable pub compile_attribute_matches :
      List AttributeMatch → Option (List (CompiledAttributeMatch std))
  compile_attribute_matches [] = some []
  compile_attribute_matches (m ∷ ms) = do
    compiled ← compile_match m
    out ← compile_attribute_matches ms
    some (compiled ∷ out)

  unfoldable pub compile_conditions : List RuleCondition → Option (List (LoadedCondition std))
  compile_conditions [] = some []
  compile_conditions (c ∷ cs) = do
    attributes ← compile_attribute_matches c.attributes
    out ← compile_conditions cs
    some (
        record {
          event_type = c.event_type;
          scope = c.scope;
          negate = c.negate;
          attributes = attributes;
        }
        ∷ out)

  -- the body of the loop of LoadRules: a rule that does not compile is logged and skipped
  unfoldable pub compile_rule : CorrelationRule → Option (LoadedRule std)
  compile_rule rule = do
    tmpl ← std.parse_template rule.name rule.fires.summary
    conditions ← compile_conditions rule.conditions
    some (record {
      name = rule.name;
      priority = rule.priority;
      trigger = rule.trigger;
      conditions = conditions;
      fires = rule.fires;
      tmpl = tmpl;
    })

  unfoldable pub compile_rules : List CorrelationRule → List (LoadedRule std)
  compile_rules [] = []
  compile_rules (rule ∷ rules) = append_some (compile_rule rule) (compile_rules rules)

  abbrev pub loaded_order : LoadedRule std → LoadedRule std → Bool
  loaded_order = rule_less (λ r. r.priority) (λ r. r.name)

  -- LoadRules on the listed resources
  unfoldable pub load_rules : List CorrelationRule → List (LoadedRule std)
  load_rules rules = sort loaded_order (compile_rules rules)
