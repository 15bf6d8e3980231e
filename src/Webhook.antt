-- ===== src/Webhook.antt =====
-- internal/webhook/rcacorrelationrule_webhook.go: the admission check of a rule. An error is the
-- constructor that names the check; the indices in its text are left out.
pub mod Compiles
use rca_operator.Base.{
  ℕ, String, Bool, true, false, not, Option, none, some, List, [], ◌∷◌, any_by, ltb, if◌then◌else◌,
  ◌==◌,
}
use rca_operator.Watcher.Event.{is_known_event_type}
use rca_operator.RuleEngine.Rule.{
  Std, AttributeMatch, RuleCondition, CorrelationRule, is_numeric_op,
}

pub data Verdict : Type 0 where
  admitted : Verdict
  bad_priority bad_trigger bad_severity bad_event_type bad_scope : Verdict
  no_key bad_op no_value bad_regex bad_number : Verdict

abbrev pub valid_severities : List String
valid_severities = "P1" ∷ "P2" ∷ "P3" ∷ "P4" ∷ []

abbrev valid_attribute_ops : List String
valid_attribute_ops =
    "" ∷ "Equals" ∷ "NotEquals" ∷ "Contains" ∷ "NotContains" ∷ "Regex" ∷ "Exists" ∷ "NotExists"
    ∷ "Gte" ∷ "Lte" ∷ "Gt" ∷ "Lt" ∷ []

abbrev pub valid_scopes : List String
valid_scopes = "samePod" ∷ "sameNode" ∷ "sameNamespace" ∷ "sameTrace" ∷ "any" ∷ []

unfoldable pub one_of : List String → String → Bool
one_of names s = any_by (λ n. n == s) names

-- `if err := …; err != nil { return err }`
infixr 5 ◌then_check◌
abbrev ◌then_check◌ : Verdict → Verdict → Verdict
admitted then_check v = v
v then_check w = v

abbrev pub is_some {ℓ} : {A : Type ℓ} → Option A → Bool
is_some none = false
is_some (some a) = true

module _ (std : Std) where
  -- the body of the loop of validateAttributeMatches
  unfoldable pub validate_match : AttributeMatch → Verdict
  validate_match m =
      if m.key == ""
      then no_key
      else if not (one_of valid_attribute_ops m.op)
      then bad_op
      else if m.op == "Regex"
      then (if m.value == ""
          then no_value
          else if is_some (std.compile_regex m.value)
          then admitted
          else bad_regex)
      else if is_numeric_op m.op
      then (if m.value == ""
          then no_value
          else if is_some (std.parse_float m.value)
          then admitted
          else bad_number)
      else admitted

  unfoldable pub validate_attribute_matches : List AttributeMatch → Verdict
  validate_attribute_matches [] = admitted
  validate_attribute_matches (m ∷ ms) = validate_match m then_check validate_attribute_matches ms

  -- the loop of validateRule over the conditions
  unfoldable pub validate_conditions : List RuleCondition → Verdict
  validate_conditions [] = admitted
  validate_conditions (c ∷ cs) =
      let rest = validate_attribute_matches c.attributes then_check validate_conditions cs in
      if not (is_known_event_type c.event_type)
      then bad_event_type
      else if not (one_of valid_scopes c.scope)
      then bad_scope
      else rest

  unfoldable pub validate_rule : CorrelationRule → Verdict
  validate_rule rule =
      if ltb rule.priority 1
      then bad_priority
      else if not (is_known_event_type rule.trigger)
      then bad_trigger
      else if not (one_of valid_severities rule.fires.severity)
      then bad_severity
      else validate_conditions rule.conditions
