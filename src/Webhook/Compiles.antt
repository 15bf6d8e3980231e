-- ===== src/Webhook/Compiles.antt =====
-- A rule that the webhook admits compiles in the rule engine.
use mathlib.Core.Bool.{false≢true}
use rca_operator.Base.{
  String, ◌≡◌, refl, ap, sym, ◌∙◌, true, Option, none, some, List, [], ◌∷◌, arith, ◌==◌, eq_iff,
  Bool-cases, inl, inr,
}
use rca_operator.RuleEngine.Rule.{
  Std, AttributeMatch, RuleCondition, CorrelationRule, LoadedCondition, LoadedRule,
  normalize_attribute_op, is_numeric_op, compile_op, compile_match, compile_attribute_matches,
  compile_conditions, compile_rule,
}
use rca_operator.Webhook.{
  admitted, is_some, validate_match, validate_attribute_matches, validate_conditions, validate_rule,
}

is_some-cases {ℓ} : {A : Type ℓ} (o : Option A) → is_some o ≡ true → (a : A) × (o ≡ some a)
is_some-cases none h = absurd (false≢true h)
is_some-cases (some a) h = (a, refl)

module _ (std : Std) where
  compile_op-total :
      (op : String) (m : AttributeMatch)
      → ((op == "Regex") ≡ true → is_some (std.compile_regex m.value) ≡ true)
      → (is_numeric_op op ≡ true → is_some (std.parse_float m.value) ≡ true)
      → is_some (compile_op std op m) ≡ true
  unfolding compile_op
  compile_op-total op m h k = elim (Bool-cases (op == "Regex")) [
    | inl e ↦ rw e (ground (arith, h e))
    | inr e ↦
        rw e (elim (Bool-cases (is_numeric_op op)) [
          | inl n ↦ rw n (ground (arith, k n))
          | inr n ↦ rw n
        ])
  ]

  validated_regex :
      (m : AttributeMatch)
      → validate_match std m ≡ admitted
      → (m.op == "Regex") ≡ true
      → is_some (std.compile_regex m.value) ≡ true
  unfolding validate_match
  validated_regex m h e = ground (arith, h, e)

  validated_number :
      (m : AttributeMatch)
      → validate_match std m ≡ admitted
      → is_numeric_op m.op ≡ true
      → is_some (std.parse_float m.value) ≡ true
  unfolding validate_match
  validated_number m h e = elim (Bool-cases (m.op == "Regex")) [
    | inl r ↦ absurd (false≢true (sym (ap is_numeric_op ((eq_iff m.op "Regex").0 r)) ∙ e))
    | inr r ↦ ground (arith, h, e, r)
  ]

  compile_match-total :
      (m : AttributeMatch) → validate_match std m ≡ admitted → is_some (compile_match std m) ≡ true
  unfolding compile_match normalize_attribute_op
  compile_match-total m h = elim (Bool-cases (m.op == "")) [
    | inl e ↦
        rw e (compile_op-total "Equals" m (λ x. absurd (false≢true x)) (λ x. absurd (false≢true x)))
    | inr e ↦ rw e (compile_op-total m.op m (validated_regex m h) (validated_number m h))
  ]

  compile_attribute_matches-total :
      (ms : List AttributeMatch)
      → validate_attribute_matches std ms ≡ admitted
      → is_some (compile_attribute_matches std ms) ≡ true
  unfolding compile_attribute_matches validate_attribute_matches
  compile_attribute_matches-total [] h = refl
  compile_attribute_matches-total (m ∷ ms) h =
      ground (arith, h, compile_match-total m, compile_attribute_matches-total ms)

  compile_conditions-total :
      (cs : List RuleCondition)
      → validate_conditions std cs ≡ admitted
      → is_some (compile_conditions std cs) ≡ true
  unfolding compile_conditions validate_conditions
  compile_conditions-total [] h = refl
  compile_conditions-total (c ∷ cs) h =
      ground (arith, h, compile_attribute_matches-total c.attributes, compile_conditions-total cs)

  -- A rule that the webhook admits and whose summary is a template is loaded: none of its
  -- conditions is refused by the rule engine.
  pub compile_rule-admitted :
      (rule : CorrelationRule)
      → validate_rule std rule ≡ admitted
      → is_some (std.parse_template rule.name rule.fires.summary) ≡ true
      → (r : LoadedRule std) × (compile_rule std rule ≡ some r)
        × (r.priority ≡ rule.priority)
        × (r.trigger ≡ rule.trigger)
  unfolding compile_rule validate_rule
  compile_rule-admitted rule h t =
      let conditions : is_some (compile_conditions std rule.conditions) ≡ true =
        compile_conditions-total rule.conditions (ground (arith, h)) in
      let (tmpl, e) = is_some-cases (std.parse_template rule.name rule.fires.summary) t in
      let (conds, f) = is_some-cases (compile_conditions std rule.conditions) conditions in
      (loaded tmpl conds, rw (e, f), refl, refl)
    where
      loaded : std.Template → List (LoadedCondition std) → LoadedRule std
      loaded tmpl conditions = record {
        name = rule.name;
        priority = rule.priority;
        trigger = rule.trigger;
        conditions = conditions;
        fires = rule.fires;
        tmpl = tmpl;
      }
