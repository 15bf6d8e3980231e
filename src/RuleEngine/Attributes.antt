-- ===== src/RuleEngine/Attributes.antt =====
-- evaluateAttribute and attributesMatch of internal/rulengine/crd_engine.go. The attributes of an
-- event are none where it does not implement AttributesEvent.
use rca_operator.Base.{
  String, Bool, true, false, not, Option, none, some, List, [], ◌∷◌, if◌then◌else◌, ◌==◌,
}
use rca_operator.Base.Maps.{Map, lookup}
use rca_operator.Base.Texts.{contains}
use rca_operator.Watcher.Event.{Event, attributes}
use rca_operator.RuleEngine.Rule.{Std, CompiledAttributeMatch, is_numeric_op}

module _ (std : Std) where
  -- `m.regex.MatchString(val)`, which is guarded by `m.regex == nil`
  abbrev regex_matches : Option std.Regex → String → Bool
  regex_matches none val = false
  regex_matches (some re) val = std.match_string re val

  -- the inner switch over the numeric operators
  abbrev compare_numbers : String → std.Float → std.Float → Bool
  compare_numbers op lhs number =
      if op == "Gte"
      then std.float_le number lhs
      else if op == "Lte"
      then std.float_le lhs number
      else if op == "Gt"
      then std.float_lt number lhs
      else if op == "Lt"
      then std.float_lt lhs number
      else false

  abbrev number_matches : String → Option std.Float → std.Float → Bool
  number_matches op none number = false
  number_matches op (some lhs) number = compare_numbers op lhs number

  -- the switch for a key that is present
  abbrev match_present : CompiledAttributeMatch std → String → Bool
  match_present m val =
      if m.op == "Equals"
      then val == m.value
      else if m.op == "NotEquals"
      then not (val == m.value)
      else if m.op == "Contains"
      then contains val m.value
      else if m.op == "NotContains"
      then not (contains val m.value)
      else if m.op == "Regex"
      then regex_matches m.regex val
      else if m.op == "Exists"
      then not (val == "")
      else if m.op == "NotExists"
      then val == ""
      else if is_numeric_op m.op
      then number_matches m.op (std.parse_float val) m.number
      else false

  -- the switch for a key that is missing: every other operator asks for `present`
  abbrev match_value : CompiledAttributeMatch std → Option String → Bool
  match_value m none = m.op == "NotExists"
  match_value m (some val) = match_present m val

  unfoldable pub evaluate_attribute : Option (Map String) → CompiledAttributeMatch std → Bool
  evaluate_attribute none m = m.op == "NotExists"
  evaluate_attribute (some attrs) m = match_value m (lookup m.key attrs)

  -- the loop of attributesMatch
  unfoldable pub all_match : Option (Map String) → List (CompiledAttributeMatch std) → Bool
  all_match attrs [] = true
  all_match attrs (m ∷ ms) =
      let rest = all_match attrs ms in if evaluate_attribute attrs m then rest else false

  unfoldable pub attributes_match : Event → List (CompiledAttributeMatch std) → Bool
  attributes_match ev matches = all_match (attributes ev) matches
