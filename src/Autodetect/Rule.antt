-- ===== src/Autodetect/Rule.antt =====
-- internal/autodetect/creator.go: the rule of a pattern, what is read back from a rule, and when it is
-- stale. The layout RFC 3339 is a parameter. The annotation of the occurrences is read as the count
-- that new_rule writes; any other text counts as 0.
pub mod Admitted
use rca_operator.Base.{
  ℕ, ◌+◌, String, Bool, true, false, not, ◌&&◌, ◌||◌, Option, none, some, List, [], ◌∷◌, any_by,
  ltb, leb, length, if◌then◌else◌, ◌==◌,
}
use Prim.Native.String.{◌++◌}
use rca_operator.Base.Maps.{Map, lookup, put}
use rca_operator.Base.Decimal.{Parsed, bad, negative, natural, atoi, itoa}
use rca_operator.Reporter.Text.{rank}
use rca_operator.RuleEngine.Rule.{RuleCondition, CorrelationRule}
use rca_operator.RuleEngine.Scope.{value_or_empty}
use rca_operator.Signals.Mapping.{SignalMapping, default_mappings}
use rca_operator.Autodetect.Pattern.{
  EventPair, normalize_pair, pair_key, is_valid_scope_pair, rule_name,
}
use rca_operator.Autodetect.Accumulator.{Config, PatternRecord}
use rca_operator.Autodetect.Api.{RuleObject, RuleApi}

-- time.RFC3339
pub record TimeFormat : Type 0 where
  pub format : ℕ → String
  pub parse : String → Option ℕ

-- `sevMap[m.EventType] = m.Severity` of NewCreator
unfoldable pub put_severities : List SignalMapping → Map String → Map String
put_severities [] table = table
put_severities (m ∷ ms) table = put_severities ms (put m.event_type m.severity table)

unfoldable pub severity_map : Map String
severity_map = put_severities default_mappings []

-- higherSeverity of this package: the first one also where neither is known
unfoldable pub higher_ranked : String → String → String
higher_ranked a b = if leb (rank b) (rank a) then a else b

unfoldable pub resolve_severity : EventPair → String
resolve_severity pair =
    let s1 = value_or_empty (lookup pair.trigger_type severity_map) in
    let s2 = value_or_empty (lookup pair.condition_type severity_map) in higher_ranked s1 s2

unfoldable pub build_auto_summary : EventPair → String
build_auto_summary pair =
    let types =
      "Auto-detected: " ++ pair.trigger_type ++ " correlated with " ++ pair.condition_type in
    if pair.scope == "sameNode"
    then types ++ " on same node"
    else if pair.scope == "sameNamespace"
    then types ++ " in same namespace"
    else types ++ " on same pod"

-- the first condition of a rule
unfoldable pub pair_of : String → List RuleCondition → Option EventPair
pair_of trigger [] = none
pair_of trigger (c ∷ cs) = some (
    normalize_pair
      (record { trigger_type = trigger; condition_type = c.event_type; scope = c.scope }))

unfoldable pub pair_from_rule : RuleObject → Option EventPair
pair_from_rule o = pair_of o.rule.trigger o.rule.conditions

-- the two loops of userRuleExists
unfoldable pub covers_pair : EventPair → RuleObject → Bool
covers_pair pair o =
    not o.rule.auto_generated
    && ((o.rule.trigger == pair.trigger_type)
        && any_by (λ c. (c.event_type == pair.condition_type) && (c.scope == pair.scope))
            o.rule.conditions)

unfoldable pub covered_in : EventPair → Option (List RuleObject) → Bool
covered_in pair none = false
covered_in pair (some l) = any_by (covers_pair pair) l

unfoldable pub last_seen_of : RuleObject → Option ℕ → ℕ
last_seen_of o none = o.created_at
last_seen_of o (some t) = t

unfoldable pub is_invalid : Option EventPair → Bool
is_invalid none = false
is_invalid (some pair) = not (is_valid_scope_pair pair)

unfoldable pub lacks_valid_pair : Option EventPair → Bool
lacks_valid_pair none = true
lacks_valid_pair (some pair) = not (is_valid_scope_pair pair)

abbrev number_or_zero : Parsed → ℕ
number_or_zero bad = 0
number_or_zero (negative n) = 0
number_or_zero (natural n) = n

abbrev time_or_zero : Option ℕ → ℕ
time_or_zero none = 0
time_or_zero (some t) = t

-- the pair that LoadExisting rebuilds: without a condition, its type is empty
unfoldable pub loaded_pair : String → List RuleCondition → EventPair
loaded_pair trigger [] =
    normalize_pair (record { trigger_type = trigger; condition_type = ""; scope = "samePod" })
loaded_pair trigger (c ∷ cs) =
    normalize_pair
      (record { trigger_type = trigger; condition_type = c.event_type; scope = c.scope })

-- the record of a key, widened by one of the same key
unfoldable pub widened : PatternRecord → Option PatternRecord → PatternRecord
widened r none = r
widened r (some old) = record old {
  occurrences = if ltb old.occurrences r.occurrences then r.occurrences else old.occurrences;
  first_seen = if ltb r.first_seen old.first_seen then r.first_seen else old.first_seen;
  last_seen = if ltb old.last_seen r.last_seen then r.last_seen else old.last_seen;
}

module _ (time : TimeFormat) where
  -- the object that updateAnnotations sends
  unfoldable pub annotated : ℕ → PatternRecord → RuleObject → RuleObject
  annotated now r o = record o {
    rule = record o.rule { fires = record o.rule.fires { summary = build_auto_summary r.pair } };
    annotations = record o.annotations {
      pattern_key = pair_key r.pair;
      occurrences = itoa r.occurrences;
      last_seen = time.format now;
    };
  }

  unfoldable pub loaded_record : RuleObject → PatternRecord
  loaded_record o = record {
    pair = loaded_pair o.rule.trigger o.rule.conditions;
    first_seen = time_or_zero (time.parse o.annotations.first_seen);
    last_seen = time_or_zero (time.parse o.annotations.last_seen);
    occurrences = number_or_zero (atoi o.annotations.occurrences);
    rule_name = o.rule.name;
  }

  -- the loop of LoadExisting
  unfoldable pub load_each : List RuleObject → Map PatternRecord → Map PatternRecord
  load_each [] records = records
  load_each (o ∷ os) records =
      let r = loaded_record o in
      let key = pair_key r.pair in
      let added = put key (widened r (lookup key records)) records in
      load_each os (
        if (o.annotations.pattern_key == "") || not (is_valid_scope_pair r.pair)
        then records
        else added)

module _ (time : TimeFormat) (cfg : Config) where
  -- the object that createRule sends
  unfoldable pub new_rule : ℕ → String → PatternRecord → RuleObject
  new_rule now name r = record {
    rule = record {
      name = name;
      auto_generated = true;
      priority = cfg.auto_rule_priority;
      trigger = r.pair.trigger_type;
      conditions =
          record {
            event_type = r.pair.condition_type;
            scope = r.pair.scope;
            negate = false;
            attributes = [];
          }
          ∷ [];
      fires = record {
        incident_type = r.pair.trigger_type ++ "-" ++ r.pair.condition_type;
        severity = resolve_severity r.pair;
        summary = build_auto_summary r.pair;
        resource = "";
        scope = "";
      };
    };
    annotations = record {
      pattern_key = pair_key r.pair;
      occurrences = itoa r.occurrences;
      first_seen = time.format r.first_seen;
      last_seen = time.format now;
    };
    created_at = now;
  }

  -- `now.Sub(lastSeen) > c.config.ExpiryDuration` without a subtraction
  unfoldable pub is_stale : ℕ → RuleObject → Bool
  is_stale now o =
      ltb (last_seen_of o (time.parse o.annotations.last_seen) + cfg.expiry_duration) now
