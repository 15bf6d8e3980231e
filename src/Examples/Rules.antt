-- ===== src/Examples/Rules.antt =====
-- The correlation buffer and the rule engine at concrete signals and rules.
use mathlib.Core.Bool.{false≢true}
use rca_operator.Base.{
  ◌≡◌, ◌≢◌, ◌↔◌, refl, true, false, some, none, List, [], ◌∷◌, arith, filter_by, All, ◌==◌, path→eq,
}
use rca_operator.Base.Sort.{sort, insert}
use rca_operator.Watcher.Event.{type_name, attributes, is_known_event_type}
use rca_operator.Correlator.Buffer.{
  Buffer, new_buffer, snapshot, snapshot_by_trace, purge_old, stale_count, add, extract_trace_id,
  entries_of, index_entry, deliver,
}
use rca_operator.Correlator.Buffer.Trace.{has_trace}
use rca_operator.Correlator.Buffer.History.{run, recorded, snapshot-run, snapshot_by_trace-run}
use rca_operator.Correlator.Buffer.Window.{fresh}
use rca_operator.RuleEngine.Rule.{
  LoadedRule, LoadedCondition, load_rules, compile_rule, compile_rules, compile_conditions,
  compile_attribute_matches,
}
use rca_operator.RuleEngine.Engine.{
  Engine, reload, evaluate, rule_matches, fire, conditions_met, first_match, entry_matches,
}
use rca_operator.RuleEngine.Attributes.{attributes_match, all_match}
use rca_operator.RuleEngine.Scope.{scope_matches, extract_base, trace_id_of, same_trace_id}
use rca_operator.RuleEngine.Engine.Priority.{evaluate_silent}
use rca_operator.RuleEngine.Engine.Conditions.{Met, conditions_met_iff}
use rca_operator.RuleEngine.Engine.Traces.{trace_id_of-extract, same_trace_id_iff}
use rca_operator.Webhook.{
  admitted, validate_rule, validate_conditions, validate_attribute_matches, one_of,
}
use rca_operator.Webhook.Compiles.{compile_rule-admitted}
use rca_operator.Examples.Data.{std_example, oom, span_error, calls, rule_example, not_healthy}

snapshot-run_example :
    (snapshot 9 (run (new_buffer 5) calls)).1 ≡ filter_by (fresh 5 9) (recorded calls)
snapshot-run_example =
    snapshot-run 5 9 calls (omega arith, (omega arith, (omega arith, omega arith)))

snapshot_by_trace-run_example :
    (snapshot_by_trace 9 "t1" (run (new_buffer 5) calls)).1
    ≡ filter_by (has_trace "t1") (filter_by (fresh 5 9) (recorded calls))
snapshot_by_trace-run_example =
    snapshot_by_trace-run 5 9 "t1" calls (omega arith, (omega arith, (omega arith, omega arith)))

abbrev buffer_example : Buffer
buffer_example = run (new_buffer 100) calls

abbrev engine_example : Engine std_example
engine_example = record { buf = buffer_example; rules = [] }

traced : extract_trace_id span_error ≢ ""
unfolding extract_trace_id
traced h = false≢true (path→eq "t1" "" h)

untyped : attributes oom ≡ none
unfolding attributes
untyped = refl

rule_is_admitted : validate_rule std_example rule_example ≡ admitted
unfolding validate_rule validate_conditions validate_attribute_matches is_known_event_type one_of
rule_is_admitted = refl

-- the engine once the rule is loaded
abbrev ready : Engine std_example
ready = reload std_example (some (rule_example ∷ [])) engine_example

abbrev loaded_rules : List (LoadedRule std_example)
loaded_rules = load_rules std_example (rule_example ∷ [])

rule_silent : (evaluate std_example 9 oom ready).1.fired ≡ false
unfolding evaluate reload load_rules sort insert compile_rules compile_rule compile_conditions
    compile_attribute_matches first_match rule_matches conditions_met entry_matches scope_matches
    attributes_match type_name snapshot purge_old stale_count fire new_buffer add run deliver
    index_entry entries_of extract_trace_id extract_base all_match
rule_silent = refl

evaluate_silent_example :
    All (λ q. rule_matches std_example oom (snapshot 9 buffer_example).1 q ≡ false) loaded_rules
evaluate_silent_example =
    evaluate_silent std_example 9 oom (rule_example ∷ []) engine_example rule_silent

abbrev oom_condition : LoadedCondition std_example
oom_condition = record {
  event_type = "OOMKilled";
  scope = "samePod";
  negate = false;
  attributes = [];
}

conditions_met_iff_example :
    (conditions_met std_example span_error (oom_condition ∷ not_healthy ∷ []) (recorded calls)
      ≡ true)
    ↔ All (Met std_example span_error (recorded calls)) (oom_condition ∷ not_healthy ∷ [])
conditions_met_iff_example =
    conditions_met_iff std_example span_error (oom_condition ∷ not_healthy ∷ []) (recorded calls)

trace_id_of-extract_example : trace_id_of span_error ≡ extract_trace_id span_error
trace_id_of-extract_example = trace_id_of-extract span_error traced

same_trace_id_iff_example :
    same_trace_id span_error span_error
    ≡ (extract_trace_id span_error == extract_trace_id span_error)
same_trace_id_iff_example = same_trace_id_iff span_error span_error traced traced

compile_rule-admitted_example :
    (r : LoadedRule std_example) × (compile_rule std_example rule_example ≡ some r)
    × (r.priority ≡ 100)
    × (r.trigger ≡ "OTelSpanError")
compile_rule-admitted_example = compile_rule-admitted std_example rule_example rule_is_admitted refl
