-- ===== src/Examples/Registry.antt =====
-- Two rules of the correlator at concrete inputs.
use rca_operator.Base.{String, ◌≡◌, refl, false, List, [], ◌∷◌, All, ◌==◌}
use rca_operator.Base.Sort.{sort, insert}
use rca_operator.Correlator.Buffer.{Entry, snapshot, purge_old, stale_count, entries_of, new_buffer}
use rca_operator.Correlator.Engine.{
  CorrelationResult, no_result, Rule, registered_rule, rule_order, Correlator, new_correlator,
  registered_rules, with_rules, first_fired, evaluate,
}
use rca_operator.Correlator.Engine.Priority.{fires, evaluate_quiet}
use rca_operator.Correlator.Order.{rule_less}
use rca_operator.Examples.Data.{span_error}
use rca_operator.Watcher.Event.{Event, type_name}

-- a rule that fires on one type of signal
abbrev on_type : String → Event → List Entry → CorrelationResult
on_type type event entries = record no_result { fired = type_name event == type }

abbrev rules : List Rule
rules =
    registered_rule "low" 1 (on_type "OOMKilled")
    ∷ registered_rule "high" 9 (on_type "OOMKilled")
    ∷ []

abbrev correlator : Correlator
correlator = new_correlator 100 []

none_fires : (evaluate 9 span_error (with_rules rules correlator)).1.fired ≡ false
unfolding evaluate with_rules first_fired new_correlator registered_rules registered_rule sort
    insert snapshot purge_old stale_count entries_of new_buffer type_name rule_less
none_fires = refl

evaluate_quiet_example :
    All (λ q. fires span_error (snapshot 9 correlator.buf).1 q ≡ false) (sort rule_order rules)
evaluate_quiet_example = evaluate_quiet 9 span_error rules correlator none_fires
