-- ===== src/Autodetect/Creator.antt =====
-- internal/autodetect/creator.go: the operations of the creator on the cluster. Log lines are left
-- out.
pub mod Tidy
pub mod Cleanup
pub mod Cap
use rca_operator.Base.{
  ℕ, ◌+◌, String, Bool, true, false, not, ◌&&◌, ◌||◌, Option, none, some, List, [], ◌∷◌, any_by,
  ltb, leb, length, if◌then◌else◌, ◌==◌,
}
use Prim.Native.String.{◌++◌}
use rca_operator.Base.Maps.{Map, lookup, put}
use rca_operator.Base.Decimal.{Parsed, bad, negative, natural, atoi, itoa}
use rca_operator.Reporter.Text.{rank}
use rca_operator.RuleEngine.Rule.{RuleCondition, CorrelationRule}
use rca_operator.RuleEngine.Scope.{value_or_empty}
use rca_operator.Signals.Mapping.{SignalMapping, default_mappings}
use rca_operator.Autodetect.Pattern.{
  EventPair, normalize_pair, pair_key, is_valid_scope_pair, rule_name,
}
use rca_operator.Autodetect.Accumulator.{Config, PatternRecord}
use rca_operator.Autodetect.Api.{RuleObject, RuleApi}
use rca_operator.Autodetect.Rule.{
  TimeFormat, new_rule, annotated, covered_in, pair_from_rule, is_stale, is_invalid,
  lacks_valid_pair, load_each,
}

-- a result with an error that is set or not, the record as it was left and the cluster
pub record Ensured (api : RuleApi) : Type 0 where
  pub failed : Bool
  pub pattern : PatternRecord
  pub world : api.World

module _ (api : RuleApi) (time : TimeFormat) (cfg : Config) where
  unfoldable pub created : String → PatternRecord → api.World → Option api.World → Ensured api
  created name r w none = record { failed = true; pattern = r; world = w }
  created name r w (some w') = record {
    failed = false;
    pattern = record r { rule_name = name };
    world = w';
  }

  unfoldable pub create_rule : ℕ → String → PatternRecord → api.World → Ensured api
  create_rule now name r w = created name r w (api.create (new_rule time cfg now name r) w)

  unfoldable pub updated : PatternRecord → api.World → Option api.World → Ensured api
  updated r w none = record { failed = true; pattern = r; world = w }
  updated r w (some w') = record { failed = false; pattern = r; world = w' }

  unfoldable pub update_annotations : ℕ → RuleObject → PatternRecord → api.World → Ensured api
  update_annotations now o r w = updated r w (api.update (annotated time now r o) w)

  unfoldable pub create_or_update :
      ℕ → String → PatternRecord → Option RuleObject → api.World → Ensured api
  create_or_update now name r none w = create_rule now name r w
  create_or_update now name r (some o) w = update_annotations now o r w

  unfoldable pub count_of : Option (List RuleObject) → Option ℕ
  count_of none = none
  count_of (some l) = some (length l)

  unfoldable pub count_auto_rules : api.World → Option ℕ
  count_auto_rules w = count_of (api.list_auto w)

  -- EnsureRule behind the count
  unfoldable pub ensure_counted : ℕ → PatternRecord → Option ℕ → api.World → Ensured api
  ensure_counted now r none w = record { failed = true; pattern = r; world = w }
  ensure_counted now r (some n) w =
      let name = rule_name r.pair in
      let unchanged : Ensured api = record { failed = false; pattern = r; world = w } in
      let written = create_or_update now name r (api.get name w) w in
      if leb cfg.max_auto_rules n && (r.rule_name == "")
      then unchanged
      else if covered_in r.pair (api.list_all w)
      then unchanged
      else written

  unfoldable pub ensure_rule : ℕ → PatternRecord → api.World → Ensured api
  ensure_rule now r w =
      let normalized = record r { pair = normalize_pair r.pair } in
      let unchanged : Ensured api = record { failed = false; pattern = normalized; world = w } in
      let ensured = ensure_counted now normalized (count_auto_rules w) w in
      if is_valid_scope_pair normalized.pair then ensured else unchanged

  -- a failed deletion is logged
  unfoldable pub or_same : api.World → Option api.World → api.World
  or_same w none = w
  or_same w (some w') = w'

  -- the loop of ExpireStaleRules
  unfoldable pub expire_each : ℕ → List RuleObject → api.World → api.World
  expire_each now [] w = w
  expire_each now (o ∷ os) w =
      let deleted = or_same w (api.delete o.rule.name w) in
      expire_each now os
        (if is_invalid (pair_from_rule o) || is_stale time cfg now o then deleted else w)

  unfoldable pub expire_listed : ℕ → Option (List RuleObject) → api.World → api.World
  expire_listed now none w = w
  expire_listed now (some l) w = expire_each now l w

  unfoldable pub expire_stale_rules : ℕ → api.World → api.World
  expire_stale_rules now w = expire_listed now (api.list_auto w) w

  -- the loop of CleanupInvalidRules
  unfoldable pub cleanup_each : List RuleObject → api.World → api.World
  cleanup_each [] w = w
  cleanup_each (o ∷ os) w =
      let deleted = or_same w (api.delete o.rule.name w) in
      cleanup_each os (if lacks_valid_pair (pair_from_rule o) then deleted else w)

  unfoldable pub cleanup_listed : Option (List RuleObject) → api.World → api.World
  cleanup_listed none w = w
  cleanup_listed (some l) w = cleanup_each l w

  unfoldable pub cleanup_invalid_rules : api.World → api.World
  cleanup_invalid_rules w = cleanup_listed (api.list_auto w) w

  unfoldable pub load_listed : Option (List RuleObject) → Option (Map PatternRecord)
  load_listed none = none
  load_listed (some l) = some (load_each time l [])

  unfoldable pub load_existing : api.World → Option (Map PatternRecord)
  load_existing w = load_listed (api.list_auto w)
