-- ===== src/Autodetect/Detector/Tidy.antt =====
-- The generated rules in every state of the detector of internal/autodetect/detector.go.
use rca_operator.Base.{ℕ, String, ◌≡◌, false, none, some, List, [], ◌∷◌, All, inl, inr, Bool-cases}
use rca_operator.Base.Maps.{Map}
use rca_operator.Correlator.Buffer.{Entry}
use rca_operator.Autodetect.Accumulator.{Config, PatternRecord, ready_patterns, record_pairs}
use rca_operator.Autodetect.Pattern.{mine_patterns}
use rca_operator.Autodetect.Api.{RuleObject, RuleApi, RuleApiLaws, with_name}
use rca_operator.Autodetect.Rule.{TimeFormat}
use rca_operator.Autodetect.Creator.Tidy.{IsTidy, ensure_rule-IsTidy, expire_stale_rules-IsTidy}
use rca_operator.Autodetect.Creator.Cleanup.{cleanup_invalid_rules-IsTidy}
use rca_operator.Autodetect.Detector.{
  Detector, seed_from_existing, seed_once, ensure_each, analyse, tick, run_ticks, start, run,
}

module _ (api : RuleApi) (laws : RuleApiLaws api) (time : TimeFormat) (cfg : Config) where
  ensure_each-IsTidy :
      (now : ℕ) (ready : Map PatternRecord) (d : Detector api)
      → IsTidy api laws time cfg d.world
      → IsTidy api laws time cfg (ensure_each api time cfg now ready d).world
  unfolding ensure_each
  ensure_each-IsTidy now [] d i = i
  ensure_each-IsTidy now ((k, r) ∷ ready) d i =
      ensure_each-IsTidy now ready _ (ensure_rule-IsTidy api laws time cfg now r d.world i)

  analyse-IsTidy :
      (now : ℕ) (entries : List Entry) (d : Detector api)
      → IsTidy api laws time cfg d.world
      → IsTidy api laws time cfg (analyse api time cfg now entries d).world
  unfolding analyse
  analyse-IsTidy now [] d i = i
  analyse-IsTidy now (e ∷ es) d i = expire_stale_rules-IsTidy api laws time cfg now _ (
      ensure_each-IsTidy now
        (ready_patterns cfg (record_pairs now (mine_patterns (e ∷ es)) d.patterns)) _ i)

  seed_once-IsTidy :
      (d : Detector api)
      → IsTidy api laws time cfg d.world
      → IsTidy api laws time cfg (seed_once api time cfg d).world
  unfolding seed_once seed_from_existing
  seed_once-IsTidy d i = elim (Bool-cases d.seeded) [ inl e ↦ rw e i | inr e ↦ rw e i ]

  tick-IsTidy :
      (now : ℕ) (entries : List Entry) (d : Detector api)
      → IsTidy api laws time cfg d.world
      → IsTidy api laws time cfg (tick api time cfg now entries d).world
  unfolding tick
  tick-IsTidy now entries d i = analyse-IsTidy now entries _ (seed_once-IsTidy d i)

  run_ticks-IsTidy :
      (ticks : List (ℕ × List Entry)) (d : Detector api)
      → IsTidy api laws time cfg d.world
      → IsTidy api laws time cfg (run_ticks api time cfg ticks d).world
  unfolding run_ticks
  run_ticks-IsTidy [] d i = i
  run_ticks-IsTidy ((now, entries) ∷ ticks) d i =
      run_ticks-IsTidy ticks _ (tick-IsTidy now entries d i)

  -- In every state of the detector, each generated rule of the cluster has a first condition whose
  -- type and scope fit its trigger: from any cluster whose generated rules can be listed at the
  -- start, where a deletion fails only for a name that no rule has, and whatever else fails later.
  pub run-IsTidy :
      ((name : String) (w : api.World)
        → api.delete name w ≡ none
        → All (λ o. with_name name o ≡ false) (laws.rules w))
      → (l : List RuleObject) (ticks : List (ℕ × List Entry)) (w : api.World)
      → api.list_auto w ≡ some l
      → IsTidy api laws time cfg (run api time cfg ticks w).world
  unfolding run start
  run-IsTidy fails_only_absent l ticks w e =
      run_ticks-IsTidy ticks _
        (cleanup_invalid_rules-IsTidy api laws time cfg fails_only_absent l w e)
