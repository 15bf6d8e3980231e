-- ===== src/Autodetect/Detector.antt =====
-- internal/autodetect/detector.go: the tick of the detector and its start. The clock is read once in
-- a tick.
pub mod Tidy
use rca_operator.Base.{
  ℕ, String, Bool, true, false, Option, none, some, List, [], ◌∷◌, if◌then◌else◌,
}
use rca_operator.Base.Maps.{Map, put}
use rca_operator.Correlator.Buffer.{Entry}
use rca_operator.Autodetect.Pattern.{mine_patterns}
use rca_operator.Autodetect.Accumulator.{Config, PatternRecord, record_pairs, ready_patterns, seed}
use rca_operator.Autodetect.Api.{RuleApi}
use rca_operator.Autodetect.Rule.{TimeFormat}
use rca_operator.Autodetect.Creator.{
  ensure_rule, expire_stale_rules, cleanup_invalid_rules, load_existing,
}

-- the fields accumulator and seeded, with the cluster
pub record Detector (api : RuleApi) : Type 0 where
  pub patterns : Map PatternRecord
  pub seeded : Bool
  pub world : api.World

unfoldable pub seed_each : Map PatternRecord → Map PatternRecord → Map PatternRecord
seed_each [] patterns = patterns
seed_each ((k, r) ∷ records) patterns = seed_each records (seed r patterns)

unfoldable pub seed_loaded : Option (Map PatternRecord) → Map PatternRecord → Map PatternRecord
seed_loaded none patterns = patterns
seed_loaded (some records) patterns = seed_each records patterns

module _ (api : RuleApi) (time : TimeFormat) (cfg : Config) where
  unfoldable pub seed_from_existing : Detector api → Detector api
  seed_from_existing d = record d {
    patterns = seed_loaded (load_existing api time cfg d.world) d.patterns;
  }

  -- the first step of tick; an error of the load is only logged
  unfoldable pub seed_once : Detector api → Detector api
  seed_once d =
      let seeded = record (seed_from_existing d) { seeded = true } in if d.seeded then d else seeded

  -- the loop over the ready patterns, whose records are those of the accumulator; an error is only
  -- logged
  unfoldable pub ensure_each : ℕ → Map PatternRecord → Detector api → Detector api
  ensure_each now [] d = d
  ensure_each now ((k, r) ∷ ready) d =
      let ensured = ensure_rule api time cfg now r d.world in
      ensure_each now ready
        (record d { patterns = put k ensured.pattern d.patterns; world = ensured.world })

  -- tick behind the snapshot
  unfoldable pub analyse : ℕ → List Entry → Detector api → Detector api
  analyse now [] d = d
  analyse now (e ∷ es) d =
      let patterns = record_pairs now (mine_patterns (e ∷ es)) d.patterns in
      let ensured =
        ensure_each now (ready_patterns cfg patterns) (record d { patterns = patterns }) in
      record ensured { world = expire_stale_rules api time cfg now ensured.world }

  unfoldable pub tick : ℕ → List Entry → Detector api → Detector api
  tick now entries d = analyse now entries (seed_once d)

  -- the loop of Run: the times of the ticks and the snapshots
  unfoldable pub run_ticks : List (ℕ × List Entry) → Detector api → Detector api
  run_ticks [] d = d
  run_ticks ((now, entries) ∷ ticks) d = run_ticks ticks (tick now entries d)

  -- the start of Run
  unfoldable pub start : api.World → Detector api
  start w = record { patterns = []; seeded = false; world = cleanup_invalid_rules api time cfg w }

  unfoldable pub run : List (ℕ × List Entry) → api.World → Detector api
  run ticks w = run_ticks ticks (start w)
