-- ===== src/Autodetect/Accumulator.antt =====
-- internal/autodetect/accumulator.go and config.go: the history of the patterns. A time is a number
-- of nanoseconds, 0 the zero time; the settings and the counts are not negative.
use rca_operator.Base.{
  ℕ, ◌+◌, String, Bool, true, false, Option, none, some, List, [], ◌∷◌, any_by, ltb, length,
  if◌then◌else◌, ◌==◌,
}
use rca_operator.Base.Maps.{Map, lookup, put}
use rca_operator.Autodetect.Pattern.{EventPair, normalize_pair, pair_key}

pub record Config : Type 0 where
  pub min_occurrences : ℕ
  pub min_time_span : ℕ
  pub max_auto_rules : ℕ
  pub expiry_duration : ℕ
  pub auto_rule_priority : ℕ

pub record PatternRecord : Type 0 where
  pub pair : EventPair
  pub first_seen : ℕ
  pub last_seen : ℕ
  pub occurrences : ℕ
  pub rule_name : String

-- the record of a key, or the one that Record makes for it
abbrev or_new : ℕ → EventPair → Option PatternRecord → PatternRecord
or_new now pair none = record {
  pair = pair;
  first_seen = now;
  last_seen = now;
  occurrences = 0;
  rule_name = "";
}
or_new now pair (some r) = r

abbrev observed : ℕ → PatternRecord → PatternRecord
observed now r = record r { last_seen = now; occurrences = r.occurrences + 1 }

-- the loop of Record, with the set seenThisTick
unfoldable pub record_from :
    ℕ → List String → List EventPair → Map PatternRecord → Map PatternRecord
record_from now seen [] patterns = patterns
record_from now seen (pair ∷ pairs) patterns =
    let key = pair_key pair in
    let again = any_by (λ k. k == key) seen in
    let next = put key (observed now (or_new now pair (lookup key patterns))) patterns in
    record_from now (if again then seen else key ∷ seen) pairs (if again then patterns else next)

unfoldable pub record_pairs : ℕ → List EventPair → Map PatternRecord → Map PatternRecord
record_pairs now pairs patterns = record_from now [] pairs patterns

-- `rec.LastSeen.Sub(rec.FirstSeen) < cfg.MinTimeSpan` without a subtraction
unfoldable pub is_ready : Config → PatternRecord → Bool
is_ready cfg r =
    if ltb r.occurrences cfg.min_occurrences
    then false
    else if ltb r.last_seen (r.first_seen + cfg.min_time_span)
    then false
    else true

-- The records are shared with the accumulator, so each comes with its key.
unfoldable pub ready_patterns : Config → Map PatternRecord → Map PatternRecord
ready_patterns cfg [] = []
ready_patterns cfg ((k, r) ∷ patterns) =
    let rest = ready_patterns cfg patterns in if is_ready cfg r then (k, r) ∷ rest else rest

abbrev put_absent :
    String → PatternRecord → Option PatternRecord → Map PatternRecord → Map PatternRecord
put_absent key r none patterns = put key r patterns
put_absent key r (some old) patterns = patterns

unfoldable pub seed : PatternRecord → Map PatternRecord → Map PatternRecord
seed r patterns =
    let seeded = record r { pair = normalize_pair r.pair } in
    let key = pair_key seeded.pair in put_absent key seeded (lookup key patterns) patterns

unfoldable pub count : Map PatternRecord → ℕ
count patterns = length patterns
