-- ===== src/Examples/Detection.antt =====
-- The detector of rules at a concrete snapshot, with a cluster that has room for one rule.
use mathlib.Core.List.{Memᴰ}
use mathlib.Core.Option.{some-injective, none-ne-some}
use rca_operator.Base.{
  String, ◌≡◌, refl, sym, ap, subst, ◌∙◌, inl, inr, false, not, Option, none, some, List, [], ◌∷◌,
  ◌++◌, map, All, filter_by, arith, Bool-cases, if◌then◌else◌,
}
use rca_operator.Base.Decimal.{itoa, atoi}
use rca_operator.Base.Maps.{put, lookup}
use rca_operator.Base.Sort.{sort, insert}
use rca_operator.Base.Texts.{str_lt, to_lower, trim_right}
use rca_operator.Reporter.Text.{take_chars, replace_others}
use rca_operator.RuleEngine.Scope.{extract_base}
use rca_operator.Correlator.Buffer.{Entry}
use rca_operator.Watcher.Event.{Event, crash_loop_back_off, type_name}
use rca_operator.Examples.Data.{base_example, oom, std_example, platform_example}
use rca_operator.Webhook.{validate_rule, admitted}
use rca_operator.Autodetect.Pattern.{
  EventPair, mine_patterns, emit_pairs, group_entries, extract_entries, is_workload_event_type,
  is_node_event_type, is_pod_event_type, type_set, emit_types, emit_row, emit_pair,
  is_valid_scope_pair, normalize_pair, rule_name, replace_underscores, pair_key,
}
use rca_operator.Base.Join.{lacks}
use rca_operator.Base.{true}
use rca_operator.Base.Members.{All-Memᴰ}
use rca_operator.Autodetect.Pattern.Mining.{IsMined, mine_patterns-IsMined}
use rca_operator.Autodetect.Accumulator.{
  Config, PatternRecord, record_pairs, record_from, is_ready, ready_patterns,
}
use rca_operator.Autodetect.Api.{RuleObject, RuleApi, RuleApiLaws, is_auto, with_name, replaced_by}
use rca_operator.Autodetect.Rule.{
  TimeFormat, new_rule, covered_in, covers_pair, pair_of, pair_from_rule, is_stale, is_invalid,
  last_seen_of, load_each,
}
use rca_operator.Autodetect.Rule.Admitted.{new_rule-admitted}
use rca_operator.Autodetect.Creator.{
  ensure_rule, created, create_rule, create_or_update, count_of, count_auto_rules, ensure_counted,
  or_same, expire_each, expire_listed, expire_stale_rules, cleanup_each, cleanup_listed,
  cleanup_invalid_rules, load_existing, load_listed,
}
use rca_operator.Autodetect.Creator.Tidy.{IsTidy}
use rca_operator.Autodetect.Creator.Cap.{IsCapped, ensure_rule-IsCapped}
use rca_operator.Autodetect.Detector.{
  run, run_ticks, tick, analyse, ensure_each, seed_once, seed_from_existing, seed_loaded, seed_each,
  start,
}
use rca_operator.Autodetect.Detector.Tidy.{run-IsTidy}

abbrev Slot : Type 0
Slot = Option RuleObject

abbrev held : Slot → List RuleObject
held none = []
held (some o) = o ∷ []

abbrev slot_get : String → Slot → Option RuleObject
slot_get name none = none
slot_get name (some o) = if with_name name o then some o else none

abbrev slot_create : RuleObject → Slot → Option Slot
slot_create o none = some (some o)
slot_create o (some p) = none

abbrev slot_update : RuleObject → Slot → Option Slot
slot_update o none = some none
slot_update o (some p) = some (some (replaced_by o p))

abbrev slot_delete : String → Slot → Option Slot
slot_delete name none = none
slot_delete name (some o) = if with_name name o then some none else none

abbrev slot_api : RuleApi
slot_api = record {
  World = Slot;
  list_auto = λ w. some (filter_by is_auto (held w));
  list_all = λ w. some (held w);
  get = slot_get;
  create = slot_create;
  update = slot_update;
  delete = slot_delete;
}

one_held : (w : Slot) (o p : RuleObject) → Memᴰ o (held w) → Memᴰ p (held w) → p ≡ o
one_held none o p m n = elim m [ ]
one_held (some x) o p (Memᴰ.head e) (Memᴰ.head f) = f ∙ sym e
one_held (some x) o p (Memᴰ.head e) (Memᴰ.tail n) = elim n [ ]
one_held (some x) o p (Memᴰ.tail m) n = elim m [ ]

get_held : (name : String) (w : Slot) (o : RuleObject) → slot_get name w ≡ some o → Memᴰ o (held w)
get_held name none o h = cc
get_held name (some x) o h = elim (Bool-cases (with_name name x)) [
  | inl e ↦ let f : o ≡ x = ground (arith, h, e) in Memᴰ.head f
  | inr e ↦ absurd (none-ne-some o (subst (λ b. (if b then some x else none) ≡ some o) e h))
]

create_held :
    (o : RuleObject) (w w' : Slot) → slot_create o w ≡ some w' → held w' ≡ held w ++ o ∷ []
create_held o none w' h = ap held (sym (some-injective (some o) w' h))
create_held o (some p) w' h = cc

update_held :
    (o : RuleObject) (w w' : Slot)
    → slot_update o w ≡ some w'
    → held w' ≡ map (replaced_by o) (held w)
update_held o none w' h = ap held (sym (some-injective none w' h))
update_held o (some p) w' h = ap held (sym (some-injective (some (replaced_by o p)) w' h))

delete_held :
    (name : String) (w w' : Slot)
    → slot_delete name w ≡ some w'
    → held w' ≡ filter_by (λ o. not (with_name name o)) (held w)
delete_held name none w' h = cc
delete_held name (some x) w' h = elim (Bool-cases (with_name name x)) [
  | inl e ↦ rw e (
      ap held
        (sym (some-injective none w' (subst (λ b. (if b then some none else none) ≡ some w') e h))))
  | inr e ↦ absurd (none-ne-some w' (subst (λ b. (if b then some none else none) ≡ some w') e h))
]

abbrev slot_laws : RuleApiLaws slot_api
slot_laws = record {
  rules = held;
  names_differ = λ w o p m n h. one_held w o p m n;
  list_auto_law = λ w l h. sym (some-injective _ _ h);
  get_law = λ name w o h. get_held name w o h;
  create_law = λ o w w' h. create_held o w w' h;
  update_law = λ o w w' h. update_held o w w' h;
  delete_law = λ name w w' h. delete_held name w w' h;
}

abbrev crash_loop : Event
crash_loop = crash_loop_back_off (record {
  base = base_example;
  container_name = "cart";
  restart_count = 5;
  threshold = 3;
  last_exit_code = 137;
  exit_code_category = "OOM";
  exit_code_description = "out of memory";
})

abbrev snapshot : List Entry
snapshot = record { event = oom; added_at = 10 } ∷ record { event = crash_loop; added_at = 11 } ∷ []

abbrev crash_with_oom : EventPair
crash_with_oom = record {
  trigger_type = "CrashLoopBackOff";
  condition_type = "OOMKilled";
  scope = "samePod";
}

abbrev crash_record : PatternRecord
crash_record = record {
  pair = crash_with_oom;
  first_seen = 12;
  last_seen = 12;
  occurrences = 1;
  rule_name = "";
}

abbrev config : Config
config = record {
  min_occurrences = 1;
  min_time_span = 0;
  max_auto_rules = 1;
  expiry_duration = 100;
  auto_rule_priority = 30;
}

abbrev time : TimeFormat
time = record { format = itoa; parse = platform_example.parse_rfc3339 }

mined_pairs : mine_patterns snapshot ≡ crash_with_oom ∷ []
unfolding mine_patterns emit_pairs group_entries extract_entries is_workload_event_type
    is_node_event_type is_pod_event_type type_set emit_types emit_row emit_pair type_name
    extract_base put lookup sort insert str_lt
mined_pairs = refl

no_colon : (x : Entry) → Memᴰ x snapshot → lacks ":" (extract_base x.event).namespace ≡ true
unfolding extract_base
no_colon x m =
    All-Memᴰ (λ y. lacks ":" (extract_base y.event).namespace ≡ true) snapshot x (refl, (refl, tt))
      m

mine_patterns-IsMined_example : All (IsMined snapshot) (mine_patterns snapshot)
mine_patterns-IsMined_example = mine_patterns-IsMined snapshot no_colon

crash_mined : Memᴰ crash_with_oom (mine_patterns snapshot)
crash_mined = subst (Memᴰ crash_with_oom) (sym mined_pairs) (Memᴰ.head refl)

new_rule-admitted_example :
    validate_rule std_example (new_rule time config 12 "auto" crash_record).rule ≡ admitted
new_rule-admitted_example =
    new_rule-admitted std_example time config snapshot 12 "auto" crash_record crash_mined
      (omega arith)

ensure_rule-IsCapped_example :
    IsCapped slot_api slot_laws time config none
      (ensure_rule slot_api time config 12 crash_record none).world
ensure_rule-IsCapped_example =
    ensure_rule-IsCapped slot_api slot_laws time config 12 crash_record none refl

fails_only_absent :
    (name : String) (w : Slot)
    → slot_delete name w ≡ none
    → All (λ o. with_name name o ≡ false) (held w)
fails_only_absent name none h = tt
fails_only_absent name (some x) h = elim (Bool-cases (with_name name x)) [
  | inl e ↦ absurd (
      none-ne-some none
        (sym (subst (λ b. if◌then◌else◌ {A = Option Slot} b (some none) none ≡ none) e h)))
  | inr e ↦ (e, tt)
]

run-IsTidy_example :
    IsTidy slot_api slot_laws time config
      (run slot_api time config ((12, snapshot) ∷ (500, snapshot) ∷ []) none).world
run-IsTidy_example =
    run-IsTidy slot_api slot_laws time config fails_only_absent []
      ((12, snapshot) ∷ (500, snapshot) ∷ []) none refl

-- the first tick creates the rule of the pair
rule_created :
    (run slot_api time config ((12, snapshot) ∷ []) none).world
    ≡ some (new_rule time config 12 "auto-crashloopbackoff-oomkilled-samepod" crash_record)
unfolding run mine_patterns ensure_rule new_rule load_each emit_pairs group_entries extract_entries
    is_workload_event_type is_node_event_type is_pod_event_type type_set emit_types emit_row
    emit_pair is_valid_scope_pair normalize_pair rule_name replace_underscores pair_key record_pairs
    record_from is_ready ready_patterns covered_in covers_pair pair_of pair_from_rule is_stale
    is_invalid last_seen_of created create_rule create_or_update count_of count_auto_rules
    ensure_counted or_same expire_each expire_listed expire_stale_rules cleanup_each cleanup_listed
    cleanup_invalid_rules load_existing load_listed run_ticks tick analyse ensure_each seed_once
    seed_from_existing seed_loaded seed_each start type_name extract_base put lookup sort insert
    str_lt to_lower trim_right take_chars replace_others itoa atoi
rule_created = refl
