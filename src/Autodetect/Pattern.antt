-- ===== src/Autodetect/Pattern.antt =====
-- internal/autodetect/pattern.go. A Go map is iterated in the order of insertion here: no theorem
-- rests on that order.
pub mod Groups
pub mod Pairs
pub mod Mining
use Prim.Native.Char.{code}
use Prim.Native.String.{◌++◌}
use mathlib.Core.List.{◌++◌ as ◌append◌}
use rca_operator.Base.{
  ℕ, String, Bool, true, false, not, ◌&&◌, ◌||◌, Option, none, some, List, [], ◌∷◌, any_by,
  filter_by, ltb, nat_eq, length, if◌then◌else◌, ◌==◌,
}
use rca_operator.Base.Maps.{Map, lookup, put}
use rca_operator.Base.Sort.{sort}
use rca_operator.Base.Texts.{str_lt, to_lower, trim_right}
use rca_operator.Correlator.Buffer.{Entry}
use rca_operator.Reporter.Text.{size, take_chars, replace_others, is_name_cut}
use rca_operator.RuleEngine.Scope.{extract_base}
use rca_operator.Watcher.Event.Cluster.{BaseEvent}
use rca_operator.Watcher.Event.{type_name}

pub record EventPair : Type 0 where
  pub trigger_type : String
  pub condition_type : String
  pub scope : String

unfoldable pub normalize_pair : EventPair → EventPair
normalize_pair pair =
    if str_lt pair.condition_type pair.trigger_type
    then record pair { trigger_type = pair.condition_type; condition_type = pair.trigger_type }
    else pair

unfoldable pub pair_key : EventPair → String
pair_key p = p.trigger_type ++ ":" ++ p.condition_type ++ ":" ++ p.scope

-- the extracted entries; the index is read by nobody
pub record BaseEntry : Type 0 where
  pub base : BaseEvent
  pub event_type : String

unfoldable pub is_node_event_type : String → Bool
is_node_event_type et = (et == "NodeNotReady") || ((et == "NodePressure") || (et == "PodEvicted"))

unfoldable pub is_workload_event_type : String → Bool
is_workload_event_type et =
    (et == "StalledRollout")
    || ((et == "StalledStatefulSet")
        || ((et == "StalledDaemonSet") || ((et == "JobFailed") || (et == "CronJobFailed"))))

unfoldable pub is_pod_event_type : String → Bool
is_pod_event_type et = not (is_node_event_type et) && not (is_workload_event_type et)

unfoldable pub is_valid_scope_pair : EventPair → Bool
is_valid_scope_pair pair =
    if pair.scope == "samePod"
    then is_pod_event_type pair.trigger_type && is_pod_event_type pair.condition_type
    else if pair.scope == "sameNode"
    then is_node_event_type pair.trigger_type && is_node_event_type pair.condition_type
    else if pair.scope == "sameNamespace"
    then is_workload_event_type pair.trigger_type && is_workload_event_type pair.condition_type
    else false

-- the first loop of MinePatterns, without the lifecycle signals
unfoldable pub extract_entries : List Entry → List BaseEntry
extract_entries [] = []
extract_entries (entry ∷ entries) =
    let rest = extract_entries entries in
    let et = type_name entry.event in
    if (et == "PodHealthy") || (et == "PodDeleted")
    then rest
    else record { base = extract_base entry.event; event_type = et } ∷ rest

abbrev group_or_empty : Option (List BaseEntry) → List BaseEntry
group_or_empty none = []
group_or_empty (some group) = group

-- the three loops that group the entries: which entries are taken, and their keys
unfoldable pub group_entries :
    (BaseEntry → Bool)
    → (BaseEntry → String)
    → List BaseEntry
    → Map (List BaseEntry)
    → Map (List BaseEntry)
group_entries takes key [] groups = groups
group_entries takes key (e ∷ es) groups =
    let added = put (key e) (group_or_empty (lookup (key e) groups) append e ∷ []) groups in
    group_entries takes key es (if takes e then added else groups)

-- typeSet[t] = true
abbrev pub add_type : String → List String → List String
add_type t types = if any_by (λ u. u == t) types then types else t ∷ types

-- the set of the types of a group
unfoldable pub type_set : List BaseEntry → List String
type_set [] = []
type_set (e ∷ es) = add_type e.event_type (type_set es)

-- the map `seen` and the result
pub record Mined : Type 0 where
  pub seen : List String
  pub pairs : List EventPair

unfoldable pub emit_pair : String → String → String → Mined → Mined
emit_pair scope trigger condition m =
    let pair : EventPair = record {
      trigger_type = trigger;
      condition_type = condition;
      scope = scope;
    } in
    if any_by (λ k. k == pair_key pair) m.seen
    then m
    else record { seen = pair_key pair ∷ m.seen; pairs = m.pairs append pair ∷ [] }

-- the inner loop, over the types behind the trigger
unfoldable pub emit_row : String → String → List String → Mined → Mined
emit_row scope trigger [] m = m
emit_row scope trigger (t ∷ ts) m = emit_row scope trigger ts (emit_pair scope trigger t m)

unfoldable pub emit_types : String → List String → Mined → Mined
emit_types scope [] m = m
emit_types scope (t ∷ ts) m = emit_types scope ts (emit_row scope t ts m)

unfoldable pub emit_pairs : String → Map (List BaseEntry) → Mined → Mined
emit_pairs scope [] m = m
emit_pairs scope ((k, group) ∷ groups) m =
    let types = type_set group in
    let emitted = emit_types scope (sort str_lt types) m in
    emit_pairs scope groups (if ltb (length types) 2 then m else emitted)

abbrev pub in_pod : BaseEntry → Bool
in_pod e =
    is_pod_event_type e.event_type && (not (e.base.namespace == "") && not (e.base.pod_name == ""))

abbrev pub on_node : BaseEntry → Bool
on_node e = is_node_event_type e.event_type && not (e.base.node_name == "")

abbrev pub in_workload : BaseEntry → Bool
in_workload e = is_workload_event_type e.event_type && not (e.base.namespace == "")

abbrev pub pod_key : BaseEntry → String
pod_key e = e.base.namespace ++ ":" ++ e.base.pod_name

unfoldable pub mine_patterns : List Entry → List EventPair
mine_patterns entries =
    let filtered = extract_entries entries in
    let pods = group_entries in_pod pod_key filtered [] in
    let nodes = group_entries on_node (λ e. e.base.node_name) filtered [] in
    let namespaces = group_entries in_workload (λ e. e.base.namespace) filtered [] in
    (emit_pairs "sameNamespace" namespaces (
      emit_pairs "sameNode" nodes
        (emit_pairs "samePod" pods (record { seen = []; pairs = [] })))).pairs

-- strings.ReplaceAll(name, "_", "-")
unfoldable pub replace_underscores : String → String
unfolding replace_others
replace_underscores name = replace_others (λ c. not (nat_eq (code c) b'_')) name

unfoldable pub rule_name : EventPair → String
rule_name pair =
    let name =
      "auto-"
      ++ to_lower pair.trigger_type
      ++ "-"
      ++ to_lower pair.condition_type
      ++ "-"
      ++ to_lower pair.scope in
    let dashed = replace_underscores name in
    trim_right is_name_cut (if ltb 63 (size dashed) then take_chars 63 dashed else dashed)
