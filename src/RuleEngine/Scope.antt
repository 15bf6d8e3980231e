-- ===== src/RuleEngine/Scope.antt =====
-- ExtractBase, scopeMatches and the trace ids of internal/rulengine/crd_engine.go.
use rca_operator.Base.{String, Bool, true, not, ◌&&◌, Option, none, some, if◌then◌else◌, ◌==◌}
use rca_operator.Base.Maps.{Map, lookup}
use rca_operator.Watcher.Event.Cluster.{BaseEvent}
use rca_operator.Watcher.Event.{Event, pod_healthy, pod_deleted, base_of, attributes}

-- watcher.BaseEvent{}
abbrev pub zero_base : BaseEvent
zero_base = record {
  at = 0;
  agent_name = "";
  namespace = "";
  pod_name = "";
  pod_uid = "";
  node_name = "";
}

-- the type switch has no case for the two lifecycle events
unfoldable pub extract_base : Event → BaseEvent
extract_base (pod_healthy e) = zero_base
extract_base (pod_deleted e) = zero_base
extract_base e = base_of e

-- attrs[k], which is "" for a missing key and in a nil map
abbrev pub value_or_empty : Option String → String
value_or_empty none = ""
value_or_empty (some v) = v

abbrev nonempty_or : Option String → String → String
nonempty_or none fallback = fallback
nonempty_or (some id) fallback = if id == "" then fallback else id

-- traceIDOf on the map of attributes
abbrev trace_id_in : Option (Map String) → String
trace_id_in none = ""
trace_id_in (some attrs) =
    nonempty_or (lookup "trace.id" attrs) (value_or_empty (lookup "trace_id" attrs))

unfoldable pub trace_id_of : Event → String
trace_id_of ev = trace_id_in (attributes ev)

unfoldable pub same_trace_id : Event → Event → Bool
same_trace_id a b = not (trace_id_of a == "") && (trace_id_of a == trace_id_of b)

unfoldable pub scope_matches : Event → Event → String → Bool
scope_matches trigger candidate scope =
    let t = extract_base trigger in
    let c = extract_base candidate in
    if scope == "samePod"
    then (t.namespace == c.namespace) && ((t.pod_name == c.pod_name) && not (t.pod_name == ""))
    else if scope == "sameNode"
    then (t.node_name == c.node_name) && not (t.node_name == "")
    else if scope == "sameNamespace"
    then (t.namespace == c.namespace) && not (t.namespace == "")
    else if scope == "sameTrace"
    then same_trace_id trigger candidate
    else if scope == "any"
    then true
    else (t.namespace == c.namespace) && (t.pod_name == c.pod_name)
