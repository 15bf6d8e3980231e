-- ===== src/RuleEngine/Engine/Traces.antt =====
-- The trace id that rules compare, against the one that the buffer indexes by.
use rca_operator.Base.{
  String, ◌≡◌, refl, ◌≢◌, ◌⊎◌, inl, inr, false, not, ◌&&◌, none, some, if◌then◌else◌, ◌==◌, eq_iff,
  ne→eq, arith,
}
use rca_operator.Base.Maps.{Map, lookup, put, lookup-put}
use rca_operator.Watcher.Event.Telemetry.{
  put_nonempty, promote_trace_ids, span_error_attributes, latency_spike_attributes,
  log_match_attributes, span_event_attributes,
}
use rca_operator.Watcher.Event.{
  Event, otel_span_error, otel_span_latency_spike, otel_log_match, otel_span_event, attributes,
}
use rca_operator.Correlator.Buffer.{extract_trace_id}
use rca_operator.RuleEngine.Scope.{trace_id_of, same_trace_id}

lookup-put_nonempty :
    (k j v : String) (m : Map String)
    → lookup j (put_nonempty k v m) ≡ (if (k == j) && not (v == "") then some v else lookup j m)
unfolding put_nonempty put
lookup-put_nonempty k j v m = ground (arith, lookup-put k j v m)

lookup-promote_trace_ids :
    (m : Map String) (t s p : String)
    → t ≢ ""
    → lookup "trace.id" (promote_trace_ids m t s p) ≡ some t
unfolding promote_trace_ids
lookup-promote_trace_ids m t s p h =
    rw (lookup-put_nonempty, lookup-put_nonempty, lookup-put_nonempty, ne→eq t "" h)

-- An OTel signal that carries a trace id is compared by that id, whatever its attributes say: the
-- rules and the buffer's index read the same one.
pub trace_id_of-extract : (e : Event) → extract_trace_id e ≢ "" → trace_id_of e ≡ extract_trace_id e
unfolding trace_id_of attributes extract_trace_id span_error_attributes latency_spike_attributes
    log_match_attributes span_event_attributes
trace_id_of-extract (otel_span_error e) h =
    rw (lookup-promote_trace_ids _ e.trace_id e.span_id e.parent_span_id h, ne→eq e.trace_id "" h)
trace_id_of-extract (otel_span_latency_spike e) h =
    rw (lookup-promote_trace_ids _ e.trace_id e.span_id e.parent_span_id h, ne→eq e.trace_id "" h)
trace_id_of-extract (otel_log_match e) h =
    rw (lookup-promote_trace_ids _ e.trace_id e.span_id "" h, ne→eq e.trace_id "" h)
trace_id_of-extract (otel_span_event e) h =
    rw (lookup-promote_trace_ids _ e.trace_id e.span_id "" h, ne→eq e.trace_id "" h)
trace_id_of-extract e h = absurd (h refl)

same_trace_id-none_left : (a b : Event) → attributes a ≡ none → same_trace_id a b ≡ false
unfolding same_trace_id trace_id_of
same_trace_id-none_left a b h = rw h

same_trace_id-none_right : (a b : Event) → attributes b ≡ none → same_trace_id a b ≡ false
unfolding same_trace_id trace_id_of
same_trace_id-none_right a b h = rw h (ground (arith, eq_iff (trace_id_of a) ""))

-- The scope sameTrace never relates an event without attributes, from either side: it does not
-- cross from OTel signals to Kubernetes ones.
pub same_trace_id-boundary :
    (a b : Event) → (attributes a ≡ none) ⊎ (attributes b ≡ none) → same_trace_id a b ≡ false
same_trace_id-boundary a b (inl h) = same_trace_id-none_left a b h
same_trace_id-boundary a b (inr h) = same_trace_id-none_right a b h

-- Two OTel signals with trace ids are related by sameTrace exactly when the ids are equal.
pub same_trace_id_iff :
    (a b : Event)
    → extract_trace_id a ≢ ""
    → extract_trace_id b ≢ ""
    → same_trace_id a b ≡ (extract_trace_id a == extract_trace_id b)
unfolding same_trace_id
same_trace_id_iff a b h k =
    rw (trace_id_of-extract a h, trace_id_of-extract b k, ne→eq (extract_trace_id a) "" h)
