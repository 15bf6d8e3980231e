-- ===== src/Correlator/Buffer.antt =====
-- Buffer of internal/correlator/correlator.go. The clock `nowFn` is an argument of each operation,
-- and the mutex makes each operation one step. `AddedAt.Before(now.Add(-window))` is the test
-- `added_at + window < now`, which needs no subtraction.
pub mod Trace
pub mod Window
pub mod History
use rca_operator.Base.{
  ℕ, suc, ◌+◌, String, Bool, true, false, not, ◌&&◌, Option, none, some, List, [], ◌∷◌, ◌++◌,
  length, drop, ltb, nat_eq, if◌then◌else◌, ◌==◌,
}
use rca_operator.Base.Maps.{Map, lookup, put}
use rca_operator.Watcher.Event.{
  Event, otel_span_error, otel_span_latency_spike, otel_log_match, otel_span_event,
}

pub record Entry : Type 0 where
  pub event : Event
  pub added_at : ℕ

-- A subscriber's channel: its capacity and what waits in it.
pub record Subscriber : Type 0 where
  pub id : ℕ
  pub capacity : ℕ
  pub waiting : List Entry

pub record Buffer : Type 0 where
  pub entries : List Entry
  pub by_trace : Map (List Entry)
  pub window : ℕ
  pub subs : List Subscriber

unfoldable pub new_buffer : ℕ → Buffer
new_buffer window = record { entries = []; by_trace = []; window = window; subs = [] }

unfoldable pub extract_trace_id : Event → String
extract_trace_id (otel_span_error e) = e.trace_id
extract_trace_id (otel_span_latency_spike e) = e.trace_id
extract_trace_id (otel_log_match e) = e.trace_id
extract_trace_id (otel_span_event e) = e.trace_id
extract_trace_id _ = ""

-- byTrace[traceID], which is the nil slice for a missing key
abbrev pub or_nil : Option (List Entry) → List Entry
or_nil none = []
or_nil (some es) = es

unfoldable pub entries_of : String → Map (List Entry) → List Entry
entries_of t m = or_nil (lookup t m)

-- `if traceID := extractTraceID(e); traceID != "" { byTrace[traceID] = append(…) }`
unfoldable pub index_entry : Map (List Entry) → Entry → Map (List Entry)
unfolding entries_of
index_entry m e =
    let t = extract_trace_id e.event in if t == "" then m else put t (entries_of t m ++ e ∷ []) m

-- the loop of purgeOld that rebuilds the index
unfoldable pub index_from : Map (List Entry) → List Entry → Map (List Entry)
unfolding index_entry
index_from m [] = m
index_from m (e ∷ es) = index_from (index_entry m e) es

-- the loop `for i < len(b.entries) && b.entries[i].AddedAt.Before(cutoff) { i++ }`
unfoldable pub stale_count : ℕ → ℕ → List Entry → ℕ
stale_count window now [] = 0
stale_count window now (e ∷ es) =
    let rest = suc (stale_count window now es) in if ltb (e.added_at + window) now then rest else 0

unfoldable pub purge_old : ℕ → Buffer → Buffer
purge_old now b =
    let i = stale_count b.window now b.entries in
    let kept = drop i b.entries in
    if nat_eq i 0 then b else record b { entries = kept; by_trace = index_from [] kept }

-- `select { case ch <- entry: default: }` for each subscriber
unfoldable pub deliver : Entry → List Subscriber → List Subscriber
deliver e [] = []
deliver e (s ∷ ss) =
    (if ltb (length s.waiting) s.capacity then record s { waiting = s.waiting ++ e ∷ [] } else s)
    ∷ deliver e ss

unfoldable pub add : ℕ → Event → Buffer → Buffer
add now ev b =
    let p = purge_old now b in
    let e : Entry = record { event = ev; added_at = now } in
    record p {
      entries = p.entries ++ e ∷ [];
      by_trace = index_entry p.by_trace e;
      subs = deliver e p.subs;
    }

-- A read purges first: the new buffer and the copy that is returned.
unfoldable pub snapshot : ℕ → Buffer → Buffer × List Entry
snapshot now b = let p = purge_old now b in (p, p.entries)

unfoldable pub snapshot_by_trace : ℕ → String → Buffer → Buffer × List Entry
snapshot_by_trace now t b =
    let p = purge_old now b in if t == "" then (b, []) else (p, entries_of t p.by_trace)

unfoldable pub subscribe : Subscriber → Buffer → Buffer
subscribe s b = record b { subs = s ∷ b.subs }

-- the function that Subscribe returns
unfoldable pub unsubscribe : ℕ → Buffer → Buffer
unsubscribe id b = record b { subs = without b.subs }
  where
    without : List Subscriber → List Subscriber
    without [] = []
    without (s ∷ ss) = let rest = without ss in if nat_eq s.id id then rest else s ∷ rest
