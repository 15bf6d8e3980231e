-- ===== src/Correlator/Buffer/Trace.antt =====
-- The index by trace id agrees with a scan of the entries.
use rca_operator.Base.{
  ℕ, String, ◌≡◌, refl, sym, Bool, not, ◌&&◌, List, [], ◌∷◌, ◌++◌, filter_by, filter_by-append,
  if◌then◌else◌, true, false, ◌==◌, eq_iff, arith, nat_eq, Bool-cases, inl, inr,
}
use mathlib.Core.List.{append-nil, append_assoc}
use rca_operator.Base.Maps.{Map, lookup, lookup-put}
use rca_operator.Watcher.Event.{Event}
use rca_operator.Correlator.Buffer.{
  Entry, Buffer, new_buffer, extract_trace_id, entries_of, index_entry, index_from, stale_count,
  purge_old, add, snapshot, snapshot_by_trace,
}

-- What a scan for a trace id tests.
abbrev pub has_trace : String → Entry → Bool
has_trace t e = not (extract_trace_id e.event == "") && (extract_trace_id e.event == t)

abbrev pub IsIndexed : Buffer → Type 0
IsIndexed b = (t : String) → entries_of t b.by_trace ≡ filter_by (has_trace t) b.entries

entries_of-index_entry :
    (t : String) (m : Map (List Entry)) (e : Entry)
    → entries_of t (index_entry m e)
      ≡ (if has_trace t e then entries_of t m ++ e ∷ [] else entries_of t m)
unfolding entries_of index_entry
entries_of-index_entry t m e =
    let k = extract_trace_id e.event in
    ground (arith, lookup-put k t (entries_of k m ++ e ∷ []) m, eq_iff k t)

entries_of-index_from :
    (t : String) (m : Map (List Entry)) (es : List Entry)
    → entries_of t (index_from m es) ≡ entries_of t m ++ filter_by (has_trace t) es
unfolding index_from
entries_of-index_from t m [] = sym (append-nil _)
entries_of-index_from t m (e ∷ es) =
    rw (entries_of-index_from t (index_entry m e) es, entries_of-index_entry t m e)
      (ground (arith, append_assoc (entries_of t m) (e ∷ []) (filter_by (has_trace t) es)))

entries_of-rebuild :
    (t : String) (es : List Entry) → entries_of t (index_from [] es) ≡ filter_by (has_trace t) es
unfolding entries_of lookup
entries_of-rebuild t es = entries_of-index_from t [] es

pub new_buffer-IsIndexed : (window : ℕ) → IsIndexed (new_buffer window)
unfolding new_buffer entries_of lookup
new_buffer-IsIndexed window t = refl

pub purge_old-IsIndexed : (now : ℕ) (b : Buffer) → IsIndexed b → IsIndexed (purge_old now b)
unfolding purge_old
purge_old-IsIndexed now b h t = elim (Bool-cases (nat_eq (stale_count b.window now b.entries) 0)) [
  | inl none_stale ↦ rw none_stale (h t)
  | inr some_stale ↦ rw some_stale (entries_of-rebuild t _)
]

append_if :
    (c : Bool) (es : List Entry) (e : Entry)
    → (if c then es ++ e ∷ [] else es) ≡ es ++ (if c then e ∷ [] else [])
append_if true es e = refl
append_if false es e = sym (append-nil es)

entries_of-append :
    (t : String) (m : Map (List Entry)) (es : List Entry) (e : Entry)
    → entries_of t m ≡ filter_by (has_trace t) es
    → entries_of t (index_entry m e) ≡ filter_by (has_trace t) (es ++ e ∷ [])
entries_of-append t m es e h =
    rw (entries_of-index_entry t m e, filter_by-append (has_trace t) es (e ∷ []), h)
      (append_if (has_trace t e) (filter_by (has_trace t) es) e)

pub add-IsIndexed : (now : ℕ) (e : Event) (b : Buffer) → IsIndexed b → IsIndexed (add now e b)
unfolding add
add-IsIndexed now e b h t =
    entries_of-append t (purge_old now b).by_trace (purge_old now b).entries _
      (purge_old-IsIndexed now b h t)

no_empty_trace : (t : String) (es : List Entry) → (t == "") ≡ true → filter_by (has_trace t) es ≡ []
no_empty_trace t [] h = refl
no_empty_trace t (e ∷ es) h =
    let k = extract_trace_id e.event in
    ground (arith, no_empty_trace t es h, eq_iff t "", eq_iff k t, eq_iff k "")

-- The per-trace read is the scan of the whole snapshot for that trace id.
pub snapshot_by_trace-eq-filter :
    (now : ℕ) (t : String) (b : Buffer)
    → IsIndexed b
    → (snapshot_by_trace now t b).1 ≡ filter_by (has_trace t) (snapshot now b).1
unfolding snapshot_by_trace snapshot
snapshot_by_trace-eq-filter now t b h = elim (Bool-cases (t == "")) [
  | inl empty ↦ rw empty (sym (no_empty_trace t (purge_old now b).entries empty))
  | inr named ↦ rw named (purge_old-IsIndexed now b h t)
]
