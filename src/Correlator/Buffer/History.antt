-- ===== src/Correlator/Buffer/History.antt =====
-- The buffer refines the whole history of signals: a read returns the part in the window.
use rca_operator.Base.{
  ℕ, ◌≤◌, ◌≡◌, refl, ap, sym, ◌∙◌, List, [], ◌∷◌, ◌++◌, String, filter_by, filter_by-append, arith,
  drop, nat_eq, Bool-cases, inl, inr, ◌==◌, subst, Bool, true, false, if◌then◌else◌,
}
use mathlib.Core.List.{append-nil, append_assoc}
use rca_operator.Watcher.Event.{Event}
use rca_operator.Correlator.Buffer.{
  Entry, Buffer, new_buffer, stale_count, purge_old, add, snapshot, snapshot_by_trace,
}
use rca_operator.Correlator.Buffer.Window.{
  Chain, fresh, Chain-append, Chain-filter_by, Chain-extend, drop-stale_count,
  filter_by-fresh_again,
}
use rca_operator.Correlator.Buffer.Trace.{
  IsIndexed, has_trace, new_buffer-IsIndexed, add-IsIndexed, purge_old-IsIndexed,
  snapshot_by_trace-eq-filter,
}

window-purge_old : (now : ℕ) (b : Buffer) → (purge_old now b).window ≡ b.window
unfolding purge_old
window-purge_old now b = ground arith

entries-purge_old :
    (now lo hi : ℕ) (b : Buffer)
    → Chain lo b.entries hi
    → (purge_old now b).entries ≡ filter_by (fresh b.window now) b.entries
unfolding purge_old
entries-purge_old now lo hi b c =
    elim (Bool-cases (nat_eq (stale_count b.window now b.entries) 0)) [
      | inl none_stale ↦
          let zero_stale : stale_count b.window now b.entries ≡ 0 = ground arith in
          rw none_stale (
            sym (ap (λ n. drop n b.entries) zero_stale)
            ∙ drop-stale_count b.window now lo hi b.entries c)
      | inr some_stale ↦ rw some_stale (drop-stale_count b.window now lo hi b.entries c)
    ]

-- A call of the buffer: a signal is added, or somebody reads (a purge).
pub data Call : Type 0 where
  adds : Event → Call
  reads : Call
  reads_trace : String → Call

abbrev pub step : Buffer → ℕ × Call → Buffer
step b (t, adds e) = add t e b
step b (t, reads) = (snapshot t b).0
step b (t, reads_trace id) = (snapshot_by_trace t id b).0

unfoldable pub run : Buffer → List (ℕ × Call) → Buffer
run b [] = b
run b (c ∷ cs) = run (step b c) cs

-- The signals that a sequence of calls adds, with the instants of the calls.
abbrev pub recorded : List (ℕ × Call) → List Entry
recorded [] = []
recorded ((t, adds e) ∷ cs) = record { event = e; added_at = t } ∷ recorded cs
recorded ((t, reads) ∷ cs) = recorded cs
recorded ((t, reads_trace id) ∷ cs) = recorded cs

-- The clock does not go back from one call to the next.
abbrev pub Timed : ℕ → List (ℕ × Call) → ℕ → Type 0
Timed lo [] hi = lo ≤ hi
Timed lo ((t, c) ∷ cs) hi = (lo ≤ t) × Timed t cs hi

recorded-cons :
    (c : ℕ × Call) (cs : List (ℕ × Call)) → recorded (c ∷ cs) ≡ recorded (c ∷ []) ++ recorded cs
recorded-cons (t, adds e) cs = refl
recorded-cons (t, reads) cs = refl
recorded-cons (t, reads_trace id) cs = refl

window-step : (b : Buffer) (c : ℕ × Call) → (step b c).window ≡ b.window
unfolding add snapshot snapshot_by_trace
window-step b (t, adds e) = window-purge_old t b
window-step b (t, reads) = window-purge_old t b
window-step b (t, reads_trace id) = ground (arith, window-purge_old t b)

module _ (t hi : ℕ) (b : Buffer) (later : hi ≤ t) (c : Chain 0 b.entries hi) where
  purged : (purge_old t b).entries ≡ filter_by (fresh b.window t) b.entries
  purged = entries-purge_old t 0 hi b c

  purge_old-Chain : Chain 0 (purge_old t b).entries hi
  purge_old-Chain = rw purged (Chain-filter_by 0 hi _ b.entries c)

  -- A call keeps the entries in order.
  step-Chain : (k : Call) → Chain 0 (step b (t, k)).entries t
  unfolding add snapshot snapshot_by_trace
  step-Chain (adds e) = Chain-append 0 hi (purge_old t b).entries _ later purge_old-Chain
  step-Chain reads = Chain-extend 0 hi t _ later purge_old-Chain
  step-Chain (reads_trace id) = ground (
    arith,
    Chain-extend 0 hi t b.entries later c,
    Chain-extend 0 hi t (purge_old t b).entries later purge_old-Chain,
  )

  -- It forgets nothing that a later read still wants.
  purge_old_keeps :
      (now : ℕ)
      → t ≤ now
      → filter_by (fresh b.window now) (purge_old t b).entries
        ≡ filter_by (fresh b.window now) b.entries
  purge_old_keeps now h = rw purged (filter_by-fresh_again b.window t now b.entries h)

  step_keeps :
      (now : ℕ) (k : Call)
      → t ≤ now
      → filter_by (fresh b.window now) (step b (t, k)).entries
        ≡ filter_by (fresh b.window now) (b.entries ++ recorded ((t, k) ∷ []))
  unfolding add snapshot snapshot_by_trace
  step_keeps now (adds e) h =
      rw
        (
          filter_by-append (fresh b.window now) (purge_old t b).entries _,
          filter_by-append (fresh b.window now) b.entries _,
        )
        (rw (purge_old_keeps now h))
  step_keeps now reads h = rw append-nil (purge_old_keeps now h)
  step_keeps now (reads_trace id) h = rw append-nil (ground (arith, purge_old_keeps now h))

Timed-le : (lo hi : ℕ) (cs : List (ℕ × Call)) → Timed lo cs hi → lo ≤ hi
Timed-le lo hi [] h = h
Timed-le lo hi ((t, c) ∷ cs) h = omega (arith, Timed-le t hi cs h.1)

window-run : (b : Buffer) (cs : List (ℕ × Call)) → (run b cs).window ≡ b.window
unfolding run
window-run b [] = refl
window-run b (c ∷ cs) = window-run (step b c) cs ∙ window-step b c

run-Chain :
    (lo hi : ℕ) (b : Buffer) (cs : List (ℕ × Call))
    → Chain 0 b.entries lo
    → Timed lo cs hi
    → Chain 0 (run b cs).entries hi
unfolding run
run-Chain lo hi b [] c h = Chain-extend 0 lo hi b.entries h c
run-Chain lo hi b ((t, k) ∷ cs) c h =
    run-Chain t hi (step b (t, k)) cs (step-Chain t lo b h.0 c k) h.1

run_keeps :
    (now lo hi : ℕ) (b : Buffer) (cs : List (ℕ × Call))
    → Chain 0 b.entries lo
    → Timed lo cs hi
    → hi ≤ now
    → (w : ℕ) → b.window ≡ w
    → filter_by (fresh w now) (run b cs).entries
      ≡ filter_by (fresh w now) (b.entries ++ recorded cs)
unfolding run
run_keeps now lo hi b [] c h k w e = rw append-nil
run_keeps now lo hi b ((t, call) ∷ cs) c h k w e =
    let b' = step b (t, call) in
    let f = fresh w now in
    let first = recorded ((t, call) ∷ []) in
    let here =
      subst (λ v. filter_by (fresh v now) b'.entries ≡ filter_by (fresh v now) (b.entries ++ first))
        e (step_keeps t lo b h.0 c now call (omega (arith, Timed-le t hi cs h.1))) in
    let later = recorded cs in
    run_keeps now t hi b' cs (step-Chain t lo b h.0 c call) h.1 k w (window-step b (t, call) ∙ e)
    ∙ filter_by-append f b'.entries later
    ∙ ap (λ es. es ++ filter_by f later) here
    ∙ sym (filter_by-append f (b.entries ++ first) later)
    ∙ ap (filter_by f) (
        append_assoc b.entries first later
        ∙ ap (λ es. b.entries ++ es) (sym (recorded-cons (t, call) cs)))

-- From an empty buffer, whatever is added and read in the order of the clock, a snapshot is exactly
-- the added signals that are not older than the window.
pub snapshot-run :
    (window now : ℕ) (cs : List (ℕ × Call))
    → Timed 0 cs now
    → (snapshot now (run (new_buffer window) cs)).1 ≡ filter_by (fresh window now) (recorded cs)
unfolding new_buffer snapshot
snapshot-run window now cs h =
    let b = run (new_buffer window) cs in
    rw
      (
        entries-purge_old now 0 now b (run-Chain 0 now (new_buffer window) cs (omega arith) h),
        window-run (new_buffer window) cs,
      )
      (run_keeps now 0 now (new_buffer window) cs (omega arith) h (omega arith) window refl)

either_buffer :
    (P : Buffer × List Entry → Type 0) (c : Bool) {x y : Buffer × List Entry}
    → P x
    → P y
    → P (if c then x else y)
either_buffer P true p q = p
either_buffer P false p q = q

run-IsIndexed : (b : Buffer) (cs : List (ℕ × Call)) → IsIndexed b → IsIndexed (run b cs)
unfolding run snapshot snapshot_by_trace
run-IsIndexed b [] h = h
run-IsIndexed b ((t, adds e) ∷ cs) h = run-IsIndexed (add t e b) cs (add-IsIndexed t e b h)
run-IsIndexed b ((t, reads) ∷ cs) h = run-IsIndexed (purge_old t b) cs (purge_old-IsIndexed t b h)
run-IsIndexed b ((t, reads_trace id) ∷ cs) h =
    run-IsIndexed _ cs (either_buffer (λ r. IsIndexed r.0) (id == "") h (purge_old-IsIndexed t b h))

-- From an empty buffer, the per-trace read is the signals of that trace id among those that a
-- snapshot at the same instant returns.
pub snapshot_by_trace-run :
    (window now : ℕ) (t : String) (cs : List (ℕ × Call))
    → Timed 0 cs now
    → (snapshot_by_trace now t (run (new_buffer window) cs)).1
      ≡ filter_by (has_trace t) (filter_by (fresh window now) (recorded cs))
snapshot_by_trace-run window now t cs h = rw (
  snapshot_by_trace-eq-filter now t (run (new_buffer window) cs)
      (run-IsIndexed (new_buffer window) cs (new_buffer-IsIndexed window)),
  snapshot-run window now cs h,
)
