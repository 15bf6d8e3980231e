-- ===== src/Signals/Deduplicator.antt =====
-- internal/signals/deduplicator.go. The map of seen keys is a function from keys; the clock is an
-- argument.
pub mod Answers
use rca_operator.Base.{ℕ, ◌+◌, String, Bool, true, false, Option, none, some, ltb, if◌then◌else◌}
use rca_operator.Watcher.Emitter.{seen_within, record_key}

pub record Deduplicator : Type 0 where
  pub seen : String → Option ℕ
  pub window : ℕ

unfoldable pub new_deduplicator : ℕ → Deduplicator
new_deduplicator window = record { seen = λ k. none; window = window }

-- an instant that is not before the cutoff
abbrev pub not_before : ℕ → ℕ → Option ℕ → Option ℕ
not_before window now none = none
not_before window now (some t) = if ltb (t + window) now then none else some t

unfoldable pub purge_old : ℕ → Deduplicator → Deduplicator
purge_old now d = record d { seen = λ k. not_before d.window now (d.seen k) }

unfoldable pub is_duplicate : ℕ → String → Deduplicator → Deduplicator × Bool
unfolding purge_old
is_duplicate now key d =
    let p = purge_old now d in
    if seen_within p.window now (p.seen key)
    then (p, true)
    else (record p { seen = record_key key now p.seen }, false)
