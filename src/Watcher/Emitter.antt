-- ===== src/Watcher/Emitter.antt =====
-- ChannelEventEmitter of internal/watcher/emitter.go. The map of recent keys is a function from
-- keys; the clock is an argument, and a window of at most 0 is 0.
pub mod Spacing
use rca_operator.Base.{
  ℕ, ◌+◌, String, Bool, true, false, Option, none, some, List, [], ◌∷◌, ◌++◌, length, ltb, nat_eq,
  if◌then◌else◌, ◌==◌,
}
use rca_operator.Watcher.Event.{Event, dedup_key}

pub record Emitter : Type 0 where
  pub dedup_window : ℕ
  pub recent : String → Option ℕ
  -- the correlator channel: its capacity and what waits in it
  pub capacity : ℕ
  pub waiting : List Event

-- NewChannelEventEmitterWithOptions on an empty channel
unfoldable pub new_emitter : ℕ → ℕ → Emitter
new_emitter window capacity = record {
  dedup_window = window;
  recent = λ k. none;
  capacity = capacity;
  waiting = [];
}

-- a key that was seen less than the window ago
abbrev pub seen_within : ℕ → ℕ → Option ℕ → Bool
seen_within window now none = false
seen_within window now (some last) = ltb now (last + window)

-- recent[key] = now
abbrev pub record_key : String → ℕ → (String → Option ℕ) → String → Option ℕ
record_key key now recent k = if key == k then some now else recent k

-- the loop that deletes the keys whose window is over
abbrev pub purge : ℕ → ℕ → (String → Option ℕ) → String → Option ℕ
purge window now recent k = if seen_within window now (recent k) then recent k else none

unfoldable pub should_drop_duplicate : ℕ → Event → Emitter → Emitter × Bool
should_drop_duplicate now event e =
    let key = dedup_key event in
    if nat_eq e.dedup_window 0
    then (e, false)
    else if key == ""
    then (e, false)
    else if seen_within e.dedup_window now (e.recent key)
    then (e, true)
    else (record e { recent = purge e.dedup_window now (record_key key now e.recent) }, false)

-- `select { case e.ch <- event: default: }`
unfoldable pub offer : Event → Emitter → Emitter
offer event e =
    if ltb (length e.waiting) e.capacity then record e { waiting = e.waiting ++ event ∷ [] } else e

unfoldable pub emit : ℕ → Event → Emitter → Emitter
unfolding should_drop_duplicate offer
emit now event e =
    let (e', dropped) = should_drop_duplicate now event e in if dropped then e' else offer event e'
