-- ===== src/Watcher/Emitter/Spacing.antt =====
-- Signals with one key pass the emitter at least a window apart.
use rca_operator.Base.{
  ℕ, ◌+◌, ◌≤◌, ◌≡◌, ◌≢◌, String, List, [], ◌∷◌, All, length, length-append, ltb, ltb→lt, Bool-cases,
  inl, inr, arith, if◌then◌else◌,
}
use rca_operator.Watcher.Event.{Event, dedup_key}
use rca_operator.Watcher.Emitter.{Emitter, should_drop_duplicate, offer, emit}

abbrev pub Timed : ℕ → List (ℕ × Event) → Type 0
Timed lo [] = Unit
Timed lo ((t, e) ∷ cs) = (lo ≤ t) × Timed t cs

-- The signals that are not dropped as duplicates, with their instants.
pub accepted : Emitter → List (ℕ × Event) → List (ℕ × Event)
accepted e [] = []
accepted e ((now, event) ∷ cs) =
    let rest = accepted (emit now event e) cs in
    if (should_drop_duplicate now event e).1 then rest else (now, event) ∷ rest

abbrev pub IsSpaced : ℕ → List (ℕ × Event) → Type 0
IsSpaced window [] = Unit
IsSpaced window ((t, event) ∷ cs) =
    (dedup_key event ≢ "" → All (λ c. dedup_key c.1 ≡ dedup_key event → t + window ≤ c.0) cs)
    × IsSpaced window cs

-- nothing with the key passes before `g`
abbrev pub NotBefore : ℕ → String → List (ℕ × Event) → Type 0
NotBefore g key cs = All (λ c. dedup_key c.1 ≡ key → g ≤ c.0) cs

offer_bounded :
    (event : Event) (e : Emitter)
    → length e.waiting ≤ e.capacity
    → length (offer event e).waiting ≤ (offer event e).capacity
unfolding offer
offer_bounded event e h = elim (Bool-cases (ltb (length e.waiting) e.capacity)) [
  | inl room ↦
      let less = ltb→lt (length e.waiting) e.capacity room in rw (room, length-append) (omega arith)
  | inr full ↦ rw full h
]

-- The channel holds no more than its capacity.
pub emit_bounded :
    (now : ℕ) (event : Event) (e : Emitter)
    → length e.waiting ≤ e.capacity
    → length (emit now event e).waiting ≤ (emit now event e).capacity
unfolding emit should_drop_duplicate
emit_bounded now event e h =
    let kept : length (should_drop_duplicate now event e).0.waiting
        ≤ (should_drop_duplicate now event e).0.capacity =
      ground (arith, h) in
    elim (Bool-cases (should_drop_duplicate now event e).1) [
      | inl dropped ↦ rw dropped kept
      | inr passed ↦ rw passed (offer_bounded event (should_drop_duplicate now event e).0 kept)
    ]
