-- ===== src/Signals/Deduplicator/Answers.antt =====
-- IsDuplicate over a sequence of calls, against the list of the calls that it let through.
use rca_operator.Base.{
  ℕ, ◌+◌, ◌≤◌, ◌≡◌, refl, sym, ap, ◌∙◌, String, Bool, true, false, Option, some, none, List, [],
  ◌∷◌, ltb, ◌&&◌, ◌||◌, Bool-cases, inl, inr, arith, if◌then◌else◌, ◌==◌, eq→path,
}
use rca_operator.Signals.Deduplicator.{
  Deduplicator, purge_old, new_deduplicator, not_before, is_duplicate,
}
use rca_operator.Watcher.Emitter.{seen_within, record_key}

-- the instants do not go back
abbrev pub InOrder : ℕ → List (ℕ × String) → Type 0
InOrder lo [] = Unit
InOrder lo ((t, key) ∷ cs) = (lo ≤ t) × InOrder t cs

-- What IsDuplicate answers, call by call.
pub answers : Deduplicator → List (ℕ × String) → List Bool
answers d [] = []
answers d ((now, key) ∷ cs) = let p = is_duplicate now key d in p.1 ∷ answers p.0 cs

-- The key was let through less than a window ago.
pub let_through : ℕ → ℕ → String → List (ℕ × String) → Bool
let_through window now key [] = false
let_through window now key ((t, k) ∷ passed) =
    ((k == key) && ltb now (t + window)) || let_through window now key passed

-- The answers by the list of the calls let through, which forgets none.
pub expected : ℕ → List (ℕ × String) → List (ℕ × String) → List Bool
expected window passed [] = []
expected window passed ((now, key) ∷ cs) =
    let rest = expected window passed cs in
    let more = expected window ((now, key) ∷ passed) cs in
    if let_through window now key passed then true ∷ rest else false ∷ more

-- the map and the list agree from an instant on
abbrev Agrees : ℕ → ℕ → (String → Option ℕ) → List (ℕ × String) → Type 0
Agrees window lo seen passed =
    (now : ℕ) (key : String)
    → lo ≤ now
    → seen_within window now (seen key) ≡ let_through window now key passed

let_through_late :
    (window now later : ℕ) (key : String) (passed : List (ℕ × String))
    → now ≤ later
    → let_through window now key passed ≡ false
    → let_through window later key passed ≡ false
unfolding let_through
let_through_late window now later key [] h e = refl
let_through_late window now later key ((t, k) ∷ passed) h e =
    let rest = let_through_late window now later key passed h in
    elim (Bool-cases (k == key)) [
      | inl same ↦ ground (arith, same, h, e, rest)
      | inr other ↦ ground (arith, other, h, e, rest)
    ]

-- what purgeOld deletes is out of the window
not_before_within :
    (window now later : ℕ) (o : Option ℕ)
    → now ≤ later
    → seen_within window later (not_before window now o) ≡ seen_within window later o
not_before_within window now later none h = refl
not_before_within window now later (some t) h = elim (Bool-cases (ltb (t + window) now)) [
  | inl old ↦ ground (arith, old, h)
  | inr recent ↦ rw recent refl
]

recorded-Agrees :
    (window now : ℕ) (key : String) (seen : String → Option ℕ) (passed : List (ℕ × String))
    → Agrees window now seen passed
    → let_through window now key passed ≡ false
    → Agrees window now (record_key key now seen) ((now, key) ∷ passed)
unfolding let_through
recorded-Agrees window now key seen passed h e later k late = elim (Bool-cases (key == k)) [
  | inl same ↦
      let silent : let_through window later k passed ≡ false =
        ap (λ z. let_through window later z passed) (sym (eq→path key k same))
        ∙ let_through_late window now later key passed late e in
      rw (same, silent) (ground arith)
  | inr other ↦ rw other (h later k late)
]

answers-expected :
    (window lo : ℕ) (d : Deduplicator) (passed : List (ℕ × String)) (cs : List (ℕ × String))
    → d.window ≡ window
    → Agrees window lo d.seen passed
    → InOrder lo cs
    → answers d cs ≡ expected window passed cs
unfolding answers expected is_duplicate purge_old
answers-expected window lo d passed [] w h timed = refl
answers-expected window lo d passed ((now, key) ∷ cs) w h (k, timed) =
    let seen : String → Option ℕ = λ z. not_before d.window now (d.seen z) in
    let purged : Agrees window now seen passed = λ later z late.
      ap (λ v. seen_within window later (not_before v now (d.seen z))) w
      ∙ not_before_within window now later (d.seen z) late
      ∙ h later z (omega arith) in
    let same : seen_within d.window now (seen key) ≡ let_through window now key passed =
      ap (λ v. seen_within v now (seen key)) w ∙ purged now key (omega arith) in
    elim (Bool-cases (let_through window now key passed)) [
      | inl known ↦
          rw (same, known)
            (ap (λ z. true ∷ z) (answers-expected window now _ passed cs w purged timed))
      | inr fresh ↦
          rw (same, fresh)
            (ap (λ z. false ∷ z)
              (answers-expected window now _ ((now, key) ∷ passed) cs w
                (recorded-Agrees window now key seen passed purged fresh) timed))
    ]

-- With a clock that does not go back, a new deduplicator answers that a key is a duplicate exactly
-- when it let the key through less than the window before: what it purges is not missed.
pub is_duplicate-expected :
    (window lo : ℕ) (cs : List (ℕ × String))
    → InOrder lo cs
    → answers (new_deduplicator window) cs ≡ expected window [] cs
unfolding new_deduplicator let_through
is_duplicate-expected window lo cs timed =
    answers-expected window lo (new_deduplicator window) [] cs refl (λ now key late. refl) timed
