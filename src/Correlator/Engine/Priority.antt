-- ===== src/Correlator/Engine/Priority.antt =====
-- Which rule of the correlator wins.
use mathlib.Core.Bool.{false≢true}
use rca_operator.Base.{
  ℕ, ◌≡◌, refl, ap, sym, ◌∙◌, Bool, false, Option, none, some, List, [], ◌∷◌, All, find_by, arith,
  Bool-cases, Option-cases, inl, inr,
}
use rca_operator.Base.Members.{find_by-some, find_by-none}
use rca_operator.Base.Sort.{sort}
use rca_operator.Watcher.Event.{Event}
use rca_operator.Correlator.Buffer.{Entry, snapshot}
use rca_operator.Correlator.Engine.{
  CorrelationResult, no_result, Rule, rule_order, Correlator, with_rules, first_fired, evaluate,
}

-- The rule fires on the signal.
abbrev pub fires : Event → List Entry → Rule → Bool
fires event entries r = (r.evaluate event entries).fired

abbrev outcome : Event → List Entry → Option Rule → CorrelationResult
outcome event entries none = no_result
outcome event entries (some r) = r.evaluate event entries

first_fired-find_by :
    (event : Event) (entries : List Entry) (rules : List Rule)
    → first_fired event entries rules ≡ outcome event entries (find_by (fires event entries) rules)
unfolding first_fired
first_fired-find_by event entries [] = refl
first_fired-find_by event entries (r ∷ rules) = elim (Bool-cases (fires event entries r)) [
  | inl hit ↦ ground (arith, hit)
  | inr miss ↦ ground (arith, miss, first_fired-find_by event entries rules)
]

module _ (now : ℕ) (event : Event) (rules : List Rule) (c : Correlator) where
  abbrev read : List Entry
  read = (snapshot now c.buf).1

  result-outcome :
      (evaluate now event (with_rules rules c)).1
      ≡ outcome event read (find_by (fires event read) (sort rule_order rules))
  unfolding evaluate with_rules
  result-outcome = first_fired-find_by event read (sort rule_order rules)

  fired-outcome :
      (o : Option Rule)
      → find_by (fires event read) (sort rule_order rules) ≡ o
      → (evaluate now event (with_rules rules c)).1.fired ≡ (outcome event read o).fired
  fired-outcome o h =
      ap (λ (r : CorrelationResult). r.fired) (result-outcome ∙ ap (outcome event read) h)

  -- If Evaluate of the correlator does not fire, no rule fires.
  pub evaluate_quiet :
      (evaluate now event (with_rules rules c)).1.fired ≡ false
      → All (λ q. fires event read q ≡ false) (sort rule_order rules)
  evaluate_quiet h =
      let sorted = sort rule_order rules in
      let m = fires event read in
      elim (Option-cases (find_by m sorted)) [
        | inl nothing ↦ find_by-none m sorted nothing
        | inr (r, found) ↦
            absurd (
              false≢true (sym h ∙ fired-outcome (some r) found ∙ (find_by-some m sorted r found).1))
      ]
