-- ===== src/RuleEngine/Engine/Priority.antt =====
-- Which rule wins.
use mathlib.Core.Bool.{false≢true}
use rca_operator.Base.{
  ℕ, ◌≡◌, refl, ap, sym, ◌∙◌, false, Option, none, some, List, [], ◌∷◌, All, find_by, Bool-cases,
  Option-cases, inl, inr,
}
use rca_operator.Base.Members.{find_by-none}
use rca_operator.Watcher.Event.{Event}
use rca_operator.Correlator.Buffer.{Entry, snapshot}
use rca_operator.Correlator.Engine.{CorrelationResult, no_result}
use rca_operator.RuleEngine.Rule.{Std, CorrelationRule, LoadedRule, load_rules}
use rca_operator.RuleEngine.Engine.{Engine, reload, rule_matches, fire, first_match, evaluate}

module _ {std : Std} where
  abbrev outcome : Event → Option (LoadedRule std) → CorrelationResult
  outcome event none = no_result
  outcome event (some r) = fire std event r

  first_match-find_by :
      (event : Event) (entries : List Entry) (rules : List (LoadedRule std))
      → first_match std event entries rules
        ≡ outcome event (find_by (rule_matches std event entries) rules)
  unfolding first_match
  first_match-find_by event entries [] = refl
  first_match-find_by event entries (r ∷ rules) =
      elim (Bool-cases (rule_matches std event entries r)) [
        | inl hit ↦ rw hit
        | inr miss ↦ rw miss (first_match-find_by event entries rules)
      ]

module _ (std : Std) (now : ℕ) (event : Event) (specs : List CorrelationRule) (e : Engine std) where
  -- The engine with the resources loaded, and what Evaluate reads from the buffer.
  abbrev loaded : Engine std
  loaded = record e { rules = load_rules std specs }

  abbrev read : List Entry
  read = (snapshot now e.buf).1

  result-outcome :
      (evaluate std now event (reload std (some specs) e)).1
      ≡ outcome event (find_by (rule_matches std event read) (load_rules std specs))
  unfolding evaluate reload
  result-outcome = first_match-find_by event read (load_rules std specs)

  fired-outcome :
      (o : Option (LoadedRule std))
      → find_by (rule_matches std event read) (load_rules std specs) ≡ o
      → (evaluate std now event (reload std (some specs) e)).1.fired ≡ (outcome event o).fired
  fired-outcome o h =
      ap (λ (r : CorrelationResult). r.fired) (result-outcome ∙ ap (outcome event) h)

  -- If it does not fire, then no loaded rule matches.
  pub evaluate_silent :
      (evaluate std now event (reload std (some specs) e)).1.fired ≡ false
      → All (λ q. rule_matches std event read q ≡ false) (load_rules std specs)
  unfolding fire
  evaluate_silent h =
      let rules = load_rules std specs in
      let m = rule_matches std event read in
      elim (Option-cases (find_by m rules)) [
        | inl none_matches ↦ find_by-none m rules none_matches
        | inr (r, found) ↦ absurd (false≢true (sym h ∙ fired-outcome (some r) found))
      ]
