-- ===== src/RuleEngine/Engine/Conditions.antt =====
-- What it means that the conditions of a rule are met.
use mathlib.Core.List.{Memᴰ}
use mathlib.Core.Bool.{false≢true}
use rca_operator.Base.{
  ◌≡◌, refl, sym, subst, ◌∙◌, ◌↔◌, Bool, true, false, List, [], ◌∷◌, All, any_by, String,
  if◌then◌else◌, arith, Bool-cases, inl, inr, eq_iff,
}
use rca_operator.Watcher.Event.{Event, pod_healthy, type_name}
use rca_operator.Correlator.Buffer.{Entry}
use rca_operator.RuleEngine.Rule.{Std, LoadedCondition}
use rca_operator.RuleEngine.Scope.{extract_base, scope_matches}
use rca_operator.RuleEngine.Attributes.{attributes_match}
use rca_operator.RuleEngine.Engine.{entry_matches, conditions_met}

module _ {ℓ} {A : Type ℓ} (p : A → Bool) where
  any_by-true : (xs : List A) → any_by p xs ≡ true → (x : A) × Memᴰ x xs × (p x ≡ true)
  any_by-true [] h = cc
  any_by-true (x ∷ xs) h = elim (Bool-cases (p x)) [
    | inl hit ↦ (x, Memᴰ.head refl, hit)
    | inr miss ↦ let (y, m, hit) = any_by-true xs (ground (arith, miss)) in (y, Memᴰ.tail m, hit)
  ]

  any_by-Memᴰ : (xs : List A) (x : A) → Memᴰ x xs → p x ≡ true → any_by p xs ≡ true
  any_by-Memᴰ [] x m h = elim m [ ]
  any_by-Memᴰ (y ∷ xs) x (Memᴰ.head e) h = ground (arith, subst (λ z. p z ≡ true) e h)
  any_by-Memᴰ (y ∷ xs) x (Memᴰ.tail m) h = ground (arith, any_by-Memᴰ xs x m h)

healthy_elsewhere :
    (trigger e : Event) (scope : String)
    → type_name e ≡ "PodHealthy"
    → scope ≡ "samePod"
    → scope_matches trigger e scope ≡ false
unfolding type_name scope_matches extract_base
healthy_elsewhere trigger (pod_healthy b) scope h s = rw s (ground arith)
healthy_elsewhere trigger e scope h s =
    absurd (false≢true ((eq_iff (type_name e) "PodHealthy").1 h))

module _ (std : Std) (trigger : Event) where
  -- An entry is what a condition looks for: its type, its relation to the trigger, and every
  -- attribute predicate.
  abbrev pub Matches : LoadedCondition std → Entry → Type 0
  Matches cond en =
      (type_name en.event ≡ cond.event_type)
      × (scope_matches trigger en.event cond.scope ≡ true)
      × (attributes_match std en.event cond.attributes ≡ true)

  Matches-entry_matches :
      (cond : LoadedCondition std) (en : Entry)
      → Matches cond en
      → entry_matches std trigger cond en ≡ true
  unfolding entry_matches
  Matches-entry_matches cond en m = ground (arith, eq_iff (type_name en.event) cond.event_type)

  entry_matches-Matches :
      (cond : LoadedCondition std) (en : Entry)
      → entry_matches std trigger cond en ≡ true
      → Matches cond en
  unfolding entry_matches
  entry_matches-Matches cond en h = ground (arith, eq_iff (type_name en.event) cond.event_type)

  abbrev Asks : Bool → LoadedCondition std → List Entry → Type 0
  Asks false cond entries = (en : Entry) × Memᴰ en entries × Matches cond en
  Asks true cond entries = (en : Entry) → Memᴰ en entries → ¬ Matches cond en

  -- A plain condition asks for an entry, a negated one that there is none.
  abbrev pub Met : List Entry → LoadedCondition std → Type 0
  Met entries cond = Asks cond.negate cond entries

  -- the two branches of the loop of conditionsMet, with the test for an entry computed
  abbrev passes : Bool → Bool → Bool → Bool
  passes negate found rest =
      if negate then (if found then false else rest) else (if found then rest else false)

  passes-Asks :
      (negate rest : Bool) (cond : LoadedCondition std) (entries : List Entry)
      → passes negate (any_by (entry_matches std trigger cond) entries) rest ≡ true
      → Asks negate cond entries × (rest ≡ true)
  passes-Asks false rest cond entries h =
      let f = entry_matches std trigger cond in
      let found : any_by f entries ≡ true = ground arith in
      let (en, m, hit) = any_by-true f entries found in
      ((en, m, entry_matches-Matches cond en hit), ground arith)
  passes-Asks true rest cond entries h =
      let f = entry_matches std trigger cond in
      let missed : any_by f entries ≡ false = ground arith in
      (
        λ en m hit.
            false≢true
              (sym missed ∙ any_by-Memᴰ f entries en m (Matches-entry_matches cond en hit)),
        ground arith,
      )

  Asks-passes :
      (negate rest : Bool) (cond : LoadedCondition std) (entries : List Entry)
      → Asks negate cond entries
      → rest ≡ true
      → passes negate (any_by (entry_matches std trigger cond) entries) rest ≡ true
  Asks-passes false rest cond entries (en, m, hit) k =
      let f = entry_matches std trigger cond in
      ground (arith, any_by-Memᴰ f entries en m (Matches-entry_matches cond en hit))
  Asks-passes true rest cond entries no_match k =
      let f = entry_matches std trigger cond in
      elim (Bool-cases (any_by f entries)) [
        | inl found ↦
            let (en, m, hit) = any_by-true f entries found in
            absurd (no_match en m (entry_matches-Matches cond en hit))
        | inr missed ↦ ground (arith, missed)
      ]

  -- The conditions of a rule are met exactly when each of them is: some entry of the buffer matches
  -- a plain condition, and none matches a negated one.
  pub conditions_met_iff :
      (conds : List (LoadedCondition std)) (entries : List Entry)
      → (conditions_met std trigger conds entries ≡ true) ↔ All (Met entries) conds
  unfolding conditions_met
  conditions_met_iff [] entries = (λ _. tt, λ _. refl)
  conditions_met_iff (c ∷ conds) entries =
      let rest = conditions_met std trigger conds entries in
      let ih = conditions_met_iff conds entries in
      (
        λ h. let (asked, others) = passes-Asks c.negate rest c entries h in (asked, ih.0 others),
        λ (asked, others). Asks-passes c.negate rest c entries asked (ih.1 others),
      )

  -- A negated condition on PodHealthy at scope samePod is met whatever the buffer holds, since the
  -- scope never relates an event to a lifecycle event.
  pub negated_healthy_vacuous :
      (cond : LoadedCondition std) (entries : List Entry)
      → cond.event_type ≡ "PodHealthy"
      → cond.scope ≡ "samePod"
      → cond.negate ≡ true
      → conditions_met std trigger (cond ∷ []) entries ≡ true
  negated_healthy_vacuous cond entries t s n = (conditions_met_iff (cond ∷ []) entries).1 (
    subst (λ b. Asks b cond entries) (sym n)
        (λ en m (named, related, _).
          false≢true (sym (healthy_elsewhere trigger en.event cond.scope (named ∙ t) s) ∙ related)),
    tt,
  )
