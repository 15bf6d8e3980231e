-- ===== src/Autodetect/Creator/Cap.antt =====
-- The cap on the number of generated rules, MaxAutoRules, in EnsureRule of
-- internal/autodetect/creator.go.
use mathlib.Core.Bool.{false≢true}
use rca_operator.Base.{
  ℕ, ◌+◌, ◌≤◌, String, Bool, ◌≡◌, refl, sym, ap, ◌∙◌, inl, inr, ◌⊎◌, true, false, ◌&&◌, Option,
  none, some, List, [], ◌∷◌, ◌++◌, map, All, filter_by, filter_by-append, length, length-append,
  leb, arith, Bool-cases, ◌==◌, eq_iff,
}
use rca_operator.Base.Members.{All-within}
use rca_operator.Autodetect.Pattern.{normalize_pair, is_valid_scope_pair, rule_name}
use rca_operator.Autodetect.Accumulator.{Config, PatternRecord}
use rca_operator.Autodetect.Api.{RuleObject, RuleApi, RuleApiLaws, is_auto, with_name, replaced_by}
use rca_operator.Autodetect.Rule.{TimeFormat, new_rule, annotated, covered_in}
use rca_operator.Autodetect.Creator.{
  created, create_rule, updated, update_annotations, create_or_update, count_of, count_auto_rules,
  ensure_counted, ensure_rule,
}

pub auto_count : List RuleObject → ℕ
auto_count l = length (filter_by is_auto l)

auto_count-append :
    (l : List RuleObject) (o : RuleObject)
    → is_auto o ≡ true
    → auto_count (l ++ o ∷ []) ≡ auto_count l + 1
unfolding auto_count
auto_count-append l o h =
    ap length (filter_by-append is_auto l (o ∷ []))
    ∙ length-append (filter_by is_auto l) (filter_by is_auto (o ∷ []))
    ∙ rw h refl

auto_count-replaced :
    (o : RuleObject) (l : List RuleObject)
    → All (λ x. with_name o.rule.name x ≡ true → is_auto o ≡ is_auto x) l
    → auto_count (map (replaced_by o) l) ≡ auto_count l
unfolding auto_count
auto_count-replaced o [] h = refl
auto_count-replaced o (x ∷ l) h = elim (Bool-cases (with_name o.rule.name x)) [
  | inl e ↦ rw (e, h.0 e) (ground (arith, auto_count-replaced o l h.1))
  | inr e ↦ rw e (ground (arith, auto_count-replaced o l h.1))
]

and_right : (a b : Bool) → (a && b) ≡ false → b ≡ true → a ≡ false
and_right false b h k = refl
and_right true b h k = absurd (false≢true (sym h ∙ k))

module _ (api : RuleApi) (laws : RuleApiLaws api) (time : TimeFormat) (cfg : Config) where
  -- the number of the generated rules of the cluster
  abbrev pub rule_count : api.World → ℕ
  rule_count w = auto_count (laws.rules w)

  -- no more than before, or no more than the cap
  abbrev pub IsCapped : api.World → api.World → Type 0
  IsCapped w w' = (rule_count w' ≤ rule_count w) ⊎ (rule_count w' ≤ cfg.max_auto_rules)

  same_count : (w w' : api.World) → rule_count w' ≡ rule_count w → IsCapped w w'
  same_count w w' e = inl (omega (arith, e))

  new_rule-auto :
      (now : ℕ) (name : String) (r : PatternRecord) → is_auto (new_rule time cfg now name r) ≡ true
  unfolding new_rule
  new_rule-auto now name r = refl

  created-IsCapped :
      (now : ℕ) (name : String) (r : PatternRecord) (w : api.World) (w' : Option api.World)
      → api.create (new_rule time cfg now name r) w ≡ w'
      → rule_count w + 1 ≤ cfg.max_auto_rules
      → IsCapped w (created api time cfg name r w w').world
  unfolding created
  created-IsCapped now name r w none e h = same_count w w refl
  created-IsCapped now name r w (some w') e h =
      let grown : rule_count w' ≡ rule_count w + 1 =
        ap auto_count (laws.create_law (new_rule time cfg now name r) w w' e)
        ∙ auto_count-append (laws.rules w) (new_rule time cfg now name r)
            (new_rule-auto now name r) in
      inr (omega (arith, grown, h))

  updated-IsCapped :
      (now : ℕ) (name : String) (r : PatternRecord) (o : RuleObject) (w : api.World)
      (w' : Option api.World)
      → api.get name w ≡ some o
      → api.update (annotated time now r o) w ≡ w'
      → IsCapped w (updated api time cfg r w w').world
  unfolding updated annotated
  updated-IsCapped now name r o w none g e = same_count w w refl
  updated-IsCapped now name r o w (some w') g e = same_count w w' (
      ap auto_count (laws.update_law (annotated time now r o) w w' e)
      ∙ auto_count-replaced (annotated time now r o) (laws.rules w) (
          All-within _ (laws.rules w)
            (λ x m n. sym (ap is_auto (laws.names_differ w o x (laws.get_law name w o g) m n)))))

  create_or_update-IsCapped :
      (now : ℕ) (name : String) (r : PatternRecord) (o : Option RuleObject) (w : api.World)
      → api.get name w ≡ o
      → rule_count w + 1 ≤ cfg.max_auto_rules
      → IsCapped w (create_or_update api time cfg now name r o w).world
  unfolding create_or_update create_rule update_annotations
  create_or_update-IsCapped now name r none w g h = created-IsCapped now name r w _ refl h
  create_or_update-IsCapped now name r (some o) w g h = updated-IsCapped now name r o w _ g refl

  ensure_counted-IsCapped :
      (now : ℕ) (r : PatternRecord) (l : Option (List RuleObject)) (w : api.World)
      → api.list_auto w ≡ l
      → r.rule_name ≡ ""
      → IsCapped w (ensure_counted api time cfg now r (count_of api time cfg l) w).world
  unfolding ensure_counted count_of auto_count
  ensure_counted-IsCapped now r none w e unnamed = same_count w w refl
  ensure_counted-IsCapped now r (some l) w e unnamed =
      let counted : length l ≡ rule_count w = ap length (laws.list_auto_law w l e) in
      elim (Bool-cases (leb cfg.max_auto_rules (length l) && (r.rule_name == ""))) [
        | inl full ↦ rw full (same_count w w refl)
        | inr room ↦
            let not_full : leb cfg.max_auto_rules (length l) ≡ false =
              and_right _ _ room ((eq_iff r.rule_name "").1 unnamed) in
            let below : rule_count w + 1 ≤ cfg.max_auto_rules = ground (arith, not_full, counted) in
            rw room (elim (Bool-cases (covered_in r.pair (api.list_all w))) [
              | inl f ↦ rw f (same_count w w refl)
              | inr f ↦ rw f (create_or_update-IsCapped now (rule_name r.pair) r _ w refl below)
            ])
      ]

  -- A pattern that has no rule yet never takes the number of generated rules above the cap: behind
  -- EnsureRule it is at most what it was before, or at most MaxAutoRules.
  pub ensure_rule-IsCapped :
      (now : ℕ) (r : PatternRecord) (w : api.World)
      → r.rule_name ≡ ""
      → IsCapped w (ensure_rule api time cfg now r w).world
  unfolding ensure_rule count_auto_rules
  ensure_rule-IsCapped now r w unnamed =
      elim (Bool-cases (is_valid_scope_pair (normalize_pair r.pair))) [
        | inl e ↦ rw e (ensure_counted-IsCapped now _ (api.list_auto w) w refl unnamed)
        | inr e ↦ rw e (same_count w w refl)
      ]
