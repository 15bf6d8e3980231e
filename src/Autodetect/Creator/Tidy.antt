-- ===== src/Autodetect/Creator/Tidy.antt =====
-- Generated rules whose types fit their scope, under the operations of
-- internal/autodetect/creator.go.
use rca_operator.Base.{
  ℕ, String, ◌≡◌, refl, sym, subst, inl, inr, true, not, ◌&&◌, ◌||◌, Option, none, some, List, [],
  ◌∷◌, map, All, All-append, All-filter_by, leb, Bool-cases, ◌==◌,
}
use rca_operator.Base.Members.{All-Memᴰ}
use rca_operator.Base.Texts.{str_lt, str_lt_asym}
use rca_operator.Autodetect.Pattern.{EventPair, normalize_pair, is_valid_scope_pair, rule_name}
use rca_operator.Autodetect.Accumulator.{Config, PatternRecord}
use rca_operator.Autodetect.Api.{RuleObject, RuleApi, RuleApiLaws, is_auto, with_name, replaced_by}
use rca_operator.Autodetect.Rule.{
  TimeFormat, new_rule, annotated, pair_of, pair_from_rule, is_invalid, is_stale, covered_in,
}
use rca_operator.Autodetect.Creator.{
  created, create_rule, updated, update_annotations, create_or_update, count_auto_rules,
  ensure_counted, ensure_rule, or_same, expire_each, expire_listed, expire_stale_rules,
}

normalize_pair_idempotent : (p : EventPair) → normalize_pair (normalize_pair p) ≡ normalize_pair p
unfolding normalize_pair
normalize_pair_idempotent p = elim (Bool-cases (str_lt p.condition_type p.trigger_type)) [
  | inl e ↦ rw (e, str_lt_asym p.condition_type p.trigger_type e) refl
  | inr e ↦ rw (e, e) refl
]

-- a generated rule's first condition, if any, has a type and a scope that fit the trigger
abbrev pub IsTidyRule : RuleObject → Type 0
IsTidyRule o =
    is_auto o ≡ true
    → (pair : EventPair) × (pair_from_rule o ≡ some pair) × (is_valid_scope_pair pair ≡ true)

module _ (api : RuleApi) (laws : RuleApiLaws api) (time : TimeFormat) (cfg : Config) where
  -- The first condition of every generated rule of the cluster has a type and a scope that fit the
  -- trigger.
  abbrev pub IsTidy : api.World → Type 0
  IsTidy w = All IsTidyRule (laws.rules w)

  new_rule-IsTidyRule :
      (now : ℕ) (name : String) (r : PatternRecord)
      → is_valid_scope_pair (normalize_pair r.pair) ≡ true
      → IsTidyRule (new_rule time cfg now name r)
  unfolding new_rule pair_from_rule pair_of
  new_rule-IsTidyRule now name r h = λ _. (_, refl, h)

  annotated-IsTidyRule :
      (now : ℕ) (r : PatternRecord) (o : RuleObject)
      → IsTidyRule o
      → IsTidyRule (annotated time now r o)
  unfolding annotated pair_from_rule
  annotated-IsTidyRule now r o h = h

  replaced_by-All :
      (o : RuleObject) (l : List RuleObject)
      → IsTidyRule o
      → All IsTidyRule l
      → All IsTidyRule (map (replaced_by o) l)
  replaced_by-All o [] h i = tt
  replaced_by-All o (x ∷ l) h i = elim (Bool-cases (with_name o.rule.name x)) [
    | inl e ↦ rw e (h, replaced_by-All o l h i.1)
    | inr e ↦ rw e (i.0, replaced_by-All o l h i.1)
  ]

  created-IsTidy :
      (name : String) (r : PatternRecord) (o : RuleObject) (w : api.World) (w' : Option api.World)
      → api.create o w ≡ w'
      → IsTidyRule o
      → IsTidy w
      → IsTidy (created api time cfg name r w w').world
  unfolding created
  created-IsTidy name r o w none e h i = i
  created-IsTidy name r o w (some w') e h i =
      subst (All IsTidyRule) (sym (laws.create_law o w w' e))
        (All-append IsTidyRule (laws.rules w) (o ∷ []) i (h, tt))

  updated-IsTidy :
      (r : PatternRecord) (o : RuleObject) (w : api.World) (w' : Option api.World)
      → api.update o w ≡ w'
      → IsTidyRule o
      → IsTidy w
      → IsTidy (updated api time cfg r w w').world
  unfolding updated
  updated-IsTidy r o w none e h i = i
  updated-IsTidy r o w (some w') e h i =
      subst (All IsTidyRule) (sym (laws.update_law o w w' e)) (replaced_by-All o (laws.rules w) h i)

  create_or_update-IsTidy :
      (now : ℕ) (name : String) (r : PatternRecord) (o : Option RuleObject) (w : api.World)
      → api.get name w ≡ o
      → is_valid_scope_pair (normalize_pair r.pair) ≡ true
      → IsTidy w
      → IsTidy (create_or_update api time cfg now name r o w).world
  unfolding create_or_update create_rule update_annotations
  create_or_update-IsTidy now name r none w e h i =
      created-IsTidy name r _ w _ refl (new_rule-IsTidyRule now name r h) i
  create_or_update-IsTidy now name r (some o) w e h i =
      updated-IsTidy r _ w _ refl
        (annotated-IsTidyRule now r o
          (All-Memᴰ IsTidyRule (laws.rules w) o i (laws.get_law name w o e)))
        i

  ensure_counted-IsTidy :
      (now : ℕ) (r : PatternRecord) (n : Option ℕ) (w : api.World)
      → is_valid_scope_pair (normalize_pair r.pair) ≡ true
      → IsTidy w
      → IsTidy (ensure_counted api time cfg now r n w).world
  unfolding ensure_counted
  ensure_counted-IsTidy now r none w h i = i
  ensure_counted-IsTidy now r (some n) w h i =
      elim (Bool-cases (leb cfg.max_auto_rules n && (r.rule_name == ""))) [
        | inl e ↦ rw e i
        | inr e ↦ rw e (elim (Bool-cases (covered_in r.pair (api.list_all w))) [
          | inl f ↦ rw f i
          | inr f ↦ rw f (create_or_update-IsTidy now (rule_name r.pair) r _ w refl h i)
        ])
      ]

  pub ensure_rule-IsTidy :
      (now : ℕ) (r : PatternRecord) (w : api.World)
      → IsTidy w
      → IsTidy (ensure_rule api time cfg now r w).world
  unfolding ensure_rule
  ensure_rule-IsTidy now r w i = elim (Bool-cases (is_valid_scope_pair (normalize_pair r.pair))) [
    | inl e ↦ rw e (
        ensure_counted-IsTidy now _ (count_auto_rules api time cfg w) w
          (rw (normalize_pair_idempotent r.pair) e) i)
    | inr e ↦ rw e i
  ]

  or_same-IsTidy :
      (name : String) (w : api.World) (w' : Option api.World)
      → api.delete name w ≡ w'
      → IsTidy w
      → IsTidy (or_same api time cfg w w')
  unfolding or_same
  or_same-IsTidy name w none e i = i
  or_same-IsTidy name w (some w') e i =
      subst (All IsTidyRule) (sym (laws.delete_law name w w' e))
        (All-filter_by IsTidyRule (λ o. not (with_name name o)) (laws.rules w) i)

  expire_each-IsTidy :
      (now : ℕ) (l : List RuleObject) (w : api.World)
      → IsTidy w
      → IsTidy (expire_each api time cfg now l w)
  unfolding expire_each
  expire_each-IsTidy now [] w i = i
  expire_each-IsTidy now (o ∷ l) w i =
      elim (Bool-cases (is_invalid (pair_from_rule o) || is_stale time cfg now o)) [
        | inl e ↦ rw e (expire_each-IsTidy now l _ (or_same-IsTidy o.rule.name w _ refl i))
        | inr e ↦ rw e (expire_each-IsTidy now l w i)
      ]

  expire_listed-IsTidy :
      (now : ℕ) (l : Option (List RuleObject)) (w : api.World)
      → IsTidy w
      → IsTidy (expire_listed api time cfg now l w)
  unfolding expire_listed
  expire_listed-IsTidy now none w i = i
  expire_listed-IsTidy now (some l) w i = expire_each-IsTidy now l w i

  pub expire_stale_rules-IsTidy :
      (now : ℕ) (w : api.World) → IsTidy w → IsTidy (expire_stale_rules api time cfg now w)
  unfolding expire_stale_rules
  expire_stale_rules-IsTidy now w i = expire_listed-IsTidy now (api.list_auto w) w i
