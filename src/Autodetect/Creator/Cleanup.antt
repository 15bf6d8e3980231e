-- ===== src/Autodetect/Creator/Cleanup.antt =====
-- The cleanup at the start of the detector, CleanupInvalidRules of internal/autodetect/creator.go.
use mathlib.Core.Bool.{false≢true, true≢false}
use mathlib.Core.List.{Memᴰ}
use rca_operator.Base.{
  String, ◌≡◌, refl, sym, ap, subst, ◌∙◌, inl, inr, ◌⊎◌, true, false, not, Option, none, some, List,
  [], ◌∷◌, All, filter_by, arith, Bool-cases, ◌==◌, eq_refl,
}
use rca_operator.Base.Members.{All-Memᴰ, All-within, filter_by-Memᴰ, Memᴰ-filter_by}
use rca_operator.Autodetect.Pattern.{EventPair, is_valid_scope_pair}
use rca_operator.Autodetect.Accumulator.{Config}
use rca_operator.Autodetect.Api.{RuleObject, RuleApi, RuleApiLaws, is_auto, with_name}
use rca_operator.Autodetect.Rule.{TimeFormat, pair_from_rule, lacks_valid_pair}
use rca_operator.Autodetect.Creator.{or_same, cleanup_each, cleanup_listed, cleanup_invalid_rules}
use rca_operator.Autodetect.Creator.Tidy.{IsTidyRule, IsTidy}

valid_pair :
    (o : Option EventPair)
    → lacks_valid_pair o ≡ false
    → (pair : EventPair) × (o ≡ some pair) × (is_valid_scope_pair pair ≡ true)
unfolding lacks_valid_pair
valid_pair none h = absurd (true≢false h)
valid_pair (some pair) h = (pair, refl, ground (arith, h))

module _ (api : RuleApi) (laws : RuleApiLaws api) (time : TimeFormat) (cfg : Config)
    (fails_only_absent : (name : String) (w : api.World)
      → api.delete name w ≡ none
      → All (λ o. with_name name o ≡ false) (laws.rules w)) where
  -- each rule of the cluster is tidy or still to be visited
  abbrev IsLeft : List RuleObject → api.World → Type 0
  IsLeft l w = (o : RuleObject) → Memᴰ o (laws.rules w) → IsTidyRule o ⊎ Memᴰ o l

  -- a rule of another name than the first one is tidy or behind it
  behind :
      (o p : RuleObject) (l : List RuleObject)
      → with_name o.rule.name p ≡ false
      → IsTidyRule p ⊎ Memᴰ p (o ∷ l)
      → IsTidyRule p ⊎ Memᴰ p l
  behind o p l differ (inl t) = inl t
  behind o p l differ (inr (Memᴰ.head e)) =
      absurd
        (false≢true (sym differ ∙ ap (λ x. x.rule.name == o.rule.name) e ∙ eq_refl o.rule.name))
  behind o p l differ (inr (Memᴰ.tail m)) = inr m

  or_same-IsLeft :
      (o : RuleObject) (l : List RuleObject) (w : api.World) (w' : Option api.World)
      → api.delete o.rule.name w ≡ w'
      → IsLeft (o ∷ l) w
      → IsLeft l (or_same api time cfg w w')
  unfolding or_same
  or_same-IsLeft o l w none e h p m =
      behind o p l
        (All-Memᴰ (λ x. with_name o.rule.name x ≡ false) _ p (fails_only_absent o.rule.name w e) m)
        (h p m)
  or_same-IsLeft o l w (some w') e h p m =
      let (held, other) =
        filter_by-Memᴰ (λ x. not (with_name o.rule.name x)) (laws.rules w) p
          (subst (Memᴰ p) (laws.delete_law o.rule.name w w' e) m) in
      behind o p l (ground (arith, other)) (h p held)

  -- a tidy rule is passed over
  passed_over :
      (o p : RuleObject) (l : List RuleObject)
      → IsTidyRule o
      → IsTidyRule p ⊎ Memᴰ p (o ∷ l)
      → IsTidyRule p ⊎ Memᴰ p l
  passed_over o p l h (inl t) = inl t
  passed_over o p l h (inr (Memᴰ.head e)) = inl (subst IsTidyRule (sym e) h)
  passed_over o p l h (inr (Memᴰ.tail m)) = inr m

  all_tidy : (o : RuleObject) → IsTidyRule o ⊎ Memᴰ o [] → IsTidyRule o
  all_tidy o (inl t) = t
  all_tidy o (inr m) = elim m [ ]

  cleanup_each-IsTidy :
      (l : List RuleObject) (w : api.World)
      → IsLeft l w
      → IsTidy api laws time cfg (cleanup_each api time cfg l w)
  unfolding cleanup_each
  cleanup_each-IsTidy [] w h = All-within IsTidyRule (laws.rules w) (λ o m. all_tidy o (h o m))
  cleanup_each-IsTidy (o ∷ l) w h = elim (Bool-cases (lacks_valid_pair (pair_from_rule o))) [
    | inl e ↦ rw e (cleanup_each-IsTidy l _ (or_same-IsLeft o l w _ refl h))
    | inr e ↦ rw e (
        cleanup_each-IsTidy l w
          (λ p m. passed_over o p l (λ _. valid_pair (pair_from_rule o) e) (h p m)))
  ]

  listed : (l : List RuleObject) (w : api.World) → l ≡ filter_by is_auto (laws.rules w) → IsLeft l w
  listed l w e p m = elim (Bool-cases (is_auto p)) [
    | inl a ↦ inr (subst (Memᴰ p) (sym e) (Memᴰ-filter_by is_auto (laws.rules w) p m a))
    | inr a ↦ inl (λ b. absurd (false≢true (sym a ∙ b)))
  ]

  -- Where the generated rules could be listed and a deletion fails only for a name that no rule has,
  -- the cleanup leaves no generated rule whose types do not fit its scope.
  pub cleanup_invalid_rules-IsTidy :
      (l : List RuleObject) (w : api.World)
      → api.list_auto w ≡ some l
      → IsTidy api laws time cfg (cleanup_invalid_rules api time cfg w)
  unfolding cleanup_invalid_rules cleanup_listed
  cleanup_invalid_rules-IsTidy l w e =
      rw e (cleanup_each-IsTidy l w (listed l w (laws.list_auto_law w l e)))
