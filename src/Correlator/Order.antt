-- ===== src/Correlator/Order.antt =====
-- The order of rules that internal/correlator and internal/rulengine sort by: the higher priority
-- first, and the name where the priorities are equal.
use rca_operator.Base.{ℕ, ◌≤◌, String, ◌≡◌, Bool, true, false, arith, ltb, nat_eq, if◌then◌else◌}
use rca_operator.Base.Sort.{IsLess}
use rca_operator.Base.Texts.{str_lt, str_lt_irrefl, str_lt_asym, str_lt_weak}

module _ {ℓ} {A : Type ℓ} (priority : A → ℕ) (name : A → String) where
  -- the `less` function of the calls of sort.SliceStable
  unfoldable pub rule_less : A → A → Bool
  rule_less a b =
      if nat_eq (priority a) (priority b)
      then str_lt (name a) (name b)
      else ltb (priority b) (priority a)

  rule_less_irrefl : (a : A) → rule_less a a ≡ false
  unfolding rule_less
  rule_less_irrefl a = ground (arith, str_lt_irrefl (name a))

  rule_less_asym : (a b : A) → rule_less a b ≡ true → rule_less b a ≡ false
  unfolding rule_less
  rule_less_asym a b h = ground (arith, str_lt_asym (name a) (name b))

  rule_less_weak :
      (a b c : A) → rule_less b a ≡ false → rule_less c b ≡ false → rule_less c a ≡ false
  unfolding rule_less
  rule_less_weak a b c h k = ground (arith, str_lt_weak (name a) (name b) (name c))

  pub rule_less-IsLess : IsLess rule_less
  rule_less-IsLess = record {
    irrefl = rule_less_irrefl;
    asym = rule_less_asym;
    weak = rule_less_weak;
  }

  -- A rule that is not less has no higher priority.
  pub rule_less-priority : (a b : A) → rule_less a b ≡ false → priority a ≤ priority b
  unfolding rule_less
  rule_less-priority a b h = ground arith
