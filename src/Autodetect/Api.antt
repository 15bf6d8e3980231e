-- ===== src/Autodetect/Api.antt =====
-- The Kubernetes client of internal/autodetect/creator.go, as a parameter. A call that fails returns
-- none and leaves the world as it was.
use mathlib.Core.List.{Memᴰ}
use rca_operator.Base.{
  ℕ, String, Bool, true, ◌≡◌, Option, some, List, [], ◌∷◌, ◌++◌, map, not, filter_by, if◌then◌else◌,
  ◌==◌,
}
use rca_operator.RuleEngine.Rule.{CorrelationRule}

-- the annotations that the detector writes; a missing one is read as the empty string
pub record RuleAnnotations : Type 0 where
  pub pattern_key : String
  pub occurrences : String
  pub first_seen : String
  pub last_seen : String

-- the resource with the rest of its metadata
pub record RuleObject : Type 0 where
  pub rule : CorrelationRule
  pub annotations : RuleAnnotations
  pub created_at : ℕ

pub record RuleApi : Type 1 where
  pub World : Type 0
  -- List with the label selector of the generated rules, and List of all
  pub list_auto : World → Option (List RuleObject)
  pub list_all : World → Option (List RuleObject)
  pub get : String → World → Option RuleObject
  pub create : RuleObject → World → Option World
  pub update : RuleObject → World → Option World
  -- the deletion of a name
  pub delete : String → World → Option World

abbrev pub with_name : String → RuleObject → Bool
with_name name o = o.rule.name == name

abbrev pub is_auto : RuleObject → Bool
is_auto o = o.rule.auto_generated

abbrev pub replaced_by : RuleObject → RuleObject → RuleObject
replaced_by o x = if with_name o.rule.name x then o else x

-- What the creator relies on: the calls read and write one collection of rules, whose names differ.
pub record RuleApiLaws (api : RuleApi) : Type 0 where
  pub rules : api.World → List RuleObject
  pub names_differ :
      (w : api.World) (o p : RuleObject)
      → Memᴰ o (rules w)
      → Memᴰ p (rules w)
      → with_name o.rule.name p ≡ true
      → p ≡ o
  pub list_auto_law :
      (w : api.World) (l : List RuleObject)
      → api.list_auto w ≡ some l
      → l ≡ filter_by is_auto (rules w)
  pub get_law :
      (name : String) (w : api.World) (o : RuleObject) → api.get name w ≡ some o → Memᴰ o (rules w)
  pub create_law :
      (o : RuleObject) (w w' : api.World) → api.create o w ≡ some w' → rules w' ≡ rules w ++ o ∷ []
  pub update_law :
      (o : RuleObject) (w w' : api.World)
      → api.update o w ≡ some w'
      → rules w' ≡ map (replaced_by o) (rules w)
  pub delete_law :
      (name : String) (w w' : api.World)
      → api.delete name w ≡ some w'
      → rules w' ≡ filter_by (λ o. not (with_name name o)) (rules w)
