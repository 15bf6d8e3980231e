-- ===== src/Reporter/Evolution.antt =====
-- How the stored reports evolve where no report is created and none gets another identity: one by
-- one, each keeps its object, its spec and its labels, and moves forward in its phases.
pub mod Patches
pub mod Pods
pub mod Closing
use Prim.Native.String.{String}
use mathlib.Core.List.{Memᴰ}
use mathlib.Core.List.Memᴰ
use mathlib.Core.Bool.{false≢true}
use rca_operator.Base.{
  ◌≡◌, refl, sym, ap, subst, ◌∙◌, Bool, true, false, List, [], ◌∷◌, map, All, Bool-cases, inl, inr,
  if◌then◌else◌, ◌==◌, ◌&&◌, arith, eq_iff, path→eq,
}
use rca_operator.Base.Members.{All-Memᴰ}
use rca_operator.Incident.Report.{IncidentReport}
use rca_operator.Incident.Status.{phase_detecting, phase_active, phase_resolved}
use rca_operator.Reporter.Api.{same_object, with_meta, with_status}
use rca_operator.Reporter.Find.{is_resolved}
use rca_operator.Reporter.Unique.{
  IsCurrent, IsSound, IsOpenAs, same_object_sym, same_object_meet, same_object_refl,
}

-- The steps of the lifecycle: a phase stays, an incident under detection becomes active, and any
-- incident is resolved. Nothing leaves the phase Resolved.
pub data Moves (p q : String) : Type 0 where
  stays : p ≡ q → Moves p q
  activates : p ≡ phase_detecting → q ≡ phase_active → Moves p q
  resolves : q ≡ phase_resolved → Moves p q

phases_differ : (p q s : String) → (p == q) ≡ false → s ≡ p → ¬ (s ≡ q)
phases_differ p q s h e k = false≢true (sym h ∙ path→eq p q (sym e ∙ k))

pub Moves-trans : (p q r : String) → Moves p q → Moves q r → Moves p r
Moves-trans p q r (stays e) m = subst (λ z. Moves z r) (sym e) m
Moves-trans p q r (activates e k) (stays f) = activates e (sym f ∙ k)
Moves-trans p q r (activates e k) (activates f g) =
    absurd (phases_differ phase_active phase_detecting q refl k f)
Moves-trans p q r (activates e k) (resolves f) = resolves f
Moves-trans p q r (resolves e) (stays f) = resolves (sym f ∙ e)
Moves-trans p q r (resolves e) (activates f g) =
    absurd (phases_differ phase_resolved phase_detecting q refl e f)
Moves-trans p q r (resolves e) (resolves f) = resolves f

pub Moves-resolved : (p q : String) → Moves p q → p ≡ phase_resolved → q ≡ phase_resolved
Moves-resolved p q (stays e) h = sym e ∙ h
Moves-resolved p q (activates e k) h =
    absurd (phases_differ phase_resolved phase_detecting p refl h e)
Moves-resolved p q (resolves e) h = e

-- One report and what became of it.
pub record IsStep (x x' : IncidentReport) : Type 0 where
  pub place : x'.namespace ≡ x.namespace
  pub title : x'.name ≡ x.name
  pub spec : x'.spec ≡ x.spec
  pub labels : x'.labels ≡ x.labels
  pub moves : Moves x.status.phase x'.status.phase

abbrev pub Evolves : List IncidentReport → List IncidentReport → Type 0
Evolves [] [] = Unit
Evolves [] (x' ∷ l') = ⊥
Evolves (x ∷ l) [] = ⊥
Evolves (x ∷ l) (x' ∷ l') = IsStep x x' × Evolves l l'

pub Evolves-refl : (l : List IncidentReport) → Evolves l l
Evolves-refl [] = tt
Evolves-refl (x ∷ l) = (
  record { place = refl; title = refl; spec = refl; labels = refl; moves = stays refl },
  Evolves-refl l,
)

pub Evolves-trans : (l m n : List IncidentReport) → Evolves l m → Evolves m n → Evolves l n
Evolves-trans [] [] [] h k = tt
Evolves-trans [] [] (z ∷ n) h k = k
Evolves-trans [] (y ∷ m) n h k = absurd h
Evolves-trans (x ∷ l) [] n h k = absurd h
Evolves-trans (x ∷ l) (y ∷ m) [] h k = absurd k
Evolves-trans (x ∷ l) (y ∷ m) (z ∷ n) (s, h) (t, k) = (
  record {
    place = t.place ∙ s.place;
    title = t.title ∙ s.title;
    spec = t.spec ∙ s.spec;
    labels = t.labels ∙ s.labels;
    moves = Moves-trans x.status.phase y.status.phase z.status.phase s.moves t.moves;
  },
  Evolves-trans l m n h k,
)

pub Evolves-map :
    (f : IncidentReport → IncidentReport) (l : List IncidentReport)
    → ((x : IncidentReport) → Memᴰ x l → IsStep x (f x))
    → Evolves l (map f l)
Evolves-map f [] h = tt
Evolves-map f (x ∷ l) h = (h x (Memᴰ.head refl), Evolves-map f l (λ y m. h y (Memᴰ.tail m)))

pub Evolves-origin :
    (l l' : List IncidentReport) (x' : IncidentReport)
    → Evolves l l'
    → Memᴰ x' l'
    → (x : IncidentReport) × Memᴰ x l × IsStep x x'
Evolves-origin [] [] x' h m = elim m [ ]
Evolves-origin [] (y ∷ l') x' h m = absurd h
Evolves-origin (x ∷ l) [] x' h m = absurd h
Evolves-origin (x ∷ l) (y ∷ l') x' (s, h) (Memᴰ.head e) =
    (x, Memᴰ.head refl, subst (IsStep x) (sym e) s)
Evolves-origin (x ∷ l) (y ∷ l') x' (s, h) (Memᴰ.tail m) =
    let (z, k, t) = Evolves-origin l l' x' h m in (z, Memᴰ.tail k, t)

pub Evolves-descendant :
    (l l' : List IncidentReport) (x : IncidentReport)
    → Evolves l l'
    → Memᴰ x l
    → (x' : IncidentReport) × Memᴰ x' l' × IsStep x x'
Evolves-descendant [] l' x h m = elim m [ ]
Evolves-descendant (y ∷ l) [] x h m = absurd h
Evolves-descendant (y ∷ l) (y' ∷ l') x (s, h) (Memᴰ.head e) =
    (y', Memᴰ.head refl, subst (λ z. IsStep z y') (sym e) s)
Evolves-descendant (y ∷ l) (y' ∷ l') x (s, h) (Memᴰ.tail m) =
    let (z, k, t) = Evolves-descendant l l' x h m in (z, Memᴰ.tail k, t)

-- Two stored reports are two objects.
abbrev pub IsDistinct : List IncidentReport → Type 0
IsDistinct [] = Unit
IsDistinct (x ∷ l) = All (λ y. same_object x y ≡ false) l × IsDistinct l

pub IsDistinct-one :
    (l : List IncidentReport) (x y : IncidentReport)
    → IsDistinct l
    → Memᴰ x l
    → Memᴰ y l
    → same_object x y ≡ true
    → x ≡ y
IsDistinct-one [] x y d m k h = elim m [ ]
IsDistinct-one (z ∷ l) x y d (Memᴰ.head e) (Memᴰ.head f) h = e ∙ sym f
IsDistinct-one (z ∷ l) x y d (Memᴰ.head e) (Memᴰ.tail k) h = absurd (
    false≢true (
      sym (All-Memᴰ (λ w. same_object z w ≡ false) l y d.0 k)
      ∙ ap (λ w. same_object w y) (sym e)
      ∙ h))
IsDistinct-one (z ∷ l) x y d (Memᴰ.tail m) (Memᴰ.head f) h = absurd (
    false≢true (
      sym (All-Memᴰ (λ w. same_object z w ≡ false) l x d.0 m)
      ∙ ap (λ w. same_object w x) (sym f)
      ∙ same_object_sym x y h))
IsDistinct-one (z ∷ l) x y d (Memᴰ.tail m) (Memᴰ.tail k) h = IsDistinct-one l x y d.1 m k h

pub step_same :
    (x x' y y' : IncidentReport) → IsStep x x' → IsStep y y' → same_object x' y' ≡ same_object x y
step_same x x' y y' s t = rw (s.place, s.title, t.place, t.title) refl

All-Evolves :
    (x x' : IncidentReport) (l l' : List IncidentReport)
    → IsStep x x'
    → Evolves l l'
    → All (λ y. same_object x y ≡ false) l
    → All (λ y. same_object x' y ≡ false) l'
All-Evolves x x' [] [] s h a = tt
All-Evolves x x' [] (y' ∷ l') s h a = absurd h
All-Evolves x x' (y ∷ l) [] s h a = absurd h
All-Evolves x x' (y ∷ l) (y' ∷ l') s (t, h) (a, b) =
    (step_same x x' y y' s t ∙ a, All-Evolves x x' l l' s h b)

pub IsDistinct-Evolves : (l l' : List IncidentReport) → Evolves l l' → IsDistinct l → IsDistinct l'
IsDistinct-Evolves [] [] h d = tt
IsDistinct-Evolves [] (x' ∷ l') h d = absurd h
IsDistinct-Evolves (x ∷ l) [] h d = absurd h
IsDistinct-Evolves (x ∷ l) (x' ∷ l') (s, h) (a, d) =
    (All-Evolves x x' l l' s h a, IsDistinct-Evolves l l' h d)
