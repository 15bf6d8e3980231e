-- ===== src/Reporter/Consolidate/Quiet.antt =====
-- Consolidate of internal/reporter/cr_reporter.go in a cluster that is sound: it finds nothing to
-- merge and writes nothing.
use Prim.Native.String.{◌++◌ as ◌joined◌, ◌∷◌ as ◌then_text◌}
use text.Mathlib.TextLemmas.{nil-append, cons-append}
use mathlib.Core.List.{Memᴰ}
use mathlib.Core.Bool.{false≢true}
use rca_operator.Base.{
  ℕ, String, Bool, ◌≡◌, refl, sym, ap, ◌∙◌, inl, inr, true, false, Option, none, some, List, [],
  ◌∷◌, All, Bool-cases, ◌||◌, ne→eq,
}
use rca_operator.Base.Entries.{Entries, put-Entries, lookup-Entries, Entries-map}
use rca_operator.Base.Join.{lacks, split_at_separator}
use rca_operator.Base.Maps.{Map, lookup}
use rca_operator.Base.Members.{All-Memᴰ}
use rca_operator.Incident.Report.{IncidentReport}
use rca_operator.Reporter.Api.{Api, ApiLaws, same_object}
use rca_operator.Reporter.Consolidate.{
  Group, group_key, grown, is_skipped, group_reports, backfill, merge_group, consolidate_group,
  consolidate_groups, consolidate_listed, consolidate,
}
use rca_operator.Reporter.Evolution.{IsDistinct}
use rca_operator.Reporter.Fingerprint.{report_fingerprint}
use rca_operator.Reporter.State.{State}
use rca_operator.Reporter.Unique.{IsSound, IsCurrent, report_fingerprint-IsCurrent}

-- a namespace has no slash, so that a key determines it
abbrev pub HasPlainNamespace : IncidentReport → Type 0
HasPlainNamespace r = lacks "/" r.namespace ≡ true

group_key_shape :
    (x : IncidentReport) → group_key x ≡ x.namespace joined ("/" then_text report_fingerprint x)
unfolding group_key
group_key_shape x =
    ap (λ z. x.namespace joined z)
      (cons-append "/" "" (report_fingerprint x)
        ∙ ap (λ z. "/" then_text z) (nil-append (report_fingerprint x)))

group_key_parts :
    (x y : IncidentReport)
    → HasPlainNamespace x
    → HasPlainNamespace y
    → group_key x ≡ group_key y
    → (x.namespace ≡ y.namespace) × (report_fingerprint x ≡ report_fingerprint y)
group_key_parts x y h k e =
    split_at_separator "/" x.namespace y.namespace _ _ h k
      (sym (group_key_shape x) ∙ e ∙ group_key_shape y)

or_left : (a b : Bool) → (a || b) ≡ false → a ≡ false
or_left true b h = h
or_left false b h = refl

module _ (hash : String → String) (l : List IncidentReport) (sound : IsSound hash l)
    (plain : All HasPlainNamespace l) where
  -- A group of one listed report, which none of the reports to come is.
  record IsLone (items : List IncidentReport) (k : String) (g : Group) : Type 0 where
    member : Memᴰ g.canonical l
    opened : is_skipped g.canonical ≡ false
    keyed : group_key g.canonical ≡ k
    alone : g.extras ≡ []
    apart : All (λ y. same_object g.canonical y ≡ false) items

  same_key_same_object :
      (x y : IncidentReport)
      → Memᴰ x l
      → Memᴰ y l
      → is_skipped x ≡ false
      → is_skipped y ≡ false
      → group_key x ≡ group_key y
      → same_object x y ≡ true
  unfolding is_skipped
  same_key_same_object x y m n h k e =
      let (place, identity) =
        group_key_parts x y (All-Memᴰ HasPlainNamespace l x plain m)
          (All-Memᴰ HasPlainNamespace l y plain n) e in
      sound.unique x y m n (or_left _ _ h) (record {
        unresolved = or_left _ _ k;
        place = sym place;
        identity =
            sym (report_fingerprint-IsCurrent hash y (sound.current y n))
            ∙ sym identity
            ∙ report_fingerprint-IsCurrent hash x (sound.current x m);
      })

  group_reports-IsLone :
      (items : List IncidentReport) (groups : Map Group)
      → ((r : IncidentReport) → Memᴰ r items → Memᴰ r l)
      → IsDistinct items
      → Entries (IsLone items) groups
      → Entries (IsLone []) (group_reports items groups)
  unfolding group_reports grown
  group_reports-IsLone [] groups within d h = h
  group_reports-IsLone (r ∷ items) groups within d h =
      let rest = λ (x : IncidentReport) (m : Memᴰ x items). within x (Memᴰ.tail m) in
      let kept : Entries (IsLone items) groups =
        Entries-map (IsLone (r ∷ items)) groups (λ k g i. passed k g i) h in
      elim (Bool-cases (is_skipped r)) [
        | inl e ↦ rw e (group_reports-IsLone items groups rest d.1 kept)
        | inr e ↦ rw e (
            group_reports-IsLone items _ rest d.1 (
              put-Entries (IsLone items) (group_key r) _ groups
                (grown-IsLone (lookup (group_key r) groups) refl e) kept))
      ]
    where
      passed : (k : String) (g : Group) → IsLone (r ∷ items) k g → IsLone items k g
      passed k g i = record {
        member = i.member;
        opened = i.opened;
        keyed = i.keyed;
        alone = i.alone;
        apart = i.apart.1;
      }

      grown-IsLone :
          (o : Option Group)
          → lookup (group_key r) groups ≡ o
          → is_skipped r ≡ false
          → IsLone items (group_key r) (grown r o)
      grown-IsLone none e f = record {
        member = within r (Memᴰ.head refl);
        opened = f;
        keyed = refl;
        alone = refl;
        apart = d.0;
      }
      grown-IsLone (some g) e f =
          let i = lookup-Entries (IsLone (r ∷ items)) (group_key r) g groups h e in
          absurd (
            false≢true (
              sym i.apart.0
              ∙ same_key_same_object g.canonical r i.member (within r (Memᴰ.head refl)) i.opened f
                  i.keyed))

module _ (api : Api) where
  consolidate_group-world :
      (hash : String → String) (now : ℕ) (g : Group) (s : State api)
      → IsCurrent hash g.canonical
      → g.extras ≡ []
      → (consolidate_group api now g s).world ≡ s.world
  unfolding consolidate_group backfill merge_group
  consolidate_group-world hash now g s current alone =
      rw (alone, ne→eq g.canonical.spec.fingerprint "" current.has_fingerprint) refl

  consolidate_groups-world :
      (hash : String → String) (l : List IncidentReport) (sound : IsSound hash l)
      (plain : All HasPlainNamespace l) (now : ℕ) (groups : Map Group) (s : State api)
      → Entries (IsLone hash l sound plain []) groups
      → (consolidate_groups api now groups s).world ≡ s.world
  unfolding consolidate_groups
  consolidate_groups-world hash l sound plain now [] s h = refl
  consolidate_groups-world hash l sound plain now ((k, g) ∷ groups) s h =
      consolidate_groups-world hash l sound plain now groups _ h.1
      ∙ consolidate_group-world hash now g s (sound.current g.canonical h.0.member) h.0.alone

  consolidate_listed-world :
      (laws : ApiLaws api) (hash : String → String) (now : ℕ) (o : Option (List IncidentReport))
      (s : State api)
      → api.list_all s.world ≡ o
      → IsSound hash (laws.reports s.world)
      → IsDistinct (laws.reports s.world)
      → All HasPlainNamespace (laws.reports s.world)
      → (consolidate_listed api now o s).0.world ≡ s.world
  unfolding consolidate_listed
  consolidate_listed-world laws hash now none s e sound distinct plain = refl
  consolidate_listed-world laws hash now (some l) s e sound distinct plain =
      let q = laws.list_all_law s.world l e in
      rw q (
        consolidate_groups-world hash (laws.reports s.world) sound plain now
          (group_reports (laws.reports s.world) []) s
          (group_reports-IsLone hash (laws.reports s.world) sound plain (laws.reports s.world) []
            (λ r m. m) distinct tt))

  -- Where the stored reports are sound and distinct and no namespace has a slash, Consolidate changes
  -- none of them, also where an API call fails.
  pub consolidate-world :
      (laws : ApiLaws api) (hash : String → String) (now : ℕ) (s : State api)
      → IsSound hash (laws.reports s.world)
      → IsDistinct (laws.reports s.world)
      → All HasPlainNamespace (laws.reports s.world)
      → (consolidate api now s).0.world ≡ s.world
  unfolding consolidate
  consolidate-world laws hash now s =
      consolidate_listed-world laws hash now (api.list_all s.world) s refl
