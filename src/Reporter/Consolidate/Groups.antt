-- ===== src/Reporter/Consolidate/Groups.antt =====
-- The groups of reports that Consolidate of internal/reporter/cr_reporter.go builds.
use mathlib.Core.List.{Memᴰ}
use rca_operator.Base.Members.{Memᴰ-append_left, Memᴰ-append_last}
use rca_operator.Base.{
  String, ◌≡◌, refl, sym, subst, ◌∙◌, inl, inr, true, false, Option, none, some, List, [], ◌∷◌, All,
  All-append, ltb, arith, Bool-cases, ◌==◌, eq_iff, eq_refl,
}
use rca_operator.Base.Entries.{Entries, put-Entries, lookup-Entries}
use rca_operator.Base.Maps.{Map, lookup, put, lookup-put}
use rca_operator.Incident.Report.{IncidentReport}
use rca_operator.Reporter.Consolidate.{Group, group_key, grow, grown, is_skipped, group_reports}

module _ (l : List IncidentReport) where
  -- a listed report that is open, has a fingerprint and belongs under a key
  abbrev pub IsMember : String → IncidentReport → Type 0
  IsMember k r = Memᴰ r l × (is_skipped r ≡ false) × (group_key r ≡ k)

  -- The canonical report and the extras are such reports, and no extra was created before it.
  pub record IsGroup (k : String) (g : Group) : Type 0 where
    pub canonical_member : IsMember k g.canonical
    pub extra_members : All (IsMember k) g.extras
    pub oldest : All (λ r. ltb r.created g.canonical.created ≡ false) g.extras

  All-older :
      (a b : IncidentReport) (rs : List IncidentReport)
      → ltb a.created b.created ≡ true
      → All (λ r. ltb r.created b.created ≡ false) rs
      → All (λ r. ltb r.created a.created ≡ false) rs
  All-older a b [] h k = tt
  All-older a b (r ∷ rs) h k = (ground (arith, h, k.0), All-older a b rs h k.1)

  grow-IsGroup :
      (k : String) (r : IncidentReport) (g : Group)
      → IsMember k r
      → IsGroup k g
      → IsGroup k (grow r g)
  unfolding grow
  grow-IsGroup k r g m h = elim (Bool-cases (ltb r.created g.canonical.created)) [
    | inl e ↦ rw e (record {
      canonical_member = m;
      extra_members =
          All-append (IsMember k) g.extras (_ ∷ []) h.extra_members (h.canonical_member, tt);
      oldest =
          All-append _ g.extras (_ ∷ []) (All-older r g.canonical g.extras e h.oldest)
            (ground (arith, e), tt);
    })
    | inr e ↦ rw e (record {
      canonical_member = h.canonical_member;
      extra_members = All-append (IsMember k) g.extras (_ ∷ []) h.extra_members (m, tt);
      oldest = All-append _ g.extras (_ ∷ []) h.oldest (e, tt);
    })
  ]

  grown-IsGroup :
      (r : IncidentReport) (groups : Map Group) (o : Option Group)
      → lookup (group_key r) groups ≡ o
      → IsMember (group_key r) r
      → Entries IsGroup groups
      → IsGroup (group_key r) (grown r o)
  unfolding grown
  grown-IsGroup r groups none e m h = record {
    canonical_member = m;
    extra_members = tt;
    oldest = tt;
  }
  grown-IsGroup r groups (some g) e m h =
      grow-IsGroup (group_key r) r g m (lookup-Entries IsGroup (group_key r) g groups h e)

  group_reports-Entries :
      (items : List IncidentReport) (groups : Map Group)
      → ((r : IncidentReport) → Memᴰ r items → Memᴰ r l)
      → Entries IsGroup groups
      → Entries IsGroup (group_reports items groups)
  unfolding group_reports
  group_reports-Entries [] groups within h = h
  group_reports-Entries (r ∷ items) groups within h = elim (Bool-cases (is_skipped r)) [
    | inl e ↦ rw e (group_reports-Entries items groups (λ x m. within x (Memᴰ.tail m)) h)
    | inr e ↦ rw e (
        group_reports-Entries items _ (λ x m. within x (Memᴰ.tail m))
          (put-Entries IsGroup (group_key r) _ groups
            (grown-IsGroup r groups _ refl (within r (Memᴰ.head refl), e, refl) h) h))
  ]

-- the report is in the group of its key
abbrev pub IsGrouped : Map Group → IncidentReport → Type 0
IsGrouped groups r =
    (g : Group) × (lookup (group_key r) groups ≡ some g) × Memᴰ r (g.canonical ∷ g.extras)

-- the new report is in the grown group, and so are those of before
grow_new : (r : IncidentReport) (g : Group) → Memᴰ r ((grow r g).canonical ∷ (grow r g).extras)
unfolding grow
grow_new r g = elim (Bool-cases (ltb r.created g.canonical.created)) [
  | inl e ↦ rw e (Memᴰ.head refl)
  | inr e ↦ rw e (Memᴰ.tail (Memᴰ-append_last r r g.extras refl))
]

grow_old :
    (r x : IncidentReport) (g : Group)
    → Memᴰ x (g.canonical ∷ g.extras)
    → Memᴰ x ((grow r g).canonical ∷ (grow r g).extras)
unfolding grow
grow_old r x g (Memᴰ.head q) = elim (Bool-cases (ltb r.created g.canonical.created)) [
  | inl e ↦ rw e (Memᴰ.tail (Memᴰ-append_last x g.canonical g.extras q))
  | inr e ↦ rw e (Memᴰ.head q)
]
grow_old r x g (Memᴰ.tail m) = elim (Bool-cases (ltb r.created g.canonical.created)) [
  | inl e ↦ rw e (Memᴰ.tail (Memᴰ-append_left x g.extras _ m))
  | inr e ↦ rw e (Memᴰ.tail (Memᴰ-append_left x g.extras _ m))
]

grown_new :
    (r : IncidentReport) (o : Option Group) → Memᴰ r ((grown r o).canonical ∷ (grown r o).extras)
unfolding grown
grown_new r none = Memᴰ.head refl
grown_new r (some g) = grow_new r g

added_new :
    (r : IncidentReport) (groups : Map Group)
    → IsGrouped (put (group_key r) (grown r (lookup (group_key r) groups)) groups) r
added_new r groups = (
  _,
  lookup-put (group_key r) (group_key r) _ groups ∙ rw (eq_refl (group_key r)) refl,
  grown_new r (lookup (group_key r) groups),
)

added_old :
    (r x : IncidentReport) (groups : Map Group)
    → IsGrouped groups x
    → IsGrouped (put (group_key r) (grown r (lookup (group_key r) groups)) groups) x
unfolding grown
added_old r x groups (g, e, m) = elim (Bool-cases (group_key r == group_key x)) [
  | inl same ↦
      let found : lookup (group_key r) groups ≡ some g =
        rw ((eq_iff (group_key r) (group_key x)).0 same) e in
      (
        grow r g,
        rw found (lookup-put (group_key r) (group_key x) (grow r g) groups ∙ rw same refl),
        grow_old r x g m,
      )
  | inr other ↦ (g, lookup-put (group_key r) (group_key x) _ groups ∙ rw other e, m)
]

group_reports_keeps :
    (x : IncidentReport) (items : List IncidentReport) (groups : Map Group)
    → IsGrouped groups x
    → IsGrouped (group_reports items groups) x
unfolding group_reports
group_reports_keeps x [] groups h = h
group_reports_keeps x (r ∷ items) groups h = elim (Bool-cases (is_skipped r)) [
  | inl e ↦ rw e (group_reports_keeps x items groups h)
  | inr e ↦ rw e (group_reports_keeps x items _ (added_old r x groups h))
]

group_reports-IsGrouped :
    (x : IncidentReport) (items : List IncidentReport) (groups : Map Group)
    → Memᴰ x items
    → is_skipped x ≡ false
    → IsGrouped (group_reports items groups) x
unfolding group_reports
group_reports-IsGrouped x [] groups m h = elim m [ ]
group_reports-IsGrouped x (r ∷ items) groups (Memᴰ.head q) h =
    let kept : is_skipped r ≡ false = subst (λ y. is_skipped y ≡ false) q h in
    rw kept (group_reports_keeps x items _ (subst (IsGrouped _) (sym q) (added_new r groups)))
group_reports-IsGrouped x (r ∷ items) groups (Memᴰ.tail m) h = elim (Bool-cases (is_skipped r)) [
  | inl e ↦ rw e (group_reports-IsGrouped x items groups m h)
  | inr e ↦ rw e (group_reports-IsGrouped x items _ m h)
]

-- Consolidate puts every listed report that is open and has a fingerprint into the group of its
-- namespace and fingerprint. All groups have only such reports, and no extra of a group was created
-- before the report that is kept.
pub group_reports-IsGroup :
    (l : List IncidentReport) (r : IncidentReport)
    → Memᴰ r l
    → is_skipped r ≡ false
    → IsGrouped (group_reports l []) r × Entries (IsGroup l) (group_reports l [])
group_reports-IsGroup l r m h =
    (group_reports-IsGrouped r l [] m h, group_reports-Entries l l [] (λ x k. k) tt)
