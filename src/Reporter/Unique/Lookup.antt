-- ===== src/Reporter/Unique/Lookup.antt =====
-- What the lookups of Reporter/Find.antt say of the collection of reports.
use mathlib.Core.List.{Memᴰ}
use rca_operator.Base.{
  ℕ, String, ◌≡◌, refl, sym, ap, subst, ◌∙◌, Bool, true, false, not, ◌&&◌, Option, none, some, List,
  [], ◌∷◌, find_by, Bool-cases, Option-cases, ◌⊎◌, inl, inr, arith, ◌==◌, if◌then◌else◌, path→eq,
  eq→path, and-left,
}
use rca_operator.Base.Members.{find_by-some, find_by-absent, filter_by-Memᴰ, Memᴰ-filter_by}
use mathlib.Core.Option.{some-injective, none-ne-some}
use rca_operator.Base.Maps.{lookup}
use rca_operator.Incident.Report.{IncidentObjectRef, IncidentReport}
use rca_operator.Reporter.Api.{Api, ApiLaws}
use rca_operator.Reporter.Fingerprint.{report_fingerprint}
use rca_operator.Reporter.Find.{
  is_resolved, is_open_for, latest_resolved, report_matches_workload_ref, latest_matching,
  existing_in, list_candidates, cached_open, scan_open, find_open_incident,
  find_resolvable_incident, find_existing_by_workload_ref,
}
use rca_operator.Reporter.State.{absent, present, State}
use rca_operator.Reporter.Unique.{IsCurrent, IsOpenAs, report_fingerprint-IsCurrent}

-- a loop that keeps the best report so far
kept_best :
    (b : Bool) (q r : IncidentReport) (best : Option IncidentReport) (rs : List IncidentReport)
    → ((if b then some q else best) ≡ some r) ⊎ Memᴰ r rs
    → (best ≡ some r) ⊎ Memᴰ r (q ∷ rs)
kept_best true q r best rs (inl e) = inr (Memᴰ.head (sym (some-injective q r e)))
kept_best false q r best rs (inl e) = inl e
kept_best b q r best rs (inr m) = inr (Memᴰ.tail m)

latest_resolved-Memᴰ :
    (now : ℕ) (fp : String) (rs : List IncidentReport) (best : Option IncidentReport)
    (r : IncidentReport)
    → latest_resolved now fp best rs ≡ some r
    → (best ≡ some r) ⊎ Memᴰ r rs
unfolding latest_resolved
latest_resolved-Memᴰ now fp [] best r h = inl h
latest_resolved-Memᴰ now fp (q ∷ rs) best r h =
    kept_best _ q r best rs (latest_resolved-Memᴰ now fp rs _ r h)

latest_matching-Memᴰ :
    (matches : IncidentReport → Bool) (rs : List IncidentReport) (best : Option IncidentReport)
    (r : IncidentReport)
    → latest_matching matches best rs ≡ some r
    → (best ≡ some r) ⊎ Memᴰ r rs
unfolding latest_matching
latest_matching-Memᴰ matches [] best r h = inl h
latest_matching-Memᴰ matches (q ∷ rs) best r h =
    kept_best _ q r best rs (latest_matching-Memᴰ matches rs _ r h)

existing_in-Memᴰ :
    (w : IncidentObjectRef) (incoming : String) (rs : List IncidentReport) (r : IncidentReport)
    → existing_in w incoming rs ≡ some r
    → Memᴰ r rs
unfolding existing_in
existing_in-Memᴰ w incoming rs r h =
    let matches : IncidentReport → Bool = λ q. report_matches_workload_ref q w incoming in
    let open_one : IncidentReport → Bool = λ q. matches q && not (is_resolved q) in
    elim (Option-cases (find_by open_one rs)) [
      | inl no_open ↦ elim (latest_matching-Memᴰ matches rs none r (ground (arith, no_open))) [
        | inl e ↦ absurd (none-ne-some r e)
        | inr m ↦ m
      ]
      | inr (q, an_open) ↦ (find_by-some open_one rs r (ground (arith, an_open))).0
    ]

module _ (api : Api) where
  -- the list by hash, or the list of the namespace where that is empty
  list_candidates-cases :
      (ns h : String) (w : api.World) (l : List IncidentReport)
      → list_candidates api ns h w ≡ some l
      → (api.list_hash ns h w ≡ some l)
        ⊎ ((api.list_hash ns h w ≡ some []) × (api.list ns w ≡ some l))
  unfolding list_candidates
  list_candidates-cases ns h w l e = by_hash (api.list_hash ns h w) refl e
    where
      by_hash :
          (o : Option (List IncidentReport))
          → api.list_hash ns h w ≡ o
          → (elim o [ none ↦ none | some [] ↦ api.list ns w | some (r ∷ rs) ↦ some (r ∷ rs) ])
            ≡ some l
          → (api.list_hash ns h w ≡ some l)
            ⊎ ((api.list_hash ns h w ≡ some []) × (api.list ns w ≡ some l))
      by_hash none k e = absurd (none-ne-some l e)
      by_hash (some []) k e = inr (k, e)
      by_hash (some (r ∷ rs)) k e = inl (k ∙ e)

module _ (api : Api) (laws : ApiLaws api) (hash : String → String) where
  abbrev in_namespace : String → IncidentReport → Bool
  in_namespace ns r = r.namespace == ns

  abbrev labelled : String → String → IncidentReport → Bool
  labelled ns h r = (r.namespace == ns) && (r.labels.fingerprint_hash == h)

  list-Memᴰ :
      (ns : String) (w : api.World) (l : List IncidentReport) (r : IncidentReport)
      → api.list ns w ≡ some l
      → Memᴰ r l
      → Memᴰ r (laws.reports w) × (r.namespace ≡ ns)
  list-Memᴰ ns w l r e m =
      let (a, b) =
        filter_by-Memᴰ (in_namespace ns) (laws.reports w) r
          (subst (λ z. Memᴰ r z) (laws.list_law ns w l e) m) in
      (a, eq→path r.namespace ns b)

  -- both lists that findOpenIncident reads are parts of the namespace's reports
  list_candidates-Memᴰ :
      (ns h : String) (w : api.World) (l : List IncidentReport) (r : IncidentReport)
      → list_candidates api ns h w ≡ some l
      → Memᴰ r l
      → Memᴰ r (laws.reports w) × (r.namespace ≡ ns)
  list_candidates-Memᴰ ns h w l r e m = elim (list_candidates-cases api ns h w l e) [
    | inl by_hash ↦
        let (a, b) =
          filter_by-Memᴰ (labelled ns h) (laws.reports w) r
            (subst (λ z. Memᴰ r z) (laws.list_hash_law ns h w l by_hash) m) in
        (a, eq→path r.namespace ns (and-left _ _ b))
    | inr (none_by_hash, all) ↦ list-Memᴰ ns w l r all m
  ]

  -- every report with the fingerprint's hash is among those that are read
  list_candidates-complete :
      (ns h : String) (w : api.World) (l : List IncidentReport) (r : IncidentReport)
      → list_candidates api ns h w ≡ some l
      → Memᴰ r (laws.reports w)
      → r.namespace ≡ ns
      → r.labels.fingerprint_hash ≡ h
      → Memᴰ r l
  list_candidates-complete ns h w l r e m p q =
      let here : (r.namespace == ns) ≡ true = path→eq r.namespace ns p in
      let hit : labelled ns h r ≡ true = rw here (path→eq r.labels.fingerprint_hash h q) in
      let read = Memᴰ-filter_by (labelled ns h) (laws.reports w) r m hit in
      elim (list_candidates-cases api ns h w l e) [
        | inl by_hash ↦ subst (λ z. Memᴰ r z) (sym (laws.list_hash_law ns h w l by_hash)) read
        | inr (none_by_hash, all) ↦
            subst (λ z. Memᴰ r z) (sym (laws.list_law ns w l all))
              (Memᴰ-filter_by (in_namespace ns) (laws.reports w) r m here)
      ]

  module _ (fp : String) (s : State api) where
    cached_open-Memᴰ :
        (r : IncidentReport)
        → cached_open api fp s ≡ some r
        → Memᴰ r (laws.reports s.world) × (is_open_for fp r ≡ true)
    unfolding cached_open
    cached_open-Memᴰ r h = elim (Option-cases (lookup fp s.open_by_fingerprint)) [
      | inl unknown ↦ absurd (none-ne-some r (ground (arith, unknown)))
      | inr (ref, known) ↦ elim (Option-cases (api.get ref.namespace ref.name s.world)) [
        | inl gone ↦ absurd (none-ne-some r (ground (arith, known, gone)))
        | inr (q, got) ↦ elim (Bool-cases (is_open_for fp q)) [
          | inl fits ↦
              let e : q ≡ r = ground (arith, known, got, fits) in
              subst (λ z. Memᴰ z (laws.reports s.world) × (is_open_for fp z ≡ true)) e
                (laws.get_law ref.namespace ref.name s.world q got, fits)
          | inr misfits ↦ absurd (none-ne-some r (ground (arith, known, got, misfits)))
        ]
      ]
    ]

    -- findOpenIncident leaves the world as it is; what it returns is a stored open report with the
    -- fingerprint, and nothing only where there is no such report in the namespace
    pub find_open_incident-world :
        (ns h : String) → (find_open_incident api ns fp h s).0.world ≡ s.world
    unfolding find_open_incident scan_open
    find_open_incident-world ns h = ground arith

    pub find_open_incident-present :
        (ns h : String) (r : IncidentReport)
        → (find_open_incident api ns fp h s).1 ≡ present r
        → Memᴰ r (laws.reports s.world) × (is_open_for fp r ≡ true)
    unfolding find_open_incident scan_open
    find_open_incident-present ns h r e = elim (Option-cases (cached_open api fp s)) [
      | inl uncached ↦ elim (Option-cases (list_candidates api ns h s.world)) [
        | inl unread ↦ absurd (ground (arith, uncached, unread))
        | inr (l, read) ↦ elim (Option-cases (find_by (is_open_for fp) l)) [
          | inl unfound ↦ absurd (ground (arith, uncached, read, unfound))
          | inr (q, hit) ↦
              let k : q ≡ r = ground (arith, uncached, read, hit) in
              let (m, opened) = find_by-some (is_open_for fp) l q hit in
              subst (λ z. Memᴰ z (laws.reports s.world) × (is_open_for fp z ≡ true)) k
                ((list_candidates-Memᴰ ns h s.world l q read m).0, opened)
        ]
      ]
      | inr (q, cached) ↦
          let k : q ≡ r = ground (arith, cached) in
          subst (λ z. Memᴰ z (laws.reports s.world) × (is_open_for fp z ≡ true)) k
            (cached_open-Memᴰ q cached)
    ]

    pub find_open_incident-absent :
        (ns : String) (y : IncidentReport)
        → (find_open_incident api ns fp (hash fp) s).1 ≡ absent
        → Memᴰ y (laws.reports s.world)
        → IsCurrent hash y
        → ¬ IsOpenAs ns fp y
    unfolding find_open_incident scan_open is_open_for
    find_open_incident-absent ns y e m current opened = elim (Option-cases (cached_open api fp s)) [
      | inl uncached ↦ elim (Option-cases (list_candidates api ns (hash fp) s.world)) [
        | inl unread ↦ ground (arith, uncached, unread)
        | inr (l, read) ↦ elim (Option-cases (find_by (is_open_for fp) l)) [
          | inl unfound ↦
              let kept =
                list_candidates-complete ns (hash fp) s.world l y read m opened.place
                  (current.has_hash ∙ ap hash opened.identity) in
              let missed : is_open_for fp y ≡ false =
                find_by-absent (is_open_for fp) l y unfound kept in
              let named : (report_fingerprint y == fp) ≡ true =
                path→eq (report_fingerprint y) fp
                  (report_fingerprint-IsCurrent hash y current ∙ opened.identity) in
              ground (arith, missed, named, opened.unresolved)
          | inr (q, hit) ↦ ground (arith, uncached, read, hit)
        ]
      ]
      | inr (q, cached) ↦ ground (arith, cached)
    ]

    pub find_resolvable_incident-present :
        (now : ℕ) (ns h : String) (r : IncidentReport)
        → find_resolvable_incident api now ns fp h s ≡ present r
        → Memᴰ r (laws.reports s.world) × (r.namespace ≡ ns)
    unfolding find_resolvable_incident
    find_resolvable_incident-present now ns h r e =
        elim (Option-cases (list_candidates api ns h s.world)) [
          | inl unread ↦ absurd (ground (arith, unread))
          | inr (l, read) ↦ elim (Option-cases (latest_resolved now fp none l)) [
            | inl unfound ↦ absurd (ground (arith, read, unfound))
            | inr (q, hit) ↦
                let k : q ≡ r = ground (arith, read, hit) in
                elim (latest_resolved-Memᴰ now fp l none r (hit ∙ ap some k)) [
                  | inl none_best ↦ absurd (none-ne-some r none_best)
                  | inr m ↦ list_candidates-Memᴰ ns h s.world l r read m
                ]
          ]
        ]

    pub find_existing-present :
        (ns incoming : String) (w : Option IncidentObjectRef) (r : IncidentReport)
        → find_existing_by_workload_ref api ns incoming w s ≡ present r
        → Memᴰ r (laws.reports s.world) × (r.namespace ≡ ns)
    unfolding find_existing_by_workload_ref
    find_existing-present ns incoming none r e = absurd (ground arith)
    find_existing-present ns incoming (some w) r e = elim (Option-cases (api.list ns s.world)) [
      | inl unread ↦ absurd (ground (arith, unread))
      | inr (l, read) ↦ elim (Option-cases (existing_in w incoming l)) [
        | inl unfound ↦ absurd (ground (arith, read, unfound))
        | inr (q, hit) ↦
            let k : q ≡ r = ground (arith, read, hit) in
            list-Memᴰ ns s.world l r read (existing_in-Memᴰ w incoming l r (hit ∙ ap some k))
      ]
    ]
