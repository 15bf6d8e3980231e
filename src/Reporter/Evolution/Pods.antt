-- ===== src/Reporter/Evolution/Pods.antt =====
-- ResolveForHealthyPod and ResolveForDeletedPod: they only resolve, and they resolve every report
-- that they are meant to resolve.
use mathlib.Core.List.{Memᴰ}
use mathlib.Core.List.Memᴰ
use mathlib.Core.Bool.{false≢true}
use rca_operator.Base.{
  ℕ, String, ◌≡◌, refl, sym, ap, subst, ◌∙◌, Bool, true, false, some, none, List, [], ◌∷◌, map,
  Bool-cases, Option-cases, inl, inr, arith, path→eq, eq→path,
}
use rca_operator.Incident.Report.{IncidentReport}
use rca_operator.Incident.Status.{Metric, mark_resolved, phase_resolved}
use rca_operator.Reporter.Api.{Api, ApiLaws, same_object, with_status}
use rca_operator.Reporter.Evolution.{
  Moves-resolved, Evolves, Evolves-refl, Evolves-trans, Evolves-descendant,
}
use rca_operator.Reporter.Evolution.Patches.{resolving-Evolves}
use rca_operator.Reporter.Find.{is_resolved}
use rca_operator.Reporter.Resolve.{emit_all, resolve_each}
use rca_operator.Reporter.State.{done, failed, State, set_world}

emit_all-world :
    (api : Api) (ms : List Metric) (s : State api) → (emit_all api ms s).world ≡ s.world
emit_all-world api [] s = refl
emit_all-world api (m ∷ ms) s = emit_all-world api ms _

-- A stored report of the object is resolved.
abbrev pub IsClosed : IncidentReport → List IncidentReport → Type 0
IsClosed r l =
    (r' : IncidentReport) × Memᴰ r' l × (same_object r' r ≡ true) × (is_resolved r' ≡ true)

pub IsClosed-Evolves :
    (r : IncidentReport) (l l' : List IncidentReport) → Evolves l l' → IsClosed r l → IsClosed r l'
IsClosed-Evolves r l l' h (x, m, same, closed) =
    let (x', k, s) = Evolves-descendant l l' x h m in
    (
      x',
      k,
      rw (s.place, s.title) same,
      path→eq x'.status.phase phase_resolved
          (Moves-resolved _ _ s.moves (eq→path x.status.phase phase_resolved closed)),
    )

pub map_member :
    (f : IncidentReport → IncidentReport) {x : IncidentReport} {l : List IncidentReport}
    → Memᴰ x l
    → Memᴰ (f x) (map f l)
map_member f (Memᴰ.head e) = Memᴰ.head (ap f e)
map_member f (Memᴰ.tail m) = Memᴰ.tail (map_member f m)

pub failed_not_done : ¬ (failed ≡ done)
failed_not_done h = ground (arith, h)

module _ (api : Api) (laws : ApiLaws api) (selects : IncidentReport → Bool) (now : ℕ)
    (reason : String) where
  -- the state after the report's metrics are counted and its patch has succeeded
  abbrev patched : IncidentReport → api.World → State api → State api
  patched r w s = set_world api w (emit_all api (mark_resolved r now reason).1 s)

  resolved_phase :
      (r : IncidentReport) → (mark_resolved r now reason).0.status.phase ≡ phase_resolved
  unfolding mark_resolved
  resolved_phase r = refl

  resolved_object :
      (r : IncidentReport)
      → ((mark_resolved r now reason).0.namespace ≡ r.namespace)
        × ((mark_resolved r now reason).0.name ≡ r.name)
  unfolding mark_resolved
  resolved_object r = (refl, refl)

  written-Evolves :
      (r : IncidentReport) (s : State api) (w : api.World)
      → api.patch_status (mark_resolved r now reason).0 s.world ≡ some w
      → Evolves (laws.reports s.world) (laws.reports w)
  written-Evolves r s w sent =
      rw (laws.patch_status_law _ s.world w sent)
        (resolving-Evolves (laws.reports s.world) (mark_resolved r now reason).0 (resolved_phase r))

  -- the three ways through the body of the loop
  resolve_each-skipped :
      (r : IncidentReport) (rs : List IncidentReport) (s : State api)
      → selects r ≡ false
      → resolve_each api selects now reason (r ∷ rs) s ≡ resolve_each api selects now reason rs s
  unfolding resolve_each
  resolve_each-skipped r rs s h = rw h refl

  resolve_each-refused :
      (r : IncidentReport) (rs : List IncidentReport) (s : State api)
      → selects r ≡ true
      → api.patch_status (mark_resolved r now reason).0 s.world ≡ none
      → resolve_each api selects now reason (r ∷ rs) s
        ≡ (emit_all api (mark_resolved r now reason).1 s, failed)
  unfolding resolve_each
  resolve_each-refused r rs s h k = rw (h, k) refl

  resolve_each-patched :
      (r : IncidentReport) (rs : List IncidentReport) (s : State api) (w : api.World)
      → selects r ≡ true
      → api.patch_status (mark_resolved r now reason).0 s.world ≡ some w
      → resolve_each api selects now reason (r ∷ rs) s
        ≡ resolve_each api selects now reason rs (patched r w s)
  unfolding resolve_each
  resolve_each-patched r rs s w h k = rw (h, k) refl

  pub resolve_each-Evolves :
      (rs : List IncidentReport) (s : State api)
      → Evolves
          (laws.reports s.world)
          (laws.reports (resolve_each api selects now reason rs s).0.world)
  unfolding resolve_each
  resolve_each-Evolves [] s = Evolves-refl (laws.reports s.world)
  resolve_each-Evolves (r ∷ rs) s = elim (Bool-cases (selects r)) [
    | inr skipped ↦ rw (resolve_each-skipped r rs s skipped) (resolve_each-Evolves rs s)
    | inl selected ↦ elim (Option-cases (api.patch_status (mark_resolved r now reason).0 s.world)) [
      | inl refused ↦
          rw
            (
              resolve_each-refused r rs s selected refused,
              emit_all-world api (mark_resolved r now reason).1 s,
            )
            (Evolves-refl (laws.reports s.world))
      | inr (w, sent) ↦ rw (resolve_each-patched r rs s w selected sent) (
          Evolves-trans (laws.reports s.world) (laws.reports w) _ (written-Evolves r s w sent)
            (resolve_each-Evolves rs (patched r w s)))
    ]
  ]

  -- the patch of a report closes its object
  written-IsClosed :
      (r x : IncidentReport) (s : State api) (w : api.World)
      → api.patch_status (mark_resolved r now reason).0 s.world ≡ some w
      → Memᴰ x (laws.reports s.world)
      → same_object x r ≡ true
      → IsClosed r (laws.reports w)
  written-IsClosed r x s w sent k same =
      let m = (mark_resolved r now reason).0 in
      let (ns, name) = resolved_object r in
      let hit : same_object x m ≡ true = rw (ns, name) same in
      let closed : is_resolved m ≡ true =
        path→eq m.status.phase phase_resolved (resolved_phase r) in
      subst (IsClosed r) (sym (laws.patch_status_law m s.world w sent))
        (with_status m x, map_member (with_status m) k, rw hit same, rw hit closed)

  -- where the loop ends without an error, each selected report is resolved
  pub resolve_each_closes :
      (rs : List IncidentReport) (s : State api) (r x : IncidentReport)
      → (resolve_each api selects now reason rs s).1 ≡ done
      → Memᴰ r rs
      → selects r ≡ true
      → Memᴰ x (laws.reports s.world)
      → same_object x r ≡ true
      → IsClosed r (laws.reports (resolve_each api selects now reason rs s).0.world)
  resolve_each_closes [] s r x ok m chosen k same = elim m [ ]
  resolve_each_closes (q ∷ rs) s r x ok m chosen k same = elim (Bool-cases (selects q)) [
    | inr skipped ↦
        let e = resolve_each-skipped q rs s skipped in
        rw e (elim (Memᴰ.cases_cons m) [
          | inl here ↦ absurd (false≢true (sym skipped ∙ ap selects (sym here) ∙ chosen))
          | inr later ↦
              resolve_each_closes rs s r x (sym (ap (λ z. z.1) e) ∙ ok) later chosen k same
        ])
    | inl selected ↦ elim (Option-cases (api.patch_status (mark_resolved q now reason).0 s.world)) [
      | inl refused ↦ absurd (
          failed_not_done (sym (ap (λ z. z.1) (resolve_each-refused q rs s selected refused)) ∙ ok))
      | inr (w, sent) ↦
          let e = resolve_each-patched q rs s w selected sent in
          let (x', k', step) =
            Evolves-descendant (laws.reports s.world) (laws.reports w) x
              (written-Evolves q s w sent) k in
          rw e (elim (Memᴰ.cases_cons m) [
            | inl here ↦
                IsClosed-Evolves r (laws.reports w) _ (resolve_each-Evolves rs (patched q w s)) (
                  subst (λ z. IsClosed z (laws.reports w)) (sym here)
                    (written-IsClosed q x s w sent k
                      (subst (λ z. same_object x z ≡ true) here same)))
            | inr later ↦
                resolve_each_closes rs (patched q w s) r x' (sym (ap (λ z. z.1) e) ∙ ok) later
                  chosen k' (rw (step.place, step.title) same)
          ])
    ]
  ]
