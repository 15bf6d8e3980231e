-- ===== src/Reporter/Distinct.antt =====
-- EnsureSignal keeps the stored reports distinct objects, whichever way it goes.
use rca_operator.Base.{
  ℕ, String, ◌≡◌, refl, sym, subst, false, List, [], ◌∷◌, ◌++◌, map, All, Bool-cases, Option-cases,
  inl, inr, arith,
}
use rca_operator.Incident.Report.{IncidentReport}
use rca_operator.Incident.Input.{Input, fingerprint}
use rca_operator.Reporter.Api.{Api, ApiLaws, same_object, with_meta, with_status}
use rca_operator.Reporter.Ensure.{
  with_defaults, patch_status_then, patch_both, create_incident, update_active_incident,
  reopen_incident, ensure_by_workload, ensure_not_open, ensure_found, ensure_signal,
}
use rca_operator.Reporter.Evolution.{IsDistinct}
use rca_operator.Reporter.Find.{is_resolved}
use rca_operator.Reporter.State.{Found, broken, absent, present, State, set_world}
use rca_operator.Reporter.Unique.Lookup.{find_open_incident-world}
use rca_operator.Reporter.Write.{Platform, initial_report}

-- A function that keeps the key of a report.
abbrev KeepsKey : (IncidentReport → IncidentReport) → Type 0
KeepsKey f = (x : IncidentReport) → ((f x).namespace ≡ x.namespace) × ((f x).name ≡ x.name)

All-map :
    (f : IncidentReport → IncidentReport) (x : IncidentReport) (l : List IncidentReport)
    → KeepsKey f
    → All (λ y. same_object x y ≡ false) l
    → All (λ y. same_object (f x) y ≡ false) (map f l)
All-map f x [] h a = tt
All-map f x (y ∷ l) h (a, b) =
    let (p, q) = h x in let (u, v) = h y in (rw (p, q, u, v) a, All-map f x l h b)

IsDistinct-map :
    (f : IncidentReport → IncidentReport) (l : List IncidentReport)
    → KeepsKey f
    → IsDistinct l
    → IsDistinct (map f l)
IsDistinct-map f [] h d = tt
IsDistinct-map f (x ∷ l) h (a, d) = (All-map f x l h a, IsDistinct-map f l h d)

with_meta-KeepsKey : (m : IncidentReport) → KeepsKey (with_meta m)
with_meta-KeepsKey m x = (ground arith, ground arith)

with_status-KeepsKey : (m : IncidentReport) → KeepsKey (with_status m)
with_status-KeepsKey m x = (ground arith, ground arith)

All-snoc :
    (x y : IncidentReport) (l : List IncidentReport)
    → All (λ z. same_object x z ≡ false) l
    → same_object x y ≡ false
    → All (λ z. same_object x z ≡ false) (l ++ y ∷ [])
All-snoc x y [] a h = (h, tt)
All-snoc x y (z ∷ l) (a, b) h = (a, All-snoc x y l b h)

IsDistinct-snoc :
    (y : IncidentReport) (l : List IncidentReport)
    → IsDistinct l
    → All (λ x. same_object x y ≡ false) l
    → IsDistinct (l ++ y ∷ [])
IsDistinct-snoc y [] d a = (tt, tt)
IsDistinct-snoc y (x ∷ l) (b, d) (h, a) = (All-snoc x y l b h, IsDistinct-snoc y l d a)

module _ (api : Api) (laws : ApiLaws api) (platform : Platform) where
  abbrev pub IsDistinctState : State api → Type 0
  IsDistinctState s = IsDistinct (laws.reports s.world)

  patch_status_then-IsDistinct :
      (m : IncidentReport) (k : State api → State api) (s : State api)
      → ((t : State api) → (k t).world ≡ t.world)
      → IsDistinctState s
      → IsDistinctState (patch_status_then api platform m k s).0
  unfolding patch_status_then
  patch_status_then-IsDistinct m k s world d = elim (Option-cases (api.patch_status m s.world)) [
    | inl refused ↦ rw (patch_status_then, refused) d
    | inr (w, sent) ↦
        rw
          (
            patch_status_then,
            sent,
            world (set_world api w s),
            laws.patch_status_law m s.world w sent,
          )
          (IsDistinct-map (with_status m) (laws.reports s.world) (with_status-KeepsKey m) d)
  ]

  patch_both-IsDistinct :
      (m m' : IncidentReport) (k : State api → State api) (s : State api)
      → ((t : State api) → (k t).world ≡ t.world)
      → IsDistinctState s
      → IsDistinctState (patch_both api platform m m' k s).0
  unfolding patch_both
  patch_both-IsDistinct m m' k s world d = elim (Option-cases (api.patch m s.world)) [
    | inl refused ↦ rw (patch_both, refused) d
    | inr (w, sent) ↦
        rw (patch_both, sent)
          (patch_status_then-IsDistinct m' k (set_world api w s) world (
            subst IsDistinct (sym (laws.patch_law m s.world w sent))
              (IsDistinct-map (with_meta m) (laws.reports s.world) (with_meta-KeepsKey m) d)))
  ]

  update_active_incident-IsDistinct :
      (x : IncidentReport) (input : Input) (fp hash : String) (s : State api)
      → IsDistinctState s
      → IsDistinctState (update_active_incident api platform x input fp hash s).0
  unfolding update_active_incident
  update_active_incident-IsDistinct x input fp hash s d =
      patch_both-IsDistinct _ _ _ _ (λ t. refl) d

  reopen_incident-IsDistinct :
      (x : IncidentReport) (input : Input) (fp hash : String) (s : State api)
      → IsDistinctState s
      → IsDistinctState (reopen_incident api platform x input fp hash s).0
  unfolding reopen_incident
  reopen_incident-IsDistinct x input fp hash s d =
      patch_both-IsDistinct _ _ _ _ (λ t. ground arith) d

  create_incident-IsDistinct :
      (input : Input) (fp hash : String) (s : State api)
      → IsDistinctState s
      → IsDistinctState (create_incident api platform input fp hash s).0
  unfolding create_incident
  create_incident-IsDistinct input fp hash s d =
      elim (Option-cases (api.create (initial_report platform input fp hash) s.world)) [
        | inl refused ↦ rw (create_incident, refused) d
        | inr ((x, w), sent) ↦
            let (appended, placed, labels, spec, blank, fresh) =
              laws.create_law (initial_report platform input fp hash) x s.world w sent in
            rw (create_incident, sent)
              (patch_status_then-IsDistinct _ _ (set_world api w s) (λ t. ground arith)
                (subst IsDistinct (sym appended)
                  (IsDistinct-snoc x (laws.reports s.world) d fresh)))
      ]

  ensure_by_workload-IsDistinct :
      (f : Found) (input : Input) (fp hash : String) (s : State api)
      → IsDistinctState s
      → IsDistinctState (ensure_by_workload api platform f input fp hash s).0
  unfolding ensure_by_workload
  ensure_by_workload-IsDistinct broken input fp hash s d = d
  ensure_by_workload-IsDistinct absent input fp hash s d =
      create_incident-IsDistinct input fp hash s d
  ensure_by_workload-IsDistinct (present x) input fp hash s d = elim (Bool-cases (is_resolved x)) [
    | inl closed ↦ rw closed (reopen_incident-IsDistinct x input fp hash s d)
    | inr opened ↦ rw opened (update_active_incident-IsDistinct x input fp hash s d)
  ]

  ensure_not_open-IsDistinct :
      (f : Found) (input : Input) (fp hash : String) (s : State api)
      → IsDistinctState s
      → IsDistinctState (ensure_not_open api platform f input fp hash s).0
  unfolding ensure_not_open
  ensure_not_open-IsDistinct broken input fp hash s d = d
  ensure_not_open-IsDistinct (present x) input fp hash s d =
      reopen_incident-IsDistinct x input fp hash s d
  ensure_not_open-IsDistinct absent input fp hash s d =
      ensure_by_workload-IsDistinct _ input fp hash s d

  ensure_found-IsDistinct :
      (now : ℕ) (input : Input) (fp hash : String) (p : State api × Found)
      → IsDistinctState p.0
      → IsDistinctState (ensure_found api platform now input fp hash p).0
  unfolding ensure_found
  ensure_found-IsDistinct now input fp hash (s, broken) d = d
  ensure_found-IsDistinct now input fp hash (s, present x) d =
      update_active_incident-IsDistinct x input fp hash s d
  ensure_found-IsDistinct now input fp hash (s, absent) d =
      ensure_not_open-IsDistinct _ input fp hash s d

  -- EnsureSignal keeps the stored reports distinct.
  pub ensure_signal-IsDistinct :
      (now : ℕ) (input : Input) (s : State api)
      → IsDistinctState s
      → IsDistinctState (ensure_signal api platform now input s).0
  unfolding ensure_signal
  ensure_signal-IsDistinct now input s d = ensure_found-IsDistinct now _ _ _ _ (
      subst (λ w. IsDistinct (laws.reports w))
        (sym (
          find_open_incident-world api laws platform.fingerprint_hash
            (fingerprint (with_defaults now input)) s (with_defaults now input).namespace
            (platform.fingerprint_hash (fingerprint (with_defaults now input)))))
        d)
