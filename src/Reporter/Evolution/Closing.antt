-- ===== src/Reporter/Evolution/Closing.antt =====
-- What ResolveForHealthyPod and ResolveForDeletedPod do to the stored reports.
use mathlib.Core.List.{Memᴰ}
use Prim.Native.String.{◌++◌ as ◌joined◌}
use rca_operator.Base.{
  ℕ, String, ◌≡◌, refl, sym, ap, subst, ◌∙◌, Bool, true, false, some, none, List, Bool-cases,
  Option-cases, inl, inr, ◌==◌, path→eq,
}
use rca_operator.Base.Members.{Memᴰ-filter_by}
use rca_operator.Incident.Report.{IncidentReport}
use rca_operator.Reporter.Api.{Api, ApiLaws}
use rca_operator.Reporter.Evolution.{Evolves, Evolves-refl}
use rca_operator.Reporter.Evolution.Patches.{evolution-IsSound}
use rca_operator.Reporter.Evolution.Pods.{
  IsClosed, IsClosed-Evolves, resolve_each-Evolves, resolve_each_closes, failed_not_done,
}
use rca_operator.Reporter.Find.{is_resolved}
use rca_operator.Reporter.Resolve.{
  Pod, PodLookup, lookup_failed, not_found, pod_found, is_pod_currently_ready, resolves_deleted,
  resolves_healthy, incident_affects_pod, last_observed, within_cooldown, resolve_each,
  resolve_listed, resolve_for_healthy_pod, resolve_for_deleted_pod,
}
use rca_operator.Reporter.State.{done, failed, State}
use rca_operator.Reporter.Unique.{same_object_refl}
use rca_operator.Reporter.Unique.Ensure.{IsSoundState}
use rca_operator.Reporter.Write.{Platform}

module _ (api : Api) (laws : ApiLaws api) where
  resolve_listed-Evolves :
      (selects : IncidentReport → Bool) (now : ℕ) (reason ns : String) (s : State api)
      → Evolves
          (laws.reports s.world)
          (laws.reports (resolve_listed api selects now reason ns s).0.world)
  unfolding resolve_listed
  resolve_listed-Evolves selects now reason ns s = elim (Option-cases (api.list ns s.world)) [
    | inl unread ↦ rw (resolve_listed, unread) (Evolves-refl (laws.reports s.world))
    | inr (rs, read) ↦
        rw (resolve_listed, read) (resolve_each-Evolves api laws selects now reason rs s)
  ]

  resolve_listed_read :
      (selects : IncidentReport → Bool) (now : ℕ) (reason ns : String) (s : State api)
      (rs : List IncidentReport)
      → api.list ns s.world ≡ some rs
      → resolve_listed api selects now reason ns s ≡ resolve_each api selects now reason rs s
  unfolding resolve_listed
  resolve_listed_read selects now reason ns s rs h = rw (resolve_listed, h) refl

  resolve_listed_unread :
      (selects : IncidentReport → Bool) (now : ℕ) (reason ns : String) (s : State api)
      → api.list ns s.world ≡ none
      → resolve_listed api selects now reason ns s ≡ (s, failed)
  unfolding resolve_listed
  resolve_listed_unread selects now reason ns s h = rw (resolve_listed, h) refl

  resolve_listed_closes :
      (selects : IncidentReport → Bool) (now : ℕ) (reason ns : String) (s : State api)
      (r : IncidentReport)
      → (resolve_listed api selects now reason ns s).1 ≡ done
      → Memᴰ r (laws.reports s.world)
      → r.namespace ≡ ns
      → selects r ≡ true
      → IsClosed r (laws.reports (resolve_listed api selects now reason ns s).0.world)
  resolve_listed_closes selects now reason ns s r ok m here chosen =
      elim (Option-cases (api.list ns s.world)) [
        | inl unread ↦ absurd (
            failed_not_done
              (sym (ap (λ z. z.1) (resolve_listed_unread selects now reason ns s unread)) ∙ ok))
        | inr (rs, read) ↦
            let e = resolve_listed_read selects now reason ns s rs read in
            let listed : Memᴰ r rs =
              subst (λ l. Memᴰ r l) (sym (laws.list_law ns s.world rs read))
                (Memᴰ-filter_by (λ x. x.namespace == ns) (laws.reports s.world) r m
                  (path→eq r.namespace ns here)) in
            rw e (
              resolve_each_closes api laws selects now reason rs s r r (sym (ap (λ z. z.1) e) ∙ ok)
                listed chosen m (same_object_refl r))
      ]

  -- ResolveForDeletedPod only resolves: no report is lost, created or renamed.
  pub resolve_for_deleted_pod-Evolves :
      (now : ℕ) (ns pod : String) (s : State api)
      → Evolves
          (laws.reports s.world)
          (laws.reports (resolve_for_deleted_pod api now ns pod s).0.world)
  unfolding resolve_for_deleted_pod
  resolve_for_deleted_pod-Evolves now ns pod s =
      resolve_listed-Evolves (resolves_deleted ns pod) now _ ns s

  already-IsClosed :
      (r : IncidentReport) (l : List IncidentReport)
      → Memᴰ r l
      → is_resolved r ≡ true
      → IsClosed r l
  already-IsClosed r l m closed = (r, m, same_object_refl r, closed)

  -- Where ResolveForDeletedPod returns no error, every stored report of the namespace that affects
  -- the pod is resolved.
  pub resolve_for_deleted_pod_closes :
      (now : ℕ) (ns pod : String) (s : State api) (r : IncidentReport)
      → (resolve_for_deleted_pod api now ns pod s).1 ≡ done
      → Memᴰ r (laws.reports s.world)
      → r.namespace ≡ ns
      → incident_affects_pod r pod ns ≡ true
      → IsClosed r (laws.reports (resolve_for_deleted_pod api now ns pod s).0.world)
  unfolding resolve_for_deleted_pod resolves_deleted
  resolve_for_deleted_pod_closes now ns pod s r ok m here affected =
      elim (Bool-cases (is_resolved r)) [
        | inl closed ↦
            IsClosed-Evolves r (laws.reports s.world) _
              (resolve_for_deleted_pod-Evolves now ns pod s)
              (already-IsClosed r (laws.reports s.world) m closed)
        | inr opened ↦
            resolve_listed_closes (resolves_deleted ns pod) now _ ns s r ok m here
              (rw (resolves_deleted, opened, affected) refl)
      ]

  -- ResolveForHealthyPod only resolves.
  pub resolve_for_healthy_pod-Evolves :
      (platform : Platform) (now : ℕ) (found : PodLookup) (ns pod : String) (s : State api)
      → Evolves
          (laws.reports s.world)
          (laws.reports (resolve_for_healthy_pod api platform now found ns pod s).0.world)
  unfolding resolve_for_healthy_pod
  resolve_for_healthy_pod-Evolves platform now lookup_failed ns pod s =
      Evolves-refl (laws.reports s.world)
  resolve_for_healthy_pod-Evolves platform now not_found ns pod s =
      Evolves-refl (laws.reports s.world)
  resolve_for_healthy_pod-Evolves platform now (pod_found p) ns pod s =
      elim (Bool-cases (is_pod_currently_ready p)) [
        | inl ready ↦
            rw ready (resolve_listed-Evolves (resolves_healthy platform now ns pod) now _ ns s)
        | inr unready ↦ rw unready (Evolves-refl (laws.reports s.world))
      ]

  healthy_ready :
      (platform : Platform) (now : ℕ) (p : Pod) (ns pod : String) (s : State api)
      → is_pod_currently_ready p ≡ true
      → resolve_for_healthy_pod api platform now (pod_found p) ns pod s
        ≡ resolve_listed api
            (resolves_healthy platform now ns pod)
            now
            ("Pod " joined pod joined " became Running and Ready")
            ns
            s
  unfolding resolve_for_healthy_pod
  healthy_ready platform now p ns pod s h = rw h refl

  -- Where the pod is ready and ResolveForHealthyPod returns no error, every stored report of the
  -- namespace that affects the pod and was not observed within the cooldown is resolved.
  pub resolve_for_healthy_pod_closes :
      (platform : Platform) (now : ℕ) (p : Pod) (ns pod : String) (s : State api)
      (r : IncidentReport)
      → is_pod_currently_ready p ≡ true
      → (resolve_for_healthy_pod api platform now (pod_found p) ns pod s).1 ≡ done
      → Memᴰ r (laws.reports s.world)
      → r.namespace ≡ ns
      → incident_affects_pod r pod ns ≡ true
      → within_cooldown platform now (last_observed platform r) ≡ false
      → IsClosed r
          (laws.reports (resolve_for_healthy_pod api platform now (pod_found p) ns pod s).0.world)
  unfolding resolve_for_healthy_pod resolves_healthy
  resolve_for_healthy_pod_closes platform now p ns pod s r ready ok m here affected quiet =
      elim (Bool-cases (is_resolved r)) [
        | inl closed ↦
            IsClosed-Evolves r (laws.reports s.world) _
              (resolve_for_healthy_pod-Evolves platform now (pod_found p) ns pod s)
              (already-IsClosed r (laws.reports s.world) m closed)
        | inr opened ↦ rw ready (
            resolve_listed_closes (resolves_healthy platform now ns pod) now _ ns s r
              (sym (ap (λ z. z.1) (healthy_ready platform now p ns pod s ready)) ∙ ok) m here
              (rw (resolves_healthy, opened, affected, quiet) refl))
      ]

  -- Both keep one open report for each namespace and fingerprint.
  pub resolve_for_pods-IsSound :
      (platform : Platform) (now : ℕ) (found : PodLookup) (ns pod : String) (s : State api)
      → IsSoundState api laws platform s
      → IsSoundState api laws platform (resolve_for_healthy_pod api platform now found ns pod s).0
        × IsSoundState api laws platform (resolve_for_deleted_pod api now ns pod s).0
  resolve_for_pods-IsSound platform now found ns pod s sound = (
    evolution-IsSound platform.fingerprint_hash (laws.reports s.world) _
        (resolve_for_healthy_pod-Evolves platform now found ns pod s) sound,
    evolution-IsSound platform.fingerprint_hash (laws.reports s.world) _
        (resolve_for_deleted_pod-Evolves now ns pod s) sound,
  )
