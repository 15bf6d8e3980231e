-- ===== src/Agent/Kept.antt =====
-- What cleanupResolvedIncidents of internal/controller/rcaagent_controller.go deletes.
use mathlib.Core.List.{Memᴰ}
use rca_operator.Base.{
  ℕ, ◌^◌, ◌<◌, String, ◌≡◌, refl, sym, subst, Bool, true, false, not, inl, inr, ◌⊎◌, Option, none,
  some, List, filter_by, Bool-cases, Option-cases, ◌==◌, All-filter_by, [], ◌∷◌,
}
use rca_operator.Base.Members.{All-within, filter_by-Memᴰ, Memᴰ-filter_by}
use rca_operator.Incident.Report.{IncidentReport}
use rca_operator.Reporter.Api.{Api, ApiLaws, same_object}
use rca_operator.Reporter.Evolution.{IsDistinct, IsDistinct-one}
use rca_operator.Reporter.Healthy.{IsHealthy}
use rca_operator.Reporter.Unique.{IsSound}
use rca_operator.Reporter.Write.{Platform}
use rca_operator.Agent.{
  Agent, AgentCalls, Progress, begun, after_write, is_due, delete_due, cleanup_with,
  retention_namespaces, cleanup_resolved_incidents,
}
use rca_operator.Agent.Loops.{over_known-keeps}
use rca_operator.Retention.{parse_incident_retention}
use rca_operator.Agent.Expired.{IsExpired, is_due-IsExpired}

-- What the deletion relies on: it removes the object of its name and no other.
pub record DeleteLaw (api : Api) (laws : ApiLaws api) (calls : AgentCalls api) : Type 0 where
  pub deletes :
      (m : IncidentReport) (w w' : api.World)
      → calls.delete m w ≡ some w'
      → laws.reports w' ≡ filter_by (λ x. not (same_object x m)) (laws.reports w)

-- Every report of before is still there or was due, and there is no other.
pub record IsPruned (due : IncidentReport → Type 0) (l l' : List IncidentReport) : Type 0 where
  pub kept : (x : IncidentReport) → Memᴰ x l → Memᴰ x l' ⊎ due x
  pub old : (x : IncidentReport) → Memᴰ x l' → Memᴰ x l
  pub distinct : IsDistinct l'

IsDistinct-filter_by :
    (p : IncidentReport → Bool) (l : List IncidentReport)
    → IsDistinct l
    → IsDistinct (filter_by p l)
IsDistinct-filter_by p [] h = tt
IsDistinct-filter_by p (x ∷ l) h = elim (Bool-cases (p x)) [
  | inl e ↦ rw e (All-filter_by _ p l h.0, IsDistinct-filter_by p l h.1)
  | inr e ↦ rw e (IsDistinct-filter_by p l h.1)
]

IsSound-part :
    (hash : String → String) (l l' : List IncidentReport)
    → ((x : IncidentReport) → Memᴰ x l' → Memᴰ x l)
    → IsSound hash l
    → IsSound hash l'
IsSound-part hash l l' within h = record {
  current = λ x m. h.current x (within x m);
  unique = λ x y m n open_x i. h.unique x y (within x m) (within y n) open_x i;
}

module _ (api : Api) (laws : ApiLaws api) (calls : AgentCalls api) (law : DeleteLaw api laws calls)
    (agent : Agent) (now : ℕ) where
  -- one deletion, of a report that is due
  deletion-IsPruned :
      (due : IncidentReport → Type 0) (l l' : List IncidentReport) (m : IncidentReport)
      → IsDistinct l
      → Memᴰ m l
      → due m
      → IsPruned due l l'
      → IsPruned due l (filter_by (λ x. not (same_object x m)) l')
  deletion-IsPruned due l l' m d k ready h = record {
    kept = λ x here. still x here (h.kept x here);
    old = λ x here. h.old x (filter_by-Memᴰ _ l' x here).0;
    distinct = IsDistinct-filter_by _ l' h.distinct;
  }
    where
      still :
          (x : IncidentReport)
          → Memᴰ x l
          → Memᴰ x l' ⊎ due x
          → Memᴰ x (filter_by (λ y. not (same_object y m)) l') ⊎ due x
      still x here (inr was_due) = inr was_due
      still x here (inl there) = elim (Bool-cases (same_object x m)) [
        | inl same ↦ inr (subst due (sym (IsDistinct-one l x m d here k same)) ready)
        | inr other ↦ inl (Memᴰ-filter_by (λ y. not (same_object y m)) l' x there (rw other refl))
      ]

  after_write-IsPruned :
      (due : IncidentReport → Type 0) (l : List IncidentReport) (m : IncidentReport)
      (o : Option api.World) (gone : Bool) (p : Progress api)
      → calls.delete m p.world ≡ o
      → IsDistinct l
      → Memᴰ m l
      → due m
      → IsPruned due l (laws.reports p.world)
      → IsPruned due l (laws.reports (after_write api o gone p).world)
  unfolding after_write
  after_write-IsPruned due l m none true p e d k ready h = h
  after_write-IsPruned due l m none false p e d k ready h = h
  after_write-IsPruned due l m (some w) gone p e d k ready h =
      subst (IsPruned due l) (sym (law.deletes m p.world w e))
        (deletion-IsPruned due l (laws.reports p.world) m d k ready h)

  delete_due-IsPruned :
      (retention : ℕ) (l : List IncidentReport) (r : IncidentReport) (p : Progress api)
      → IsDistinct l
      → Memᴰ r l
      → IsPruned (λ x. is_due api calls agent now retention x ≡ true) l (laws.reports p.world)
      → IsPruned
          (λ x. is_due api calls agent now retention x ≡ true)
          l
          (laws.reports (delete_due api calls agent now retention r p).world)
  unfolding delete_due
  delete_due-IsPruned retention l r p d k h =
      elim (Bool-cases (is_due api calls agent now retention r)) [
        | inl e ↦ rw e (
            after_write-IsPruned (λ x. is_due api calls agent now retention x ≡ true) l r _ _ p refl
              d k e h)
        | inr e ↦ rw e h
      ]

  cleanup_resolved_incidents-due :
      (retention : ℕ) (w : api.World)
      → parse_incident_retention agent.incident_retention agent.incident_retention_days
        ≡ some retention
      → IsDistinct (laws.reports w)
      → IsPruned
          (λ x. is_due api calls agent now retention x ≡ true)
          (laws.reports w)
          (laws.reports (cleanup_resolved_incidents api calls agent now w).world)
  unfolding cleanup_resolved_incidents cleanup_with
  cleanup_resolved_incidents-due retention w e d =
      let l = laws.reports w in
      rw e (
        over_known-keeps api
          (λ v. IsPruned (λ x. is_due api calls agent now retention x ≡ true) l (laws.reports v))
          (λ r. Memᴰ r l) (delete_due api calls agent now retention)
          (λ ns v found h q.
            All-within (λ r. Memᴰ r l) found
              (λ r m.
                h.old r
                  (filter_by-Memᴰ (λ x. x.namespace == ns) (laws.reports v) r
                    (subst (Memᴰ r) (laws.list_law ns v found q) m)).0))
          (λ r p k h. delete_due-IsPruned retention l r p d k h)
          (retention_namespaces api calls agent now w) (begun api w)
          (record { kept = λ x m. inl m; old = λ x m. m; distinct = d }))

  -- Where the stored reports are distinct objects, a deletion removes one object and the retention of
  -- the agent is read and below 2^63 nanoseconds, the cleanup keeps every report whose time is not
  -- over or that belongs to another agent, whatever calls fail: it deletes only a report that names the
  -- agent in its spec or its label and that was resolved, or created and never given a phase, longer
  -- ago than the retention. It adds none.
  pub cleanup_resolved_incidents-IsPruned :
      (retention : ℕ) (w : api.World)
      → parse_incident_retention agent.incident_retention agent.incident_retention_days
        ≡ some retention
      → retention < 2 ^ 63
      → IsDistinct (laws.reports w)
      → IsPruned
          (IsExpired agent now retention)
          (laws.reports w)
          (laws.reports (cleanup_resolved_incidents api calls agent now w).world)
  cleanup_resolved_incidents-IsPruned retention w e short d =
      let h = cleanup_resolved_incidents-due retention w e d in
      record {
        kept = λ x m. elim (h.kept x m) [
          | inl here ↦ inl here
          | inr due ↦ inr (is_due-IsExpired api calls agent now retention x short due)
        ];
        old = h.old;
        distinct = h.distinct;
      }

  -- with any retention, also one that is not read
  pub cleanup-IsHealthy :
      (platform : Platform) (w : api.World)
      → IsHealthy api laws platform w
      → IsHealthy api laws platform (cleanup_resolved_incidents api calls agent now w).world
  unfolding cleanup_resolved_incidents cleanup_with
  cleanup-IsHealthy platform w h =
      elim (Option-cases
        (parse_incident_retention agent.incident_retention agent.incident_retention_days)) [
          | inl unread ↦ rw unread h
          | inr (retention, read) ↦
              let pruned = cleanup_resolved_incidents-due retention w read h.distinct in
              record {
                sound =
                    IsSound-part platform.fingerprint_hash (laws.reports w) _ pruned.old h.sound;
                distinct = pruned.distinct;
              }
        ]
