-- ===== src/Agent/Expired.antt =====
-- The reports whose time is over, by the guards of cleanupResolvedIncidents of
-- internal/controller/rcaagent_controller.go.
use mathlib.Core.Bool.{false≢true}
use rca_operator.Base.{
  ℕ, ◌+◌, ◌^◌, ◌<◌, ◌≡◌, ◌≢◌, refl, arith, eq→path, ltb→lt, lt→ltb, and-left, and-right, true, inl,
  inr, ◌⊎◌, Option, none, some, Bool-cases, ◌==◌,
}
use rca_operator.Incident.Report.{IncidentReport}
use rca_operator.Reporter.Api.{Api}
use rca_operator.Agent.{
  Agent, AgentCalls, is_due, belongs_to_agent, is_older, resolved_before,
  should_prune_incident_report,
}
use rca_operator.Incident.Status.{effective_resolved_time, first_some}
use rca_operator.Reporter.Find.{is_resolved}

-- The instant is longer ago than the retention.
abbrev pub IsPast : ℕ → ℕ → ℕ → Type 0
IsPast now retention t = t + retention < now

-- The report belongs to the agent, by its spec or by its label, and its time is over: it was resolved,
-- or created and never given a phase, longer ago than the retention.
pub record IsExpired (agent : Agent) (now retention : ℕ) (x : IncidentReport) : Type 0 where
  pub owned : (x.spec.agent_ref ≡ agent.name) ⊎ (x.labels.agent ≡ agent.name)
  pub over :
      ((x.status.phase ≡ "Resolved")
        × ((t : ℕ) × ((x.status.resolved_at ≡ some t)
              ⊎ ((x.status.resolved_at ≡ none) × (x.status.resolved_time ≡ some t)))
            × (t ≢ 0)
            × IsPast now retention t))
      ⊎ ((x.status.phase ≡ "") × IsPast now retention x.created)

is_older-IsPast : (now t d : ℕ) → d < 2 ^ 63 → is_older now t d ≡ true → IsPast now d t
unfolding is_older
is_older-IsPast now t d short h = ltb→lt _ _ (ground (arith, lt→ltb _ _ short, h))

resolved_before-IsPast :
    (now d : ℕ) (o : Option ℕ)
    → d < 2 ^ 63
    → resolved_before now d o ≡ true
    → (t : ℕ) × (o ≡ some t) × (t ≢ 0) × IsPast now d t
unfolding resolved_before
resolved_before-IsPast now d none short h = absurd (false≢true h)
resolved_before-IsPast now d (some t) short h =
    (t, refl, ground (arith, h), is_older-IsPast now t d short (and-right _ _ h))

first_some-cases :
    (a b : Option ℕ) (t : ℕ) → first_some a b ≡ some t → (a ≡ some t) ⊎ ((a ≡ none) × (b ≡ some t))
first_some-cases none b t h = inr (refl, h)
first_some-cases (some s) b t h = inl h

module _ (api : Api) (calls : AgentCalls api) (agent : Agent) (now : ℕ) where
  pub is_due-IsExpired :
      (retention : ℕ) (x : IncidentReport)
      → retention < 2 ^ 63
      → is_due api calls agent now retention x ≡ true
      → IsExpired agent now retention x
  unfolding is_due belongs_to_agent should_prune_incident_report effective_resolved_time
  is_due-IsExpired retention x short h = record {
    owned = owned (and-left _ _ h);
    over = over (and-right _ _ h);
  }
    where
      owned :
          belongs_to_agent x agent.name ≡ true
          → (x.spec.agent_ref ≡ agent.name) ⊎ (x.labels.agent ≡ agent.name)
      owned b = elim (Bool-cases (x.spec.agent_ref == agent.name)) [
        | inl e ↦ inl (eq→path _ _ e)
        | inr e ↦ inr (eq→path x.labels.agent agent.name (ground (arith, e, b)))
      ]

      over :
          should_prune_incident_report x now retention ≡ true
          → ((x.status.phase ≡ "Resolved")
              × ((t : ℕ) × ((x.status.resolved_at ≡ some t)
                    ⊎ ((x.status.resolved_at ≡ none) × (x.status.resolved_time ≡ some t)))
                  × (t ≢ 0)
                  × IsPast now retention t))
            ⊎ ((x.status.phase ≡ "") × IsPast now retention x.created)
      over p = elim (Bool-cases (is_resolved x)) [
        | inl e ↦
            let (t, at, set, past) =
              resolved_before-IsPast now retention (effective_resolved_time x.status) short
                (ground (arith, e, p)) in
            inl (eq→path _ _ e, (t, first_some-cases _ _ t at, set, past))
        | inr e ↦ elim (Bool-cases (x.status.phase == "")) [
          | inl f ↦ inr (
            eq→path _ _ f,
            is_older-IsPast now x.created retention short (ground (arith, e, f, p)),
          )
          | inr f ↦ absurd (ground (arith, e, f, p))
        ]
      ]
