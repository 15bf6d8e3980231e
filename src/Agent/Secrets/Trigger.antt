-- ===== src/Agent/Secrets/Trigger.antt =====
-- A secret that was missing brings its agent back.
use mathlib.Core.List.{Memᴰ}
use rca_operator.Base.{
  String, Bool, ◌≡◌, subst, true, inl, inr, Option, some, List, [], ◌∷◌, any_by, Bool-cases, ◌==◌,
  arith, eq_refl, ap,
}
use rca_operator.Agent.{Agent}
use rca_operator.Agent.Secrets.{
  SecretRefUsage, first_missing, validate_referenced_secrets, references_secret, requests_for,
  requests_listed, referenced_secret_refs, find_agents_for_secret,
}

first_missing-named :
    (has_secret : String → String → Bool) (namespace : String) (refs : List SecretRefUsage)
    (ref : SecretRefUsage)
    → first_missing has_secret namespace refs ≡ some ref
    → any_by (λ x. x.name == ref.name) refs ≡ true
unfolding first_missing
first_missing-named has_secret namespace [] ref h = cc
first_missing-named has_secret namespace (x ∷ refs) ref h =
    elim (Bool-cases (has_secret namespace x.name)) [
      | inl e ↦
          ground (arith, first_missing-named has_secret namespace refs ref (ground (arith, h, e)))
      | inr e ↦
          let f : x ≡ ref = ground (arith, h, e) in
          rw (ap (λ y. y.name) f) (ground (arith, eq_refl ref.name))
    ]

requests_for-Memᴰ :
    (secret_name : String) (agents : List Agent) (agent : Agent)
    → Memᴰ agent agents
    → references_secret agent secret_name ≡ true
    → Memᴰ
        (record { namespace = agent.namespace; name = agent.name })
        (requests_for secret_name agents)
unfolding requests_for
requests_for-Memᴰ secret_name [] agent m h = elim m [ ]
requests_for-Memᴰ secret_name (x ∷ agents) agent (Memᴰ.head q) h =
    rw (subst (λ y. references_secret y secret_name ≡ true) q h)
      (Memᴰ.head (ap (λ y. record { namespace = y.namespace; name = y.name }) q))
requests_for-Memᴰ secret_name (x ∷ agents) agent (Memᴰ.tail m) h =
    elim (Bool-cases (references_secret x secret_name)) [
      | inl e ↦ rw e (Memᴰ.tail (requests_for-Memᴰ secret_name agents agent m h))
      | inr e ↦ rw e (requests_for-Memᴰ secret_name agents agent m h)
    ]

-- Where the validation of an agent fails for a missing secret, and the agent is listed in its
-- namespace, a change of the secret of that name in that namespace has the agent reconciled again.
pub find_agents_for_secret-validated :
    (has_secret : String → String → Bool) (list : String → Option (List Agent)) (agent : Agent)
    (ref : SecretRefUsage) (agents : List Agent)
    → validate_referenced_secrets has_secret agent ≡ some ref
    → list agent.namespace ≡ some agents
    → Memᴰ agent agents
    → Memᴰ
        (record { namespace = agent.namespace; name = agent.name })
        (find_agents_for_secret list agent.namespace ref.name)
unfolding validate_referenced_secrets find_agents_for_secret requests_listed references_secret
find_agents_for_secret-validated has_secret list agent ref agents h e m = rw e (
    requests_for-Memᴰ ref.name agents agent m
      (first_missing-named has_secret agent.namespace (referenced_secret_refs agent) ref h))
